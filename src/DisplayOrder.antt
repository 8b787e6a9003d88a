-- ===== src/DisplayOrder.antt =====
-- The order in which the values of a column are displayed: src/domain/ColumnValuePriorityPolicy.h
-- and .cpp. unsigned long long is 64 bits.
pub mod Laws
mod Samples
use text.Mathlib.Text.{◌==◌ as str_eq}
use ssa_consulta_rapidacpp.Prelude.{
  ℕ, suc, ◌+◌, ◌-◌, ◌*◌, ◌/◌, ◌^◌, Bool, true, false, ◌&&◌, ◌||◌, not, List, [], ◌∷◌, Option, none,
  some, String, if◌then◌else◌, ltb, leb, ◌==◌, is_empty, any,
}
use ssa_consulta_rapidacpp.Text.{Text, codes, text_eq, text_lt}

unfoldable pub ascii_upper : ℕ → ℕ
ascii_upper value = if leb b'a' value && leb value b'z' then value - 32 else value

unfoldable pub is_ascii_alpha_numeric : ℕ → Bool
is_ascii_alpha_numeric value =
    leb b'a' value && leb value b'z'
    || leb b'A' value && leb value b'Z'
    || leb b'0' value && leb value b'9'

abbrev ends_segment : Text → Bool
ends_segment [] = true
ends_segment (c ∷ value) = not (is_ascii_alpha_numeric c)

unfoldable pub matches_code_segment : Text → Text → Bool
matches_code_segment value [] = ends_segment value
matches_code_segment [] (p ∷ prefix) = false
matches_code_segment (c ∷ value) (p ∷ prefix) =
    ascii_upper c == ascii_upper p && matches_code_segment value prefix

unfoldable pub uppercase_ascii_copy : Text → Text
uppercase_ascii_copy [] = []
uppercase_ascii_copy (c ∷ value) = ascii_upper c ∷ uppercase_ascii_copy value

abbrev max_unsigned : ℕ
max_unsigned = 2 ^ 64 - 1

unfoldable pub parse_digits : ℕ → Text → Option ℕ
parse_digits result [] = some result
parse_digits result (c ∷ value) =
    let digit = c - b'0' in
    let rest = parse_digits (result * 10 + digit) value in
    if ltb c b'0' || ltb b'9' c
    then none
    else if ltb ((max_unsigned - digit) / 10) result
    then none
    else rest

unfoldable pub parse_unsigned_integer : Text → Option ℕ
parse_unsigned_integer value = if is_empty value then none else parse_digits 0 value

abbrev pub ordered_priority_values : List Text
ordered_priority_values =
    codes "IEE3"
    ∷ codes "IEE1"
    ∷ codes "IEE2"
    ∷ codes "IEE4"
    ∷ codes "MEL1"
    ∷ codes "MEL2"
    ∷ codes "MEL3"
    ∷ codes "MEL4"
    ∷ []

unfoldable pub rank_from : ℕ → List Text → Text → ℕ
rank_from index [] value = 100
rank_from index (prefix ∷ rest) value =
    let later = rank_from (suc index) rest value in
    if matches_code_segment value prefix then index else later

unfoldable pub priority_rank : Text → ℕ
priority_rank value = rank_from 0 ordered_priority_values value

unfoldable pub is_priority_column_value : Text → Bool
is_priority_column_value value =
    not (priority_rank value == 100)
    || any (matches_code_segment value) (codes "SMIN" ∷ codes "SMME" ∷ [])

unfoldable pub uses_priority_value_order : String → Bool
uses_priority_value_order key =
    str_eq key "setor_emissor"
    || str_eq key "setor_executor"
    || str_eq key "responsavel_programacao"
    || str_eq key "responsavel_execucao"

unfoldable pub text_less : Text → Text → Bool
text_less left right =
    let left_upper = uppercase_ascii_copy left in
    let right_upper = uppercase_ascii_copy right in
    if not (text_eq left_upper right_upper)
    then text_lt left_upper right_upper
    else text_lt left right

-- Two numbers that differ are compared as numbers, all else as texts.
abbrev pub number_less : Option ℕ → Option ℕ → Bool → Bool
number_less none right rest = rest
number_less (some a) none rest = rest
number_less (some a) (some b) rest = if not (a == b) then ltb a b else rest

unfoldable pub column_value_less_for_display : Text → Text → Bool
column_value_less_for_display left right =
    if not (priority_rank left == priority_rank right)
    then ltb (priority_rank left) (priority_rank right)
    else number_less (parse_unsigned_integer left) (parse_unsigned_integer right)
        (text_less left right)
