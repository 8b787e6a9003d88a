-- ===== src/DisplayOrder/Samples.antt =====
-- Values in display order, the theorems at these values, and a cycle of three mixed values.
use ssa_consulta_rapidacpp.Prelude.{◌≡◌, refl, true, false, none}
use ssa_consulta_rapidacpp.Text.{codes, text_eq, text_lt}
use ssa_consulta_rapidacpp.DisplayOrder.{
  column_value_less_for_display, parse_unsigned_integer, ascii_upper, matches_code_segment,
  parse_digits, priority_rank, rank_from, text_less, uppercase_ascii_copy,
}
use ssa_consulta_rapidacpp.DisplayOrder.Laws.{column_value_less_for_display_asym}

two_before_ten : column_value_less_for_display (codes "2") (codes "10") ≡ true
unfolding column_value_less_for_display priority_rank rank_from matches_code_segment ascii_upper
    parse_unsigned_integer parse_digits
two_before_ten = refl

ten_before_mixed : column_value_less_for_display (codes "10") (codes "1a") ≡ true
unfolding column_value_less_for_display priority_rank rank_from matches_code_segment ascii_upper
    parse_unsigned_integer parse_digits text_less text_eq uppercase_ascii_copy text_lt
ten_before_mixed = refl

mixed_before_two : column_value_less_for_display (codes "1a") (codes "2") ≡ true
unfolding column_value_less_for_display priority_rank rank_from matches_code_segment ascii_upper
    parse_unsigned_integer parse_digits text_less text_eq uppercase_ascii_copy text_lt
mixed_before_two = refl

column_value_less_for_display_asym_example :
    column_value_less_for_display (codes "10") (codes "2") ≡ false
column_value_less_for_display_asym_example =
    column_value_less_for_display_asym (codes "2") (codes "10") two_before_ten

no_number_a : parse_unsigned_integer (codes "IEE3") ≡ none
unfolding parse_unsigned_integer parse_digits
no_number_a = refl

no_number_b : parse_unsigned_integer (codes "IEE1") ≡ none
unfolding parse_unsigned_integer parse_digits
no_number_b = refl

no_number_c : parse_unsigned_integer (codes "aad") ≡ none
unfolding parse_unsigned_integer parse_digits
no_number_c = refl

first_unit : column_value_less_for_display (codes "IEE3") (codes "IEE1") ≡ true
unfolding column_value_less_for_display priority_rank rank_from matches_code_segment ascii_upper
first_unit = refl

second_unit : column_value_less_for_display (codes "IEE1") (codes "aad") ≡ true
unfolding column_value_less_for_display priority_rank rank_from matches_code_segment ascii_upper
second_unit = refl
