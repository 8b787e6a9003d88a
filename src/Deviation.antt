-- ===== src/Deviation.antt =====
-- The count of deviations of an imported row: normalizeDeviationCount of
-- src/domain/SsaImportPolicy.cpp.
mod Samples
use ssa_consulta_rapidacpp.Prelude.{
  ℕ, ◌≡◌, refl, ap, ◌∙◌, Bool, true, false, not, ◌&&◌, ◌||◌, List, [], ◌∷◌, arith, if◌then◌else◌,
  ◌==◌, is_empty, all,
}
use ssa_consulta_rapidacpp.Text.{Text, codes, is_digit, is_space, to_lower, text_eq, starts_with}
use ssa_consulta_rapidacpp.Text.Trim.{trim, trim_left, trim-eq_self, IsTrimmed, head_ok, last_ok}
use ssa_consulta_rapidacpp.Text.Case.{lowercase}

-- The bytes before the first `.` or `,`, and the bytes from it on.
abbrev is_separator : ℕ → Bool
is_separator c = c == b'.' || c == b','

unfoldable pub before_separator : Text → Text
before_separator [] = []
before_separator (c ∷ s) = let rest = before_separator s in if is_separator c then [] else c ∷ rest

unfoldable pub from_separator : Text → Text
from_separator [] = []
from_separator (c ∷ s) = let rest = from_separator s in if is_separator c then c ∷ s else rest

abbrev digits_only : Text → Bool
digits_only text = not (is_empty text) && all is_digit text

abbrev literal_of : Text → Text → Text
literal_of whole [] = if digits_only whole then whole else []
literal_of whole (c ∷ zeros) =
    if digits_only whole && digits_only zeros && all (λ d. d == b'0') zeros then whole else []

unfoldable pub integer_literal : Text → Text
integer_literal candidate = literal_of (before_separator candidate) (from_separator candidate)

unfoldable pub drop_bytes : List ℕ → Text → Text
drop_bytes [] s = s
drop_bytes (p ∷ prefix) [] = []
drop_bytes (p ∷ prefix) (c ∷ s) = drop_bytes prefix s

abbrev drop_mark : Text → Text
drop_mark [] = []
drop_mark (c ∷ s) = if c == b'#' || c == b':' || c == b'-' then trim_left s else c ∷ s

-- The literal behind `desvio` or `desvios`.
unfoldable pub deviation_suffix : Text → Text
deviation_suffix normalized = integer_literal (
    drop_mark (
      trim_left (
        drop_bytes
          (if starts_with (codes "desvios") normalized then codes "desvios" else codes "desvio")
          normalized)))

unfoldable pub is_no_deviation : Text → Bool
is_no_deviation s =
    text_eq s (codes "sem desvio")
    || text_eq s (codes "sem desvios")
    || text_eq s (codes "nenhum")
    || text_eq s (codes "nao")
    || text_eq s (codes "0 sem desvio")
    || text_eq s (codes "0 - sem desvio")
    || text_eq s (codes "sem desvio (0)")

abbrev or_text : Text → Text → Text
or_text [] other = other
or_text (c ∷ s) other = c ∷ s

unfoldable pub normalize_deviation_count : Text → Text
normalize_deviation_count value =
    let normalized = lowercase (trim value) in
    let suffix =
      if starts_with (codes "desvio") normalized || starts_with (codes "desvios") normalized
      then deviation_suffix normalized
      else [] in
    or_text (integer_literal normalized)
      (or_text suffix (if is_no_deviation normalized then b'0' ∷ [] else []))

digits-literal_of : (whole rest : Text) → all is_digit (literal_of whole rest) ≡ true
digits-literal_of whole [] = ground arith
digits-literal_of whole (c ∷ zeros) = ground arith

digits-integer_literal : (s : Text) → all is_digit (integer_literal s) ≡ true
unfolding integer_literal
digits-integer_literal s = digits-literal_of (before_separator s) (from_separator s)

digits-or_text :
    (s t : Text) → all is_digit s ≡ true → all is_digit t ≡ true → all is_digit (or_text s t) ≡ true
digits-or_text [] t h k = k
digits-or_text (c ∷ s) t h k = h

digits-suffix : (b : Bool) (s : Text) → all is_digit (if b then deviation_suffix s else []) ≡ true
unfolding deviation_suffix
digits-suffix true s = digits-integer_literal _
digits-suffix false s = refl

digits-zero : (b : Bool) → all is_digit (if b then b'0' ∷ [] else []) ≡ true
unfolding is_digit
digits-zero true = refl
digits-zero false = refl

digits-normalize : (value : Text) → all is_digit (normalize_deviation_count value) ≡ true
unfolding normalize_deviation_count
digits-normalize value =
    let s = lowercase (trim value) in
    digits-or_text (integer_literal s) _ (digits-integer_literal s)
      (digits-or_text _ _ (digits-suffix _ s) (digits-zero (is_no_deviation s)))

digit_lem :
    (c : ℕ) → is_digit c ≡ true → (is_space c ≡ false) × (to_lower c ≡ c) × (is_separator c ≡ false)
unfolding is_digit is_space to_lower
digit_lem c h = (ground arith, ground arith, ground arith)

digits_last : (s : Text) → all is_digit s ≡ true → last_ok s ≡ true
digits_last [] h = refl
digits_last (c ∷ []) h = ground (arith, digit_lem c)
digits_last (c ∷ d ∷ s) h = digits_last (d ∷ s) (ground arith)

digits_head : (s : Text) → all is_digit s ≡ true → head_ok s ≡ true
digits_head [] h = refl
digits_head (c ∷ s) h = ground (arith, digit_lem c)

digits_same :
    (s : Text)
    → all is_digit s ≡ true
    → (lowercase s ≡ s) × (before_separator s ≡ s) × (from_separator s ≡ [])
unfolding lowercase before_separator from_separator
digits_same [] h = (refl, refl, refl)
digits_same (c ∷ s) h =
    let (low, before, after) = digits_same s (ground arith) in
    let (space, lower, sep) = digit_lem c (ground arith) in
    rw (lower, sep, low, before, after) (refl, refl, refl)

normalize-nil : normalize_deviation_count [] ≡ []
unfolding normalize_deviation_count integer_literal from_separator lowercase trim before_separator
    starts_with is_no_deviation text_eq
normalize-nil = refl

normalize-digits : (s : Text) → all is_digit s ≡ true → normalize_deviation_count s ≡ s
unfolding normalize_deviation_count integer_literal
normalize-digits [] h = normalize-nil
normalize-digits (c ∷ s) h =
    let (low, before, after) = digits_same (c ∷ s) h in
    rw (trim-eq_self (c ∷ s) (digits_head (c ∷ s) h, digits_last (c ∷ s) h), low, before, after, h)
      refl

-- A normalized count is empty or consists of digits, and normalizing it again leaves it as it is.
pub normalize_deviation_count_lem :
    (value : Text)
    → (all is_digit (normalize_deviation_count value) ≡ true)
      × (normalize_deviation_count (normalize_deviation_count value)
          ≡ normalize_deviation_count value)
normalize_deviation_count_lem value = (
  digits-normalize value,
  normalize-digits (normalize_deviation_count value) (digits-normalize value),
)
