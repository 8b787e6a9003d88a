-- ===== src/IsoWeek/Compose.antt =====
-- Year-weeks as one number, 100 * year + week, and as a text of six digits.
use ssa_consulta_rapidacpp.Prelude.{
  ℕ, ◌+◌, ◌*◌, ◌/◌, ◌%◌, ◌<◌, ◌≤◌, ◌≡◌, refl, subst, ap, ◌∙◌, true, ◌++◌, [], ◌∷◌, Option, some,
  none, arith, ◌==◌, length, Bool-cases, inl, inr,
}
use ssa_consulta_rapidacpp.Text.{Text}
use ssa_consulta_rapidacpp.Number.{from_digits, digit, pad2, pad4}
use ssa_consulta_rapidacpp.Number.Laws.{
  is_digit-digit, digits_from-digit, digits_from-nil, from_digits-digit,
}
use ssa_consulta_rapidacpp.IsoWeek.{
  is_valid_filter_year, is_valid_iso_week, last_iso_week_of_year, is_valid_iso_year_week,
  in_int_range, parse_decimal_digits, parse_filter_year, parse_iso_week, compose_iso_year_week,
  is_valid_composed, parse_iso_year_week, ◌>>=◌,
}

-- A valid year and week lie in the ranges that the single tests check.
valid_ranges :
    (y w : ℕ)
    → is_valid_iso_year_week y w ≡ true
    → (is_valid_filter_year y ≡ true) × (is_valid_iso_week w ≡ true)
unfolding is_valid_iso_year_week last_iso_week_of_year is_valid_iso_week
valid_ranges y w h = (ground arith, ground arith)

year_range : (y : ℕ) → is_valid_filter_year y ≡ true → (1900 ≤ y) × (y ≤ 2999)
unfolding is_valid_filter_year
year_range y h = (ground arith, ground arith)

week_range : (w : ℕ) → is_valid_iso_week w ≡ true → (1 ≤ w) × (w ≤ 53)
unfolding is_valid_iso_week
week_range w h = (ground arith, ground arith)

parse_decimal_digits-pad4 : (n : ℕ) → n < 10000 → parse_decimal_digits (pad4 n) ≡ some n
unfolding parse_decimal_digits in_int_range
parse_decimal_digits-pad4 n h =
    let e : from_digits (pad4 n) ≡ some n =
      from_digits-digit (n / 1000) (digit (n / 100) ∷ digit (n / 10) ∷ digit n ∷ [])
      ∙ simp (digits_from-digit, digits_from-nil) (ap some (omega arith)) in
    rw
      (
        is_digit-digit (n / 1000),
        is_digit-digit (n / 100),
        is_digit-digit (n / 10),
        is_digit-digit n,
        e,
      )
      (ground arith)

parse_decimal_digits-pad2 : (n : ℕ) → n < 100 → parse_decimal_digits (pad2 n) ≡ some n
unfolding parse_decimal_digits in_int_range
parse_decimal_digits-pad2 n h =
    let e : from_digits (pad2 n) ≡ some n =
      from_digits-digit (n / 10) (digit n ∷ [])
      ∙ simp (digits_from-digit, digits_from-nil) (ap some (omega arith)) in
    rw (is_digit-digit (n / 10), is_digit-digit n, e) (ground arith)

-- The six digits of a valid year and week are parsed to the number 100 * year + week.
pub parse_iso_year_week-digits :
    (y w : ℕ)
    → is_valid_iso_year_week y w ≡ true
    → parse_iso_year_week (pad4 y ++ pad2 w) ≡ some (y * 100 + w)
unfolding parse_iso_year_week parse_filter_year parse_iso_week compose_iso_year_week
parse_iso_year_week-digits y w h =
    let (year, week) = valid_ranges y w h in
    rw
      (
        parse_decimal_digits-pad4 y (omega (arith, year_range y year)),
        year,
        parse_decimal_digits-pad2 w (omega (arith, week_range w week)),
        week,
        h,
      )
      refl

-- The number test accepts 100 * year + week exactly when the pair is valid, for weeks below 100.
pub is_valid_composed-pair :
    (y w : ℕ) → w < 100 → is_valid_composed (y * 100 + w) ≡ is_valid_iso_year_week y w
unfolding is_valid_composed compose_iso_year_week
is_valid_composed-pair y w h =
    let q : (y * 100 + w) / 100 ≡ y = omega arith in
    let r : (y * 100 + w) % 100 ≡ w = omega arith in rw (q, r, is_valid_composed) (ground arith)

compose-is_valid_composed :
    (y w v : ℕ) → compose_iso_year_week y w ≡ some v → is_valid_composed v ≡ true
unfolding compose_iso_year_week
compose-is_valid_composed y w v h = elim (Bool-cases (is_valid_iso_year_week y w)) [
  | inl valid ↦
      let (year, week) = valid_ranges y w valid in
      let e : y * 100 + w ≡ v = ground arith in
      subst (λ n. is_valid_composed n ≡ true) e
        (is_valid_composed-pair y w (omega (arith, week_range w week)) ∙ valid)
  | inr invalid ↦ absurd (ground arith)
]

parts-is_valid_composed :
    (year week : Option ℕ) (v : ℕ)
    → (do y ← year; w ← week; compose_iso_year_week y w) ≡ some v
    → is_valid_composed v ≡ true
parts-is_valid_composed none week v h = cc
parts-is_valid_composed (some y) none v h = cc
parts-is_valid_composed (some y) (some w) v h = compose-is_valid_composed y w v h

-- A text that parses as a year-week has a value that the number test of the week ranges accepts.
pub parse_iso_year_week-is_valid_composed :
    (s : Text) (v : ℕ) → parse_iso_year_week s ≡ some v → is_valid_composed v ≡ true
unfolding parse_iso_year_week
parse_iso_year_week-is_valid_composed s v = elim (Bool-cases (length s == 6)) [
  | inl six ↦ rw six (parts-is_valid_composed _ _ v)
  | inr other ↦ rw other (λ h. cc)
]
