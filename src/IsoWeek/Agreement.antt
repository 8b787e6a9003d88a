-- ===== src/IsoWeek/Agreement.antt =====
-- Two calendars that the code computes independently, the weekday of January 1st in SsaTypes.h and
-- the Thursday of the week in ActivityAnalyticsTypes.cpp, agree on which weeks there are.
use ssa_consulta_rapidacpp.Prelude.{
  ℕ, ◌+◌, ◌-◌, ◌<◌, ◌≡◌, refl, sym, ◌∙◌, Bool, true, false, ◌&&◌, arith, Bool-cases, inl, inr, ltb,
  holds_below, holds_below-elim, subst, leb,
}
use ssa_consulta_rapidacpp.IsoWeek.{
  is_valid_iso_year_week, is_valid_week, last_iso_week_of_year, is_valid_filter_year, iso_thursday,
  first_monday, IsoWeek,
}
use ssa_consulta_rapidacpp.Calendar.{day_number, iso_weekday, civil_date, is_leap}

abbrev pub week_of : ℕ → ℕ → IsoWeek
week_of y w = record { year = y; week = w }

abbrev same : Bool → Bool → Bool
same true b = b
same false true = false
same false false = true

same→eq : (a b : Bool) → same a b ≡ true → a ≡ b
same→eq a b h = ground arith

abbrev agrees : ℕ → ℕ → Bool
agrees k w = same (is_valid_iso_year_week (1900 + k) w) (is_valid_week (week_of (1900 + k) w))

-- Checked by evaluation for every week 0 to 53 of every year 1900 to 2999.
agrees_table : holds_below (λ k. holds_below (agrees k) 54) 1100 ≡ true
unfolding holds_below is_valid_iso_year_week is_valid_week last_iso_week_of_year iso_thursday
    day_number iso_weekday civil_date is_leap first_monday is_valid_filter_year
agrees_table = refl

agrees_in_range :
    (k w : ℕ)
    → k < 1100
    → w < 54
    → is_valid_iso_year_week (1900 + k) w ≡ is_valid_week (week_of (1900 + k) w)
agrees_in_range k w h l = same→eq _ _ (
    holds_below-elim (agrees k) 54
      (holds_below-elim (λ k. holds_below (agrees k) 54) 1100 agrees_table k h) w l)

in_range : ℕ → ℕ → Bool
in_range y w = leb 1900 y && leb y 2999 && ltb w 54

week_outside : (y w : ℕ) → in_range y w ≡ false → is_valid_week (week_of y w) ≡ false
unfolding in_range is_valid_week iso_thursday
week_outside y w h = ground arith

year_week_outside : (y w : ℕ) → in_range y w ≡ false → is_valid_iso_year_week y w ≡ false
unfolding in_range is_valid_iso_year_week last_iso_week_of_year is_valid_filter_year
year_week_outside y w h = ground arith

year_offset : (y w : ℕ) → in_range y w ≡ true → (k : ℕ) × (k < 1100) × (w < 54) × (1900 + k ≡ y)
unfolding in_range
year_offset y w h = (y - 1900, ground arith, ground arith, ground arith)

-- The weeks that the filters accept for a year are exactly the weeks that the analytics accept, for
-- every year and every week number.
pub is_valid_iso_year_week-is_valid_week :
    (y w : ℕ) → is_valid_iso_year_week y w ≡ is_valid_week (week_of y w)
is_valid_iso_year_week-is_valid_week y w = elim (Bool-cases (in_range y w)) [
  | inl inside ↦
      let (k, small, week, e) = year_offset y w inside in
      subst (λ n. is_valid_iso_year_week n w ≡ is_valid_week (week_of n w)) e
        (agrees_in_range k w small week)
  | inr outside ↦ year_week_outside y w outside ∙ sym (week_outside y w outside)
]
