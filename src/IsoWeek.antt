-- ===== src/IsoWeek.antt =====
-- ISO years and weeks: src/domain/SsaTypes.h (the filters' year-weeks, as numbers and as texts) and
-- src/domain/ActivityAnalyticsTypes.h and .cpp (the weeks and periods of the analytics). An int that
-- is negative is refused by every test here as 0 is, so years and weeks are natural numbers.
pub mod Agreement
pub mod Weeks
pub mod Compose
pub mod Samples
use ssa_consulta_rapidacpp.Prelude.{
  ℕ, ◌+◌, ◌-◌, ◌*◌, ◌/◌, ◌%◌, Bool, true, false, not, ◌&&◌, ◌||◌, [], ◌∷◌, Option, none, some, leb,
  ltb, ◌==◌, if◌then◌else◌, length, take, drop, all, is_empty,
}
use ssa_consulta_rapidacpp.Text.{Text, is_digit}
use ssa_consulta_rapidacpp.Number.{from_digits}
use ssa_consulta_rapidacpp.Calendar.{is_leap, day_number, iso_weekday, CivilDate, civil_date}

infixl 5 ◌>>=◌
abbrev pub ◌>>=◌ {ℓ κ} : {A : Type ℓ} {B : Type κ} → Option A → (A → Option B) → Option B
none >>= f = none
some a >>= f = f a

unfoldable pub is_valid_filter_year : ℕ → Bool
is_valid_filter_year year = leb 1900 year && leb year 2999

unfoldable pub is_valid_iso_week : ℕ → Bool
is_valid_iso_week week = leb 1 week && leb week 53

unfoldable pub last_iso_week_of_year : ℕ → Option ℕ
last_iso_week_of_year year =
    if not (is_valid_filter_year year)
    then none
    else let first_weekday = iso_weekday (day_number year 1 1) in
      let has_week_53 = first_weekday == 4 || is_leap year && first_weekday == 3 in
      some (if has_week_53 then 53 else 53 - 1)

unfoldable pub is_valid_iso_year_week : ℕ → ℕ → Bool
is_valid_iso_year_week year week = elim (last_iso_week_of_year year) [
  | none ↦ false
  | some last ↦ leb 1 week && leb week last
]

-- parseDecimalDigits: digits only, and a value that int holds.
unfoldable pub in_int_range : Option ℕ → Option ℕ
in_int_range none = none
in_int_range (some n) = if leb n 2147483647 then some n else none

unfoldable pub parse_decimal_digits : Text → Option ℕ
parse_decimal_digits value =
    if is_empty value || not (all is_digit value) then none else in_int_range (from_digits value)

unfoldable pub parse_filter_year : Text → Option ℕ
parse_filter_year value = if not (length value == 4) then none else (do
  year ← parse_decimal_digits value
  if is_valid_filter_year year then some year else none)

unfoldable pub parse_iso_week : Text → Option ℕ
parse_iso_week value =
    if is_empty value || leb 3 (length value)
    then none
    else (do week ← parse_decimal_digits value; if is_valid_iso_week week then some week else none)

unfoldable pub compose_iso_year_week : ℕ → ℕ → Option ℕ
compose_iso_year_week year week =
    if not (is_valid_iso_year_week year week) then none else some (year * 100 + week)

-- isValidIsoYearWeek(std::int64_t)
unfoldable pub is_valid_composed : ℕ → Bool
is_valid_composed value = elim (compose_iso_year_week (value / 100) (value % 100)) [
  | none ↦ false
  | some composed ↦ composed == value
]

unfoldable pub parse_iso_year_week : Text → Option ℕ
parse_iso_year_week value = if not (length value == 6) then none else (do
  year ← parse_filter_year (take 4 value)
  week ← parse_iso_week (take 2 (drop 4 value))
  compose_iso_year_week year week)

pub record IsoWeek : Type 0 where
  pub year : ℕ
  pub week : ℕ

-- The defaulted comparison: by year, then by week.
abbrev pub iso_le : IsoWeek → IsoWeek → Bool
iso_le a b = ltb a.year b.year || a.year == b.year && leb a.week b.week

abbrev pub iso_eq : IsoWeek → IsoWeek → Bool
iso_eq a b = a.year == b.year && a.week == b.week

pub record AnalyticsPeriod : Type 0 where
  pub first : IsoWeek
  pub last : IsoWeek

-- The Monday of the week of January 4th.
unfoldable pub first_monday : ℕ → ℕ
first_monday year =
    let january_fourth = day_number year 1 4 in january_fourth - (iso_weekday january_fourth - 1)

unfoldable pub iso_thursday : IsoWeek → Option ℕ
iso_thursday value =
    if ltb value.year 1900 || ltb 2999 value.year || ltb value.week 1 || ltb 53 value.week
    then none
    else let thursday = first_monday value.year + 7 * (value.week - 1) + 3 in
      let date = civil_date thursday in
      if not (date.year == value.year) then none else some thursday

-- isValidIsoWeek(IsoWeek)
unfoldable pub is_valid_week : IsoWeek → Bool
is_valid_week value = elim (iso_thursday value) [ none ↦ false | some _ ↦ true ]

unfoldable pub iso_week_for_thursday : ℕ → IsoWeek
iso_week_for_thursday thursday =
    let iso_year : ℕ = (civil_date thursday).year in
    let elapsed_days = thursday - first_monday iso_year in
    record { year = iso_year; week = elapsed_days / 7 + 1 }

unfoldable pub iso_week_for_day : ℕ → IsoWeek
iso_week_for_day value = iso_week_for_thursday (value + 4 - iso_weekday value)

unfoldable pub next_iso_week : IsoWeek → IsoWeek
next_iso_week value =
    let same_year : IsoWeek = record { year = value.year; week = value.week + 1 } in
    if is_valid_week same_year then same_year else record { year = value.year + 1; week = 1 }

pub record IsoReferenceMonth : Type 0 where
  pub year : ℕ
  pub month : ℕ

unfoldable pub iso_reference_month_parts : IsoWeek → Option IsoReferenceMonth
iso_reference_month_parts value = do
  thursday ← iso_thursday value
  some (record { year = (civil_date thursday).year; month = (civil_date thursday).month })

unfoldable pub is_valid_period : AnalyticsPeriod → Bool
is_valid_period period =
    if not (is_valid_week period.first) || not (is_valid_week period.last)
    then false
    else iso_le period.first period.last
