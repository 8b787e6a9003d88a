-- ===== src/IsoWeek/Weeks.antt =====
-- The weeks of the analytics as seven-day steps of the calendar.
use ssa_consulta_rapidacpp.Prelude.{
  ℕ, ◌+◌, ◌-◌, ◌*◌, ◌/◌, ◌%◌, ◌<◌, ◌≤◌, ◌≡◌, refl, sym, ap, ◌∙◌, Bool, true, false, ◌&&◌, arith,
  leb, ◌==◌, holds_below, holds_below-elim, subst, ◌||◌, Option, some, none, if◌then◌else◌,
}
use ssa_consulta_rapidacpp.IsoWeek.{
  is_valid_filter_year, last_iso_week_of_year, is_valid_iso_year_week, is_valid_week, iso_thursday,
  first_monday, IsoWeek, iso_week_for_thursday, iso_week_for_day, next_iso_week,
}
use ssa_consulta_rapidacpp.IsoWeek.Agreement.{week_of, is_valid_iso_year_week-is_valid_week}
use ssa_consulta_rapidacpp.Calendar.{day_number, iso_weekday, civil_date, is_leap}

abbrev is_at : Option ℕ → ℕ → Bool
is_at none d = false
is_at (some t) d = t == d

is_at→eq : (o : Option ℕ) (d : ℕ) → is_at o d ≡ true → o ≡ some d
is_at→eq none d h = cc
is_at→eq (some t) d h = ground arith

-- The Thursdays from 1900-01-04, which is day 693598, to 2999-12-26.
abbrev thursday : ℕ → ℕ
thursday k = 693598 + 7 * k

abbrev thursday_back : ℕ → Bool
thursday_back k = is_at (iso_thursday (iso_week_for_thursday (thursday k))) (thursday k)

thursday_table : holds_below thursday_back 57395 ≡ true
unfolding holds_below iso_thursday iso_week_for_thursday day_number iso_weekday civil_date is_leap
    first_monday
thursday_table = refl

abbrev pub first_day : ℕ
first_day = 693595

abbrev pub last_day_in_range : ℕ
last_day_in_range = 1095359

-- The days from Monday 1900-01-01 to Sunday 2999-12-29.
range_of_days : (first_day ≡ day_number 1900 1 1) × (last_day_in_range ≡ day_number 2999 12 29)
unfolding day_number is_leap
range_of_days = (refl, refl)

-- Every day from 1900-01-01 to 2999-12-29 lies in a week of the analytics, and the Thursday of that
-- week is the Thursday between the Monday and the Sunday around the day.
pub iso_thursday-iso_week_for_day :
    (d : ℕ)
    → first_day ≤ d
    → d ≤ last_day_in_range
    → iso_thursday (iso_week_for_day d) ≡ some (d - d % 7 + 3)
unfolding iso_week_for_day iso_weekday
iso_thursday-iso_week_for_day d lo hi =
    let k : ℕ = d / 7 - 99085 in
    let e : d + 4 - (d % 7 + 1) ≡ thursday k = omega arith in
    let f : thursday k ≡ d - d % 7 + 3 = omega arith in
    rw e (
      is_at→eq _ _ (holds_below-elim thursday_back 57395 thursday_table k (omega arith))
      ∙ ap some f)

-- A valid week's Thursday, by the Monday of the year's first week.
iso_thursday-inv :
    (y w t : ℕ)
    → iso_thursday (week_of y w) ≡ some t
    → (1900 ≤ y)
      × (y ≤ 2999)
      × (1 ≤ w)
      × (t ≡ first_monday y + 7 * (w - 1) + 3)
      × ((civil_date t).year ≡ y)
unfolding iso_thursday
iso_thursday-inv y w t h = ground arith

-- A valid week is the week of its own Thursday.
pub iso_week_for_thursday-iso_thursday :
    (y w t : ℕ) → iso_thursday (week_of y w) ≡ some t → iso_week_for_thursday t ≡ week_of y w
unfolding iso_week_for_thursday
iso_week_for_thursday-iso_thursday y w t h =
    let (lo, hi, one, e, f) = iso_thursday-inv y w t h in rw f (ap (week_of y) (omega arith))

abbrev year_step : Option ℕ → ℕ → Bool
year_step none y = false
year_step (some last) y =
    is_at (iso_thursday (week_of (y + 1) 1)) (first_monday y + 7 * (last - 1) + 10)

-- The year's last week is seven days before the first of the next year.
abbrev year_ends : ℕ → Bool
year_ends k = year_step (last_iso_week_of_year (1900 + k)) (1900 + k)

year_ends_table : holds_below year_ends 1099 ≡ true
unfolding holds_below last_iso_week_of_year is_valid_filter_year iso_thursday day_number iso_weekday
    civil_date is_leap first_monday
year_ends_table = refl

is_valid_week-some : (v : IsoWeek) (t : ℕ) → iso_thursday v ≡ some t → is_valid_week v ≡ true
unfolding is_valid_week
is_valid_week-some v t h = rw (h, is_valid_week) refl

valid_bounds :
    (y w last : ℕ)
    → last_iso_week_of_year y ≡ some last
    → is_valid_iso_year_week y w ≡ (leb 1 w && leb w last)
unfolding is_valid_iso_year_week
valid_bounds y w last l = rw (l, is_valid_iso_year_week) refl

-- A valid week behind which no week of the same year is valid is the year's last.
last_of_year :
    (y w t last : ℕ)
    → iso_thursday (week_of y w) ≡ some t
    → last_iso_week_of_year y ≡ some last
    → is_valid_week (week_of y (w + 1)) ≡ false
    → w ≡ last
last_of_year y w t last h l n =
    let now : (leb 1 w && leb w last) ≡ true =
      sym (valid_bounds y w last l)
      ∙ (is_valid_iso_year_week-is_valid_week y w ∙ is_valid_week-some (week_of y w) t h) in
    let after : (leb 1 (w + 1) && leb (w + 1) last) ≡ false =
      sym (valid_bounds y (w + 1) last l) ∙ (is_valid_iso_year_week-is_valid_week y (w + 1) ∙ n) in
    ground arith

some_last : (y : ℕ) → 1900 ≤ y → y ≤ 2999 → (last : ℕ) × (last_iso_week_of_year y ≡ some last)
unfolding last_iso_week_of_year is_valid_filter_year
some_last y lo hi =
    let first_weekday = iso_weekday (day_number y 1 1) in
    (if first_weekday == 4 || is_leap y && first_weekday == 3 then 53 else 53 - 1, ground arith)

year_step_of :
    (y last : ℕ)
    → 1900 ≤ y
    → y < 2999
    → last_iso_week_of_year y ≡ some last
    → iso_thursday (week_of (y + 1) 1) ≡ some (first_monday y + 7 * (last - 1) + 10)
year_step_of y last lo hi l =
    let e : 1900 + (y - 1900) ≡ y = omega arith in
    let step = holds_below-elim year_ends 1099 year_ends_table (y - 1900) (omega arith) in
    let moved : year_step (last_iso_week_of_year y) y ≡ true =
      subst (λ n. year_step (last_iso_week_of_year n) n ≡ true) e step in
    is_at→eq _ _ (rw l at moved)

valid_thursday :
    (y w : ℕ)
    → is_valid_week (week_of y w) ≡ true
    → iso_thursday (week_of y w) ≡ some (first_monday y + 7 * (w - 1) + 3)
unfolding is_valid_week iso_thursday
valid_thursday y w h = ground arith

next_at :
    (y w t : ℕ) (again : Bool)
    → iso_thursday (week_of y w) ≡ some t
    → y < 2999
    → is_valid_week (week_of y (w + 1)) ≡ again
    → iso_thursday (if again then week_of y (w + 1) else week_of (y + 1) 1) ≡ some (t + 7)
next_at y w t true h lt v =
    let (lo, hi, one, e, f) = iso_thursday-inv y w t h in
    valid_thursday y (w + 1) v ∙ ap some (omega arith)
next_at y w t false h lt v =
    let (lo, hi, one, e, f) = iso_thursday-inv y w t h in
    let (last, l) = some_last y lo hi in
    let same : w ≡ last = last_of_year y w t last h l v in
    year_step_of y last lo lt l ∙ ap some (omega arith)

-- The week after a valid week of a year before 2999 is the week whose Thursday is seven days later,
-- also across the end of a year.
pub iso_thursday-next_iso_week :
    (y w t : ℕ)
    → iso_thursday (week_of y w) ≡ some t
    → y < 2999
    → iso_thursday (next_iso_week (week_of y w)) ≡ some (t + 7)
unfolding next_iso_week
iso_thursday-next_iso_week y w t h lt = next_at y w t _ h lt refl
