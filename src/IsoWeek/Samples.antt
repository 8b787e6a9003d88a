-- ===== src/IsoWeek/Samples.antt =====
-- The turn of the year 2026 to 2027, whose last week is week 53, and the theorems at these inputs.
use ssa_consulta_rapidacpp.Prelude.{◌≡◌, refl, true, some, arith, ◌+◌, ◌%◌, ◌-◌}
use ssa_consulta_rapidacpp.IsoWeek.{
  is_valid_iso_year_week, is_valid_week, iso_thursday, iso_week_for_day, iso_week_for_thursday,
  next_iso_week, first_monday, is_valid_filter_year, last_iso_week_of_year,
}
use ssa_consulta_rapidacpp.IsoWeek.Agreement.{is_valid_iso_year_week-is_valid_week, week_of}
use ssa_consulta_rapidacpp.IsoWeek.Weeks.{
  iso_thursday-iso_week_for_day, iso_week_for_thursday-iso_thursday, iso_thursday-next_iso_week,
}
use ssa_consulta_rapidacpp.Calendar.{civil_date, day_number, iso_weekday}

is_valid_iso_year_week-is_valid_week_example :
    is_valid_iso_year_week 2026 53 ≡ is_valid_week (week_of 2026 53)
is_valid_iso_year_week-is_valid_week_example = is_valid_iso_year_week-is_valid_week 2026 53

-- Friday 2027-01-01.
iso_thursday-iso_week_for_day_example :
    iso_thursday (iso_week_for_day 739982) ≡ some (739982 - 739982 % 7 + 3)
iso_thursday-iso_week_for_day_example =
    iso_thursday-iso_week_for_day 739982 (omega arith) (omega arith)

last_thursday : iso_thursday (week_of 2026 53) ≡ some 739980
unfolding iso_thursday civil_date first_monday day_number iso_weekday
last_thursday = refl

iso_week_for_thursday-iso_thursday_example : iso_week_for_thursday 739980 ≡ week_of 2026 53
iso_week_for_thursday-iso_thursday_example =
    iso_week_for_thursday-iso_thursday 2026 53 739980 last_thursday

iso_thursday-next_iso_week_example :
    iso_thursday (next_iso_week (week_of 2026 53)) ≡ some (739980 + 7)
iso_thursday-next_iso_week_example =
    iso_thursday-next_iso_week 2026 53 739980 last_thursday (omega arith)

long_year : is_valid_iso_year_week 2026 53 ≡ true
unfolding is_valid_iso_year_week last_iso_week_of_year is_valid_filter_year iso_weekday day_number
long_year = refl
