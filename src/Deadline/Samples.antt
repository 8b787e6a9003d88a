-- ===== src/Deadline/Samples.antt =====
-- A period across the end of a year, and the theorem about the cohorts there.
use ssa_consulta_rapidacpp.Prelude.{◌≡◌, refl, true, some, none}
use ssa_consulta_rapidacpp.Prelude.Int.{pos}
use ssa_consulta_rapidacpp.Text.{codes}
use ssa_consulta_rapidacpp.IsoWeek.{
  AnalyticsPeriod, IsoWeek, is_valid_period, first_monday, is_valid_week, iso_thursday,
}
use ssa_consulta_rapidacpp.Deadline.{
  DeadlineClass, classify_deadline, drop_back_spaces, drop_front_spaces,
  equals_ascii_case_insensitive, normalized_deadline_state,
}
use ssa_consulta_rapidacpp.Calendar.{civil_date, day_number, iso_weekday}

abbrev winter : AnalyticsPeriod
winter = record {
  first = record { year = 2026; week = 50 };
  last = record { year = 2027; week = 3 };
}

abbrev last_week : IsoWeek
last_week = record { year = 2026; week = 53 }

winter_valid : is_valid_period winter ≡ true
unfolding is_valid_period is_valid_week iso_thursday civil_date first_monday day_number iso_weekday
winter_valid = refl

late : classify_deadline (codes " fora de prazo ") none (pos 7) ≡ DeadlineClass.overdue
unfolding classify_deadline equals_ascii_case_insensitive normalized_deadline_state drop_back_spaces
    drop_front_spaces
late = refl

soon : classify_deadline (codes "NO PRAZO") (some (pos 7)) (pos 7) ≡ DeadlineClass.warning
unfolding classify_deadline equals_ascii_case_insensitive normalized_deadline_state drop_back_spaces
    drop_front_spaces
soon = refl
