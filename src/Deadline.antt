-- ===== src/Deadline.antt =====
-- The classes of the analytics: registrationCohort, classifyDeadline, normalizedDeadlineState and
-- equalsAsciiCaseInsensitive of src/domain/ActivityAnalyticsTypes.cpp.
mod Samples
use ssa_consulta_rapidacpp.Prelude.{
  ℕ, ◌+◌, ◌-◌, ◌*◌, ◌<◌, ◌≡◌, refl, Bool, true, false, not, ◌&&◌, ◌||◌, List, [], ◌∷◌, Option, none,
  some, arith, if◌then◌else◌, ltb, leb, ◌==◌,
}
use ssa_consulta_rapidacpp.Prelude.Int.{ℤ, pos, negsuc, below, at_least}
use ssa_consulta_rapidacpp.Text.{Text, codes}
use ssa_consulta_rapidacpp.IsoWeek.{
  AnalyticsPeriod, IsoWeek, iso_le, is_valid_period, is_valid_week, iso_thursday,
}

pub data RegistrationCohort : Type 0 where
  registered_in_period : RegistrationCohort
  registered_before_period : RegistrationCohort
  registration_unknown : RegistrationCohort

pub data DeadlineClass : Type 0 where
  on_time : DeadlineClass
  warning : DeadlineClass
  overdue : DeadlineClass
  not_applicable_or_unknown : DeadlineClass

unfoldable pub registration_cohort : Option ℤ → AnalyticsPeriod → RegistrationCohort
registration_cohort none period = registration_unknown
registration_cohort (some year_week) period =
    let first = period.first.year * 100 + period.first.week in
    let last = period.last.year * 100 + period.last.week in
    if not (is_valid_period period)
    then registration_unknown
    else if below first year_week
    then registered_before_period
    else if not (at_least (last + 1) year_week)
    then registered_in_period
    else registration_unknown

abbrev int_le : ℤ → ℤ → Bool
int_le (pos a) (pos b) = leb a b
int_le (pos a) (negsuc b) = false
int_le (negsuc a) (pos b) = true
int_le (negsuc a) (negsuc b) = leb b a

-- The loops of normalizedDeadlineState: spaces only, no other white space.
unfoldable pub drop_front_spaces : Text → Text
drop_front_spaces [] = []
drop_front_spaces (c ∷ s) = let rest = drop_front_spaces s in if c == b' ' then rest else c ∷ s

abbrev keep_unless_last : ℕ → Text → Text
keep_unless_last c [] = if c == b' ' then [] else c ∷ []
keep_unless_last c (d ∷ s) = c ∷ d ∷ s

unfoldable pub drop_back_spaces : Text → Text
drop_back_spaces [] = []
drop_back_spaces (c ∷ s) = keep_unless_last c (drop_back_spaces s)

unfoldable pub normalized_deadline_state : Text → Text
normalized_deadline_state value = drop_back_spaces (drop_front_spaces value)

unfoldable pub equals_ascii_case_insensitive : Text → Text → Bool
equals_ascii_case_insensitive [] [] = true
equals_ascii_case_insensitive [] (d ∷ right) = false
equals_ascii_case_insensitive (c ∷ left) [] = false
equals_ascii_case_insensitive (c ∷ left) (d ∷ right) =
    (if leb b'a' c && leb c b'z' then c - 32 else c) == d
    && equals_ascii_case_insensitive left right

abbrev classify_offset : Option ℤ → ℤ → DeadlineClass
classify_offset none window = not_applicable_or_unknown
classify_offset (some offset) window =
    if below 0 window || at_least 366 window
    then not_applicable_or_unknown
    else if below 0 offset
    then overdue
    else if int_le offset window
    then warning
    else on_time

unfoldable pub classify_deadline : Text → Option ℤ → ℤ → DeadlineClass
classify_deadline source_state deadline_offset_days warning_window_days =
    let state = normalized_deadline_state source_state in
    if equals_ascii_case_insensitive state (codes "FORA DE PRAZO")
    then overdue
    else if equals_ascii_case_insensitive state (codes "NAO SE APLICA")
    then not_applicable_or_unknown
    else classify_offset deadline_offset_days warning_window_days

iso_thursday-week : (v : IsoWeek) → is_valid_week v ≡ true → v.week < 100
unfolding is_valid_week iso_thursday
iso_thursday-week v h = ground arith

abbrev pub cohort_of : IsoWeek → AnalyticsPeriod → RegistrationCohort
cohort_of v period =
    if not (iso_le period.first v)
    then registered_before_period
    else if iso_le v period.last
    then registered_in_period
    else registration_unknown

-- In a valid period the cohort of a year-week that is written as 100 * year + week, for weeks below
-- 100, is that of its place in the order of the weeks: before the first week, in the period with both
-- ends, or unknown after it.
pub registration_cohort_lem :
    (period : AnalyticsPeriod) (v : IsoWeek)
    → is_valid_period period ≡ true
    → v.week < 100
    → registration_cohort (some (pos (v.year * 100 + v.week))) period ≡ cohort_of v period
unfolding registration_cohort is_valid_period
registration_cohort_lem period v h lt =
    ground (arith, iso_thursday-week period.first, iso_thursday-week period.last)
