-- ===== src/Timestamp/Filename.antt =====
-- filenameTimestampAt, filenameTimestamp and normalizeFilenameTimestamp of
-- src/domain/SsaImportPolicy.cpp: the time that the name of an exported file carries.
pub mod Validity
use ssa_consulta_rapidacpp.Prelude.{
  ℕ, ◌+◌, ◌%◌, Bool, true, false, ◌&&◌, ◌||◌, [], ◌∷◌, Option, none, some, leb, ◌==◌, length, not,
  if◌then◌else◌,
}
use ssa_consulta_rapidacpp.Prelude.Int.{ℤ, pos, negsuc, at_least, eq_ℤ}
use ssa_consulta_rapidacpp.Text.{Text, codes, is_digit, text_eq}
use ssa_consulta_rapidacpp.Text.Case.{uppercase}
use ssa_consulta_rapidacpp.Number.{parse_part}
use ssa_consulta_rapidacpp.Timestamp.{
  SnapshotTimestamp, checked, at, substr, or_else, ◌>>=◌, format_or_empty, timestamp_key,
}

abbrev hour_mod_12 : ℤ → ℤ
hour_mod_12 (pos h) = pos (h % 12)
hour_mod_12 (negsuc h) = negsuc h

abbrev plus_12 : ℤ → ℤ
plus_12 (pos h) = pos (h + 12)
plus_12 (negsuc h) = negsuc h

abbrev at_most_12 : ℤ → Bool
at_most_12 (pos h) = leb h 12
at_most_12 (negsuc h) = true

-- applyMeridiem: `none` where the code answers false. The hour is from 1 to 12 where it is changed.
unfoldable pub apply_meridiem : SnapshotTimestamp → Text → Option SnapshotTimestamp
apply_meridiem t raw_marker =
    let marker = uppercase raw_marker in
    let is_am = text_eq marker (codes "AM") in
    let is_pm = text_eq marker (codes "PM") in
    if not is_am && not is_pm || (not (at_least 1 t.hour) || not (at_most_12 t.hour))
    then none
    else if is_am
    then some (record t { hour = hour_mod_12 t.hour })
    else if not (eq_ℤ t.hour (pos 12))
    then some (record t { hour = plus_12 t.hour })
    else some t

pub record FilenameTimestampFields : Type 0 where
  pub year_offset : ℕ
  pub month_offset : ℕ
  pub day_offset : ℕ
  pub hour_offset : ℕ
  pub hour_length : ℕ
  pub minute_offset : ℕ

-- The lambda parseTimestamp.
unfoldable pub parse_timestamp : Text → FilenameTimestampFields → Option SnapshotTimestamp
parse_timestamp text f = do
  year ← parse_part (substr text f.year_offset 4)
  month ← parse_part (substr text f.month_offset 2)
  day ← parse_part (substr text f.day_offset 2)
  hour ← parse_part (substr text f.hour_offset f.hour_length)
  minute ← parse_part (substr text f.minute_offset 2)
  checked (record {
    year = year;
    month = month;
    day = day;
    hour = hour;
    minute = minute;
    second = pos 0;
  })

-- A date with no time of day, cut at the given offsets.
unfoldable pub parse_date_at : Text → ℕ → ℕ → ℕ → Option SnapshotTimestamp
parse_date_at text year_offset month_offset day_offset = do
  year ← parse_part (substr text year_offset 4)
  month ← parse_part (substr text month_offset 2)
  day ← parse_part (substr text day_offset 2)
  checked (record {
    year = year;
    month = month;
    day = day;
    hour = pos 0;
    minute = pos 0;
    second = pos 0;
  })

unfoldable pub date_separator : ℕ → Bool
date_separator c = c == b'-' || c == b'_' || c == b'/'

-- dd-mm-yyyy, a separator, and hhmm with AM or PM
unfoldable pub compact_meridiem : Text → Option SnapshotTimestamp
compact_meridiem text =
    if leb 17 (length text)
      && (at text 2 == b'-' && at text 5 == b'-')
      && (at text 10 == b'_' || at text 10 == b'-' || at text 10 == b' ')
    then (do
      t ← parse_timestamp text (record {
        year_offset = 6;
        month_offset = 3;
        day_offset = 0;
        hour_offset = 11;
        hour_length = 2;
        minute_offset = 13;
      })
      apply_meridiem t (substr text 15 2))
    else none

-- The marker stands behind one more separator, or at once behind the minutes.
unfoldable pub marker_at : Text → ℕ → ℕ
marker_at text marker =
    if not (leb (length text) marker) && (at text marker == b' ' || at text marker == b'_')
    then marker + 1
    else marker

-- dd-mm-yyyy, a separator, and h:mm or hh:mm with AM or PM
unfoldable pub colon_meridiem : Text → Option SnapshotTimestamp
colon_meridiem text =
    if leb 19 (length text)
      && (at text 2 == b'-' && at text 5 == b'-')
      && (at text 10 == b' ' || at text 10 == b'_')
    then (let hour_length = if at text 12 == b':' then 1 else 2 in
        let colon = 11 + hour_length in
        let minute = colon + 1 in
        let marker = marker_at text (minute + 2) in
        if leb (marker + 2) (length text) && at text colon == b':'
        then (do
          t ← parse_timestamp text (record {
            year_offset = 6;
            month_offset = 3;
            day_offset = 0;
            hour_offset = 11;
            hour_length = hour_length;
            minute_offset = minute;
          })
          apply_meridiem t (substr text marker 2))
        else none)
    else none

unfoldable pub day_first_date : Text → Option SnapshotTimestamp
day_first_date text =
    if leb 10 (length text) && (date_separator (at text 2) && date_separator (at text 5))
    then parse_date_at text 6 3 0
    else none

unfoldable pub year_first_date : Text → Option SnapshotTimestamp
year_first_date text =
    if leb 10 (length text) && (date_separator (at text 4) && date_separator (at text 7))
    then parse_date_at text 0 5 8
    else none

abbrev pub year_first_fields : ℕ → ℕ → FilenameTimestampFields
year_first_fields hour_length minute = record {
  year_offset = 0;
  month_offset = 5;
  day_offset = 8;
  hour_offset = 11;
  hour_length = hour_length;
  minute_offset = minute;
}

-- yyyy-mm-dd, a blank or T, and h or hh with mm behind a colon or a dot
unfoldable pub year_first_time : Text → Option SnapshotTimestamp
year_first_time text =
    if leb 16 (length text)
      && (date_separator (at text 4) && date_separator (at text 7))
      && (at text 10 == b' ' || at text 10 == b'T')
    then (let hour_length = if at text 12 == b':' || at text 12 == b'.' then 1 else 2 in
        let separator = 11 + hour_length in
        let minute = separator + 1 in
        if leb (minute + 2) (length text)
          && (at text separator == b':' || at text separator == b'.')
        then parse_timestamp text (year_first_fields hour_length minute)
        else none)
    else none

-- filenameTimestampAt: the formats in the order in which the code tries them.
unfoldable pub filename_timestamp_at : Text → Option SnapshotTimestamp
filename_timestamp_at text = or_else (compact_meridiem text) (
    or_else (colon_meridiem text)
      (or_else (day_first_date text) (or_else (year_first_date text) (year_first_time text))))

-- The loop over the suffixes that begin with a digit.
unfoldable pub filename_timestamp : Text → Option SnapshotTimestamp
filename_timestamp [] = none
filename_timestamp (c ∷ s) =
    let rest = filename_timestamp s in
    if is_digit c then or_else (filename_timestamp_at (c ∷ s)) rest else rest

unfoldable pub normalize_filename_timestamp : Text → Text
normalize_filename_timestamp filename = format_or_empty (filename_timestamp filename)

unfoldable pub snapshot_key_for_filename : Text → Option Text
snapshot_key_for_filename value = elim (filename_timestamp value) [
  | none ↦ none
  | some t ↦ some (timestamp_key t)
]
