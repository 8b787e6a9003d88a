-- ===== src/Timestamp/Samples.antt =====
-- Times as texts and as records, and the theorems about timestamps at these inputs.
use ssa_consulta_rapidacpp.Prelude.{◌≡◌, refl, true, false, some, arith}
use ssa_consulta_rapidacpp.Prelude.Int.{pos}
use ssa_consulta_rapidacpp.Text.{codes, text_lt, is_digit, text_eq}
use ssa_consulta_rapidacpp.Timestamp.{
  valid_timestamp, timestamp_key, at, parse_exact_timestamp, normalize_snapshot_timestamp,
  is_iso_date_time, is_slash_date_time, parse_fields, parse_slice,
}
use ssa_consulta_rapidacpp.Timestamp.Format.{
  IsReadable, parse_exact_timestamp-IsReadable, normalize_snapshot_timestamp_idem,
}
use ssa_consulta_rapidacpp.Timestamp.Order.{Moment, stamp, earlier, text_lt-timestamp_key}
use ssa_consulta_rapidacpp.Timestamp.Filename.{
  filename_timestamp, filename_timestamp_at, date_separator, apply_meridiem, colon_meridiem,
  compact_meridiem, day_first_date, parse_date_at, parse_timestamp, year_first_date,
}
use ssa_consulta_rapidacpp.Timestamp.Filename.Validity.{
  filename_timestamp-valid, year_first_midnight,
}
use ssa_consulta_rapidacpp.Number.{digits_from, from_digits, in_int, parse_part}
use ssa_consulta_rapidacpp.Text.Case.{uppercase}
use ssa_consulta_rapidacpp.Calendar.{date_ok}

abbrev morning : Moment
morning = record { year = 2026; month = 7; day = 14; hour = 9; minute = 5; second = 59 }

abbrev evening : Moment
evening = record { year = 2026; month = 7; day = 14; hour = 21; minute = 5; second = 0 }

text_lt-timestamp_key_example :
    text_lt (timestamp_key (stamp morning)) (timestamp_key (stamp evening))
    ≡ earlier morning evening
text_lt-timestamp_key_example =
    text_lt-timestamp_key morning evening
      (record {
        year_in = omega arith;
        month_in = omega arith;
        day_in = omega arith;
        hour_in = omega arith;
        minute_in = omega arith;
        second_in = omega arith;
      })
      (record {
        year_in = omega arith;
        month_in = omega arith;
        day_in = omega arith;
        hour_in = omega arith;
        minute_in = omega arith;
        second_in = omega arith;
      })

read_morning : parse_exact_timestamp (codes "14/07/2026 09:05:59") ≡ some (stamp morning)
unfolding parse_exact_timestamp is_iso_date_time is_slash_date_time parse_fields parse_slice
    parse_part in_int from_digits digits_from is_digit valid_timestamp date_ok
read_morning = refl

morning-IsReadable : IsReadable (stamp morning)
morning-IsReadable =
    parse_exact_timestamp-IsReadable (codes "14/07/2026 09:05:59") (stamp morning) read_morning

normalize_snapshot_timestamp_idem_example :
    normalize_snapshot_timestamp (normalize_snapshot_timestamp (codes " 31/12/2026 "))
    ≡ normalize_snapshot_timestamp (codes " 31/12/2026 ")
normalize_snapshot_timestamp_idem_example = normalize_snapshot_timestamp_idem (codes " 31/12/2026 ")

read_evening : filename_timestamp (codes "SSA_14-07-2026_0905PM.xlsx") ≡ some (stamp evening)
unfolding filename_timestamp is_digit filename_timestamp_at compact_meridiem parse_timestamp
    parse_part in_int from_digits digits_from valid_timestamp date_ok apply_meridiem text_eq
    uppercase
read_evening = refl

filename_timestamp-valid_example : valid_timestamp (stamp evening) ≡ true
filename_timestamp-valid_example =
    filename_timestamp-valid (codes "SSA_14-07-2026_0905PM.xlsx") (stamp evening) read_evening

abbrev midnight : Moment
midnight = record { year = 2026; month = 7; day = 14; hour = 0; minute = 0; second = 0 }

read_midnight : filename_timestamp_at (codes "2026-07-14 21:05:00.xlsx") ≡ some (stamp midnight)
unfolding filename_timestamp_at compact_meridiem colon_meridiem day_first_date date_separator
    year_first_date parse_date_at parse_part in_int from_digits digits_from is_digit valid_timestamp
    date_ok
read_midnight = refl

no_separator : date_separator (at (codes "2026-07-14 21:05:00.xlsx") 2) ≡ false
unfolding date_separator
no_separator = refl

year_first_midnight_example : (pos 0 ≡ pos 0) × (pos 0 ≡ pos 0) × (pos 0 ≡ pos 0)
year_first_midnight_example =
    year_first_midnight (codes "2026-07-14 21:05:00.xlsx") (stamp midnight) no_separator
      read_midnight
