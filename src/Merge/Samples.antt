-- ===== src/Merge/Samples.antt =====
-- Rows of one number at several times and in several statuses, and the theorems of merging them.
use ssa_consulta_rapidacpp.Prelude.{
  ◌≡◌, refl, ◌⊎◌, true, false, not, ◌&&◌, [], ◌∷◌, some, is_empty, if◌then◌else◌,
}
use text.Mathlib.Text.{◌==◌ as str_eq}
use ssa_consulta_rapidacpp.Text.{codes, text_eq, text_lt, is_digit, starts_with, to_upper}
use ssa_consulta_rapidacpp.Text.Trim.{trim}
use ssa_consulta_rapidacpp.Assoc.{string_eq, lookup, KeysDistinct, has_key}
use ssa_consulta_rapidacpp.ImportRow.{
  Values, value_for, is_metadata_field, is_indicator_field, is_transient_field, snapshot_key,
  first_snapshot, is_terminal_status, one_of,
}
use ssa_consulta_rapidacpp.Merge.{merge}
use ssa_consulta_rapidacpp.Merge.Laws.{is_terminal, status}
use ssa_consulta_rapidacpp.Merge.Fields.{merge_terminal_frozen, value_for-merge}
use ssa_consulta_rapidacpp.Merge.Age.{newest, merge_newer, merge_older}
use ssa_consulta_rapidacpp.Merge.Status.{merge_terminal_first}
use ssa_consulta_rapidacpp.Merge.Repeat.{merge_self, merge_conflict_keeps, merge_unchanged_keeps}
use ssa_consulta_rapidacpp.Timestamp.{
  is_iso_date_time, is_slash_date_time, is_slash_minute, parse_date_only, parse_exact_timestamp,
  parse_fields, parse_slice, snapshot_key_for_field, timestamp_key, valid_timestamp,
}
use ssa_consulta_rapidacpp.Timestamp.Filename.{
  apply_meridiem, colon_meridiem, compact_meridiem, date_separator, day_first_date,
  filename_timestamp, filename_timestamp_at, marker_at, parse_date_at, parse_timestamp,
  snapshot_key_for_filename, year_first_date, year_first_time,
}
use ssa_consulta_rapidacpp.Number.{
  digits_from, field2, field4, from_digits, in_int, negative_in_int, parse_part,
}
use ssa_consulta_rapidacpp.Calendar.{date_ok, is_leap, is_leap_year, last_day, to_byte, year_ok}
use ssa_consulta_rapidacpp.Text.Case.{uppercase}

abbrev open_row : Values
open_row =
    ("numero_ssa", codes "202600020")
    ∷ ("situacao", codes "APV")
    ∷ ("descricao_ssa", codes "Pump")
    ∷ ("data_planilha", codes "2026-07-14 10:20:30")
    ∷ []

abbrev done_row : Values
done_row =
    ("numero_ssa", codes "202600020")
    ∷ ("situacao", codes "STE")
    ∷ ("descricao_ssa", codes "Pump station")
    ∷ ("data_planilha", codes "2026-07-14 10:20:30")
    ∷ []

abbrev later_row : Values
later_row =
    ("numero_ssa", codes "202600020")
    ∷ ("situacao", codes "AAD")
    ∷ ("descricao_ssa", codes " Pump house ")
    ∷ ("data_planilha", codes "2026-07-15 08:00:00")
    ∷ []

open_snapshot : snapshot_key open_row ≡ some (codes "20260714102030")
unfolding snapshot_key value_for lookup first_snapshot trim snapshot_key_for_field
    parse_exact_timestamp is_iso_date_time parse_fields parse_slice parse_part in_int from_digits
    digits_from is_digit valid_timestamp date_ok is_leap is_leap_year last_day to_byte year_ok
    field2 field4 negative_in_int uppercase text_eq to_upper apply_meridiem colon_meridiem
    compact_meridiem date_separator day_first_date filename_timestamp filename_timestamp_at
    marker_at parse_date_at parse_timestamp snapshot_key_for_filename year_first_date
    year_first_time is_slash_date_time is_slash_minute parse_date_only timestamp_key
open_snapshot = refl

done_snapshot : snapshot_key done_row ≡ some (codes "20260714102030")
unfolding snapshot_key value_for lookup first_snapshot trim snapshot_key_for_field
    parse_exact_timestamp is_iso_date_time parse_fields parse_slice parse_part in_int from_digits
    digits_from is_digit valid_timestamp date_ok is_leap is_leap_year last_day to_byte year_ok
    field2 field4 negative_in_int uppercase text_eq to_upper apply_meridiem colon_meridiem
    compact_meridiem date_separator day_first_date filename_timestamp filename_timestamp_at
    marker_at parse_date_at parse_timestamp snapshot_key_for_filename year_first_date
    year_first_time is_slash_date_time is_slash_minute parse_date_only timestamp_key
done_snapshot = refl

later_snapshot : snapshot_key later_row ≡ some (codes "20260715080000")
unfolding snapshot_key value_for lookup first_snapshot trim snapshot_key_for_field
    parse_exact_timestamp is_iso_date_time parse_fields parse_slice parse_part in_int from_digits
    digits_from is_digit valid_timestamp date_ok is_leap is_leap_year last_day to_byte year_ok
    field2 field4 negative_in_int uppercase text_eq to_upper apply_meridiem colon_meridiem
    compact_meridiem date_separator day_first_date filename_timestamp filename_timestamp_at
    marker_at parse_date_at parse_timestamp snapshot_key_for_filename year_first_date
    year_first_time is_slash_date_time is_slash_minute parse_date_only timestamp_key
later_snapshot = refl

open_distinct : KeysDistinct open_row
unfolding has_key
open_distinct = (refl, (refl, (refl, (refl, tt))))

later_distinct : KeysDistinct later_row
unfolding has_key
later_distinct = (refl, (refl, (refl, (refl, tt))))

done_terminal : is_terminal done_row ≡ true
unfolding is_terminal_status text_eq uppercase trim value_for lookup starts_with
done_terminal = refl

open_live : is_terminal open_row ≡ false
unfolding is_terminal_status text_eq uppercase trim value_for lookup starts_with
open_live = refl

plain_field : is_metadata_field "descricao_ssa" ≡ false
unfolding is_metadata_field one_of
plain_field = refl

no_indicator : is_indicator_field "descricao_ssa" ≡ false
unfolding is_indicator_field one_of
no_indicator = refl

not_transient : is_transient_field "descricao_ssa" ≡ false
unfolding is_transient_field
not_transient = refl

later_than_open : text_lt (codes "20260714102030") (codes "20260715080000") ≡ true
unfolding text_lt
later_than_open = refl

merge_terminal_frozen_example :
    lookup "descricao_ssa" (merge done_row later_row).values ≡ lookup "descricao_ssa" done_row
merge_terminal_frozen_example =
    merge_terminal_frozen done_row later_row "descricao_ssa" later_distinct done_terminal
      plain_field no_indicator

value_for-merge_example :
    (value_for (merge open_row later_row).values "descricao_ssa"
      ≡ value_for open_row "descricao_ssa")
    ⊎ ((value_for (merge open_row later_row).values "descricao_ssa"
          ≡ value_for later_row "descricao_ssa")
        × (is_empty (value_for later_row "descricao_ssa") ≡ false))
value_for-merge_example = value_for-merge open_row later_row "descricao_ssa" later_distinct

merge_newer_example :
    ((merge open_row later_row).conflict ≡ false)
    × (lookup "descricao_ssa" (merge open_row later_row).values
        ≡ newest (lookup "descricao_ssa" later_row) (lookup "descricao_ssa" open_row))
merge_newer_example =
    merge_newer open_row later_row _ _ "descricao_ssa" refl later_distinct open_snapshot
      later_snapshot later_than_open open_live

merge_older_example :
    ((merge later_row open_row).conflict ≡ false)
    × (lookup "situacao" (merge later_row open_row).values ≡ (
        if (is_terminal open_row && not (is_terminal later_row)) && str_eq "situacao" "situacao"
        then newest (lookup "situacao" open_row) (lookup "situacao" later_row)
        else lookup "situacao" later_row))
merge_older_example =
    merge_older later_row open_row _ _ "situacao" refl open_distinct later_snapshot open_snapshot
      later_than_open

open_status : lookup "situacao" open_row ≡ some (codes "APV")
unfolding lookup
open_status = refl

open_status_full : is_empty (trim (codes "APV")) ≡ false
unfolding trim
open_status_full = refl

other_status : text_eq (trim (codes "APV")) (status done_row) ≡ false
unfolding text_eq trim value_for lookup
other_status = refl

merge_terminal_first_example : (merge done_row open_row).conflict ≡ true
merge_terminal_first_example =
    merge_terminal_first done_row open_row _ (codes "APV") done_snapshot open_snapshot done_terminal
      open_status open_status_full other_status

merge_self_example :
    merge open_row open_row ≡ record { values = open_row; changed = false; conflict = false }
merge_self_example = merge_self open_row open_distinct

clashing : (merge done_row open_row).conflict ≡ true
clashing =
    merge_terminal_first done_row open_row _ (codes "APV") done_snapshot open_snapshot done_terminal
      open_status open_status_full other_status

merge_conflict_keeps_example :
    ((merge done_row open_row).values ≡ done_row) × ((merge done_row open_row).changed ≡ false)
merge_conflict_keeps_example = merge_conflict_keeps done_row open_row clashing

self_unchanged : (merge open_row open_row).changed ≡ false
self_unchanged = rw (merge_self open_row open_distinct) refl

merge_unchanged_keeps_example :
    value_for (merge open_row open_row).values "descricao_ssa" ≡ value_for open_row "descricao_ssa"
merge_unchanged_keeps_example =
    merge_unchanged_keeps open_row open_row "descricao_ssa" self_unchanged not_transient
