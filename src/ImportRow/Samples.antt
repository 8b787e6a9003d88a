-- ===== src/ImportRow/Samples.antt =====
-- Rows as an export holds them, and the theorems at these rows.
use ssa_consulta_rapidacpp.Prelude.{◌≡◌, refl, false, [], ◌∷◌, is_empty}
use ssa_consulta_rapidacpp.Text.{codes, is_digit, is_space, starts_with, text_eq, to_upper}
use ssa_consulta_rapidacpp.ImportRow.{
  Values, value_for, normalize_number, validate_row, no_issue, date_fields_issue, drop_point_zero,
  drop_year_dash, is_date_exempt_status, is_date_field, is_valid_week, one_of, remove_spaces,
}
use ssa_consulta_rapidacpp.ImportRow.Validation.{IsNumber, normalize_number_lem}
use ssa_consulta_rapidacpp.ImportRow.Usable.{IsUsable, validate_row-IsUsable}
use ssa_consulta_rapidacpp.Calendar.{
  date_ok, day_number, days_before_month, days_before_year, is_leap, is_leap_year, iso_weekday,
  last_day, to_byte, year_ok,
}
use ssa_consulta_rapidacpp.Timestamp.{
  is_iso_date_time, is_slash_date_time, is_slash_minute, parse_date_only, parse_exact_timestamp,
  parse_fields, parse_slice, valid_timestamp,
}
use ssa_consulta_rapidacpp.IsoWeek.{
  compose_iso_year_week, in_int_range, is_valid_filter_year, is_valid_iso_week,
  is_valid_iso_year_week, last_iso_week_of_year, parse_decimal_digits, parse_filter_year,
  parse_iso_week, parse_iso_year_week,
}
use ssa_consulta_rapidacpp.Number.{digits_from, from_digits, in_int, negative_in_int, parse_part}
use ssa_consulta_rapidacpp.Text.Case.{uppercase}
use ssa_consulta_rapidacpp.Assoc.{lookup}
use ssa_consulta_rapidacpp.Text.Trim.{trim}

abbrev row : Values
row =
    ("numero_ssa", codes "202600020")
    ∷ ("descricao_ssa", codes "Execution")
    ∷ ("situacao", codes "APV")
    ∷ ("data_cadastro", codes "14/07/2026 10:20:30")
    ∷ ("prazo_limite", codes "2026-08-01")
    ∷ []

normalized : normalize_number (codes " 2026-00020.0") ≡ codes "202600020"
unfolding normalize_number drop_year_dash remove_spaces drop_point_zero trim text_eq is_digit
normalized = refl

normalize_number_lem_example :
    IsNumber (normalize_number (codes " 2026-00020.0"))
    × (normalize_number (normalize_number (codes " 2026-00020.0"))
        ≡ normalize_number (codes " 2026-00020.0"))
normalize_number_lem_example = normalize_number_lem (codes " 2026-00020.0")

row_no_issue : validate_row row ≡ no_issue
unfolding validate_row normalize_number drop_year_dash remove_spaces drop_point_zero trim value_for
    lookup text_eq is_digit parse_exact_timestamp is_iso_date_time is_slash_date_time parse_fields
    parse_slice parse_part in_int date_ok day_number days_before_month days_before_year is_leap
    is_leap_year iso_weekday last_day to_byte year_ok date_fields_issue is_date_exempt_status
    is_date_field is_valid_week one_of compose_iso_year_week in_int_range is_valid_filter_year
    is_valid_iso_week is_valid_iso_year_week last_iso_week_of_year parse_decimal_digits
    parse_filter_year parse_iso_week parse_iso_year_week digits_from from_digits negative_in_int
    uppercase is_space starts_with to_upper is_slash_minute parse_date_only valid_timestamp
row_no_issue = refl

row_dated : is_empty (value_for row "data_cadastro") ≡ false
unfolding value_for lookup trim
row_dated = refl

validate_row-IsUsable_example : IsUsable row
validate_row-IsUsable_example = validate_row-IsUsable row row_no_issue
