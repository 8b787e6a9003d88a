-- ===== src/Sheet/Samples.antt =====
-- A sheet that is mapped, and the theorems on it.
use ssa_consulta_rapidacpp.Prelude.{◌≡◌, refl, true, false, List, [], ◌∷◌, Option, none, some}
use ssa_consulta_rapidacpp.Text.{
  Text, codes, is_space, to_lower, contains_text, is_digit, starts_with, text_eq, to_upper,
}
use ssa_consulta_rapidacpp.Text.Trim.{trim}
use ssa_consulta_rapidacpp.Resolver.{row_value}
use ssa_consulta_rapidacpp.Sheet.{Qt, SpreadsheetTable, folded, folded_text}
use ssa_consulta_rapidacpp.Sheet.Columns.{
  HeaderColumnMap, column_map_from_header, add_column, best_row, columns_from, destination_of,
  has_header, header_row_index, row_keys, set_ambiguous,
}
use ssa_consulta_rapidacpp.Sheet.Headers.{
  canonical_column_for_header, equals_trimmed, has_column, has_required_columns, header_characters,
  is_derivation_relation_report, is_relation_category_header, is_sam_api_report, key_of_text,
  normalized_header, positional_family, snapshot_header_kind,
}
use ssa_consulta_rapidacpp.Sheet.Rows.{
  SsaImportBatch, empty_batch, map_table, cell_value, cells_row, complete_row, emplace,
  emplace_if_some, is_ignored, is_legacy_incomplete_summary_row, map_cells, map_row, map_rows,
  map_under, skip_row, validated,
}
use ssa_consulta_rapidacpp.Sheet.Places.{keys, DistinctKeys}
use ssa_consulta_rapidacpp.Sheet.Distinct.{column_map_from_header_lem}
use ssa_consulta_rapidacpp.Timestamp.{
  format_or_empty, format_timestamp, is_iso_date_time, is_slash_date_time, is_slash_minute,
  normalize_date_text, normalize_snapshot_timestamp, parse_date_only, parse_exact_timestamp,
  parse_fields, parse_slice, valid_timestamp,
}
use ssa_consulta_rapidacpp.Catalog.{
  add_columns, column_by_key, contains, find, has_string, is_canonical_storage_key,
}
use ssa_consulta_rapidacpp.Number.{
  digits_from, field2, field4, from_digits, in_int, negative_in_int, parse_part,
}
use ssa_consulta_rapidacpp.ImportRow.{
  date_fields_issue, drop_point_zero, drop_year_dash, is_date_exempt_status, is_date_field,
  is_valid_week, normalize_number, one_of, remove_spaces, validate_row, value_for,
}
use ssa_consulta_rapidacpp.Assoc.{has_key, insert, lookup}
use ssa_consulta_rapidacpp.Calendar.{date_ok}
use ssa_consulta_rapidacpp.IsoWeek.{parse_iso_year_week}
use ssa_consulta_rapidacpp.Text.Case.{lowercase, uppercase}

-- Qt on ASCII texts.
abbrev ascii : Qt
ascii = record {
  decomposed = λ text. text;
  is_mark = λ c. false;
  is_space = is_space;
  to_lower = to_lower;
  trimmed = trim;
  to_std_string = λ text. text;
}

abbrev header : List Text
header =
    codes "numero_ssa"
    ∷ codes "descricao_ssa"
    ∷ codes "data_cadastro"
    ∷ codes "numero_ssa"
    ∷ codes "situacao"
    ∷ []

abbrev table : SpreadsheetTable
table = record {
  filename = codes "ssas.xlsx";
  original_filename = [];
  source_modified_timestamp = codes "2024-05-02 10:00:00";
  rows =
      (codes "202400001"
        ∷ codes " Bomba "
        ∷ codes "2024-05-01 08:00:00"
        ∷ codes "202400002"
        ∷ codes "APL"
        ∷ [])
      ∷ (codes "" ∷ codes "" ∷ [])
      ∷ (codes "2024" ∷ codes "Sem numero" ∷ codes "2024-05-01" ∷ [])
      ∷ [];
  header_row = header;
  source_created_timestamp = [];
}

abbrev or_empty : Option SsaImportBatch → SsaImportBatch
or_empty none = empty_batch
or_empty (some batch) = batch

abbrev batch : SsaImportBatch
batch = or_empty (map_table ascii table)

one_skipped : batch.skipped_rows ≡ 1
unfolding map_table header_row_index best_row row_keys canonical_column_for_header normalized_header
    header_characters key_of_text contains find column_by_key add_columns is_canonical_storage_key
    has_key lookup insert text_eq is_space to_lower trim map_under is_sam_api_report equals_trimmed
    column_map_from_header columns_from add_column destination_of positional_family has_string
    has_header set_ambiguous is_derivation_relation_report is_relation_category_header folded_text
    folded has_column has_required_columns map_rows map_row cells_row map_cells emplace
    emplace_if_some cell_value normalize_number drop_point_zero remove_spaces drop_year_dash
    is_digit starts_with normalize_date_text normalize_snapshot_timestamp format_or_empty
    format_timestamp parse_exact_timestamp is_iso_date_time is_slash_date_time is_slash_minute
    parse_date_only parse_fields parse_slice parse_part in_int negative_in_int from_digits
    digits_from field2 field4 valid_timestamp row_value is_ignored is_legacy_incomplete_summary_row
    contains_text lowercase validate_row value_for date_fields_issue is_date_field one_of
    is_date_exempt_status uppercase to_upper is_valid_week parse_iso_year_week validated skip_row
    complete_row snapshot_header_kind date_ok
one_skipped = refl

abbrev or_no_columns : Option HeaderColumnMap → HeaderColumnMap
or_no_columns none = record { columns = []; fallback_timestamp_column = none; ambiguous = true }
or_no_columns (some columns) = columns

abbrev header_columns : HeaderColumnMap
header_columns = or_no_columns (column_map_from_header ascii header)

header_mapped : column_map_from_header ascii header ≡ some header_columns
unfolding map_table header_row_index best_row row_keys canonical_column_for_header normalized_header
    header_characters key_of_text contains find column_by_key add_columns is_canonical_storage_key
    has_key lookup insert text_eq is_space to_lower trim map_under is_sam_api_report equals_trimmed
    column_map_from_header columns_from add_column destination_of positional_family has_string
    has_header set_ambiguous is_derivation_relation_report is_relation_category_header folded_text
    folded has_column has_required_columns map_rows map_row cells_row map_cells emplace
    emplace_if_some cell_value normalize_number drop_point_zero remove_spaces drop_year_dash
    is_digit starts_with normalize_date_text normalize_snapshot_timestamp format_or_empty
    format_timestamp parse_exact_timestamp is_iso_date_time is_slash_date_time is_slash_minute
    parse_date_only parse_fields parse_slice parse_part in_int negative_in_int from_digits
    digits_from field2 field4 valid_timestamp row_value is_ignored is_legacy_incomplete_summary_row
    contains_text lowercase validate_row value_for date_fields_issue is_date_field one_of
    is_date_exempt_status uppercase to_upper is_valid_week parse_iso_year_week validated skip_row
    complete_row snapshot_header_kind
header_mapped = refl

second_number :
    keys header_columns.columns
    ≡ "numero_ssa" ∷ "descricao_ssa" ∷ "data_cadastro" ∷ "numero_ssa_relacionada_1" ∷ "situacao"
      ∷ []
unfolding map_table header_row_index best_row row_keys canonical_column_for_header normalized_header
    header_characters key_of_text contains find column_by_key add_columns is_canonical_storage_key
    has_key lookup insert text_eq is_space to_lower trim map_under is_sam_api_report equals_trimmed
    column_map_from_header columns_from add_column destination_of positional_family has_string
    has_header set_ambiguous is_derivation_relation_report is_relation_category_header folded_text
    folded has_column has_required_columns map_rows map_row cells_row map_cells emplace
    emplace_if_some cell_value normalize_number drop_point_zero remove_spaces drop_year_dash
    is_digit starts_with normalize_date_text normalize_snapshot_timestamp format_or_empty
    format_timestamp parse_exact_timestamp is_iso_date_time is_slash_date_time is_slash_minute
    parse_date_only parse_fields parse_slice parse_part in_int negative_in_int from_digits
    digits_from field2 field4 valid_timestamp row_value is_ignored is_legacy_incomplete_summary_row
    contains_text lowercase validate_row value_for date_fields_issue is_date_field one_of
    is_date_exempt_status uppercase to_upper is_valid_week parse_iso_year_week validated skip_row
    complete_row snapshot_header_kind
second_number = refl

column_map_from_header_lem_example : DistinctKeys (keys header_columns.columns)
column_map_from_header_lem_example =
    column_map_from_header_lem ascii header header_columns header_mapped
