-- ===== src/Sheet/Rows.antt =====
-- The rows of a sheet: SsaSpreadsheetMapper::map and its helpers in
-- src/infra/import/SsaSpreadsheetMapper.cpp, with SsaImportBatch of src/infra/SsaImportData.h, whose path is
-- left out.
use text.Mathlib.Text.{◌==◌ as str_eq}
use ssa_consulta_rapidacpp.Prelude.{
  ℕ, suc, Bool, true, false, not, ◌&&◌, ◌||◌, List, [], ◌∷◌, ◌++◌, Option, none, some, String,
  if◌then◌else◌, is_empty, length, get_or, drop, all, ltb, leb,
}
use ssa_consulta_rapidacpp.Text.{Text, codes, text_eq, contains_text, starts_with, is_digit}
use ssa_consulta_rapidacpp.Text.Trim.{trim}
use ssa_consulta_rapidacpp.Text.Case.{lowercase}
use ssa_consulta_rapidacpp.Assoc.{string_eq, has_key}
use ssa_consulta_rapidacpp.Catalog.{find}
use ssa_consulta_rapidacpp.Catalog.Columns.{ColumnDef, ColumnType}
use ssa_consulta_rapidacpp.Timestamp.{normalize_date_text, normalize_snapshot_timestamp}
use ssa_consulta_rapidacpp.ImportRow.{
  Values, normalize_number, validate_row, RowValidationIssue, no_issue, invalid_number,
  missing_description, missing_date, missing_week, invalid_date,
}
use ssa_consulta_rapidacpp.Deviation.{normalize_deviation_count}
use ssa_consulta_rapidacpp.Resolver.{row_value}
use ssa_consulta_rapidacpp.Sheet.{
  Qt, folded_text, SpreadsheetTable, SpreadsheetMappingStatus, header_not_recognized,
  required_columns_missing, ambiguous_headers, mapped,
}
use ssa_consulta_rapidacpp.Sheet.Headers.{
  HeaderColumns, has_required_columns, is_sam_api_report, is_derivation_relation_report,
}
use ssa_consulta_rapidacpp.Sheet.Columns.{HeaderColumnMap, header_row_index, column_map_from_header}

pub record SsaImportBatch : Type 0 where
  pub header_row : List Text
  pub rows : List Values
  pub skipped_rows : ℕ
  pub invalid_rows : ℕ
  pub invalid_number_rows : ℕ
  pub invalid_description_rows : ℕ
  pub invalid_date_rows : ℕ
  pub mapped_columns : ℕ
  pub mapping_status : SpreadsheetMappingStatus

-- The number behind a prefix, where it consists of digits.
abbrev pub number_behind : Text → Text → Option Text
number_behind prefix text =
    let suffix = drop (length prefix) text in
    if starts_with prefix text && not (is_empty suffix) && all is_digit suffix
    then some suffix
    else none

abbrev pub first_of : Option Text → Option Text → Text → Text
first_of (some a) second value = a
first_of none (some b) value = b
first_of none none value = value

unfoldable pub normalize_reprogramming_number : Qt → Text → Text
normalize_reprogramming_number qt value =
    let normalized = folded_text qt value in
    if text_eq normalized (codes "final reschedule")
      || text_eq normalized (codes "reprogramacao final")
    then []
    else first_of (number_behind (codes "reschedule #") normalized)
        (number_behind (codes "reprogramacao #") normalized) value

abbrev pub is_date_type : ColumnType → Bool
is_date_type ColumnType.text = false
is_date_type ColumnType.integer = false
is_date_type ColumnType.date_text = true

abbrev pub is_date_column : Option (Option ColumnDef) → Bool
is_date_column none = false
is_date_column (some none) = false
is_date_column (some (some column)) = is_date_type column.type'

abbrev pub unless_lost : Text → Text → Text
unless_lost normalized value =
    if not (is_empty normalized) || is_empty value then normalized else value

-- What is kept of a trimmed cell.
unfoldable pub cell_value : Qt → String → Text → Text
cell_value qt key value =
    if str_eq key "numero_ssa"
    then unless_lost (normalize_number value) value
    else if starts_with (codes "numero_ssa_relacionada") (codes key)
    then unless_lost (normalize_number value) value
    else if str_eq key "numero_desvios"
    then normalize_deviation_count value
    else if str_eq key "num_reprogramacoes"
    then normalize_reprogramming_number qt value
    else if is_date_column (find key)
    then unless_lost (normalize_date_text value) value
    else value

-- std::unordered_map::emplace: an entry that is there stays.
unfoldable pub emplace : String → Text → Values → Values
emplace key value row = if has_key key row then row else (key, value) ∷ row

unfoldable pub emplace_if_some : String → Text → Values → Values
emplace_if_some key value row = if is_empty value then row else emplace key value row

unfoldable pub map_cells : Qt → List Text → HeaderColumns → Values → Values
map_cells qt cells [] row = row
map_cells qt cells ((index, key) ∷ columns) row = map_cells qt cells columns (
    if leb (length cells) index
    then row
    else emplace_if_some key (cell_value qt key (trim (get_or cells index []))) row)

abbrev pub add_fallback : Option ℕ → List Text → Values → Values
add_fallback none cells row = row
add_fallback (some index) cells row =
    if is_empty (row_value row "data_cadastro") && ltb index (length cells)
    then emplace_if_some "data_cadastro"
        (normalize_snapshot_timestamp (trim (get_or cells index []))) row
    else row

unfoldable pub cells_row : Qt → HeaderColumnMap → List Text → Values
cells_row qt columns cells =
    add_fallback columns.fallback_timestamp_column cells (map_cells qt cells columns.columns [])

abbrev pub name_of : SpreadsheetTable → Text
name_of table = if is_empty table.original_filename then table.filename else table.original_filename

unfoldable pub is_legacy_incomplete_summary_row : SpreadsheetTable → Values → Bool
is_legacy_incomplete_summary_row table row =
    let status = row_value row "situacao" in
    contains_text (codes "todas as ssas") (lowercase (name_of table))
    && is_empty (row_value row "descricao_ssa")
    && is_empty (row_value row "data_cadastro")
    && not (is_empty (row_value row "semana_cadastro"))
    && (text_eq status (codes "SCC")
        || text_eq status (codes "ADI")
        || text_eq status (codes "ASE"))

unfoldable pub skip_row : SsaImportBatch → SsaImportBatch
skip_row batch = record batch { skipped_rows = suc batch.skipped_rows }

abbrev pub skip_invalid : SsaImportBatch → SsaImportBatch
skip_invalid batch = record batch {
  skipped_rows = suc batch.skipped_rows;
  invalid_rows = suc batch.invalid_rows;
}

abbrev pub count_date : SsaImportBatch → SsaImportBatch
count_date batch = record (skip_invalid batch) { invalid_date_rows = suc batch.invalid_date_rows }

-- A key that has no value, or an empty one, gets the time stamp if there is one.
abbrev pub emplace_missing : String → Text → Values → Values
emplace_missing key value row =
    if is_empty (row_value row key) then emplace_if_some key value row else row

unfoldable pub complete_row : SpreadsheetTable → Values → Values
complete_row table row =
    let named =
      if is_empty (row_value row "arquivo_origem")
      then emplace "arquivo_origem" (name_of table) row
      else row in
    emplace_missing "data_criacao_arquivo"
      (normalize_snapshot_timestamp table.source_created_timestamp)
      (emplace_missing "data_arquivo_origem"
        (normalize_snapshot_timestamp table.source_modified_timestamp) named)

unfoldable pub validated :
    RowValidationIssue → SpreadsheetTable → Values → SsaImportBatch → SsaImportBatch
validated no_issue table row batch = record batch {
  rows = batch.rows ++ complete_row table row ∷ [];
}
validated invalid_number table row batch = record (skip_invalid batch) {
  invalid_number_rows = suc batch.invalid_number_rows;
}
validated missing_description table row batch = record (skip_invalid batch) {
  invalid_description_rows = suc batch.invalid_description_rows;
}
validated missing_date table row batch = count_date batch
validated missing_week table row batch = count_date batch
validated invalid_date table row batch = count_date batch

unfoldable pub is_ignored : Values → Bool
is_ignored row =
    is_empty row
    || is_empty (row_value row "numero_ssa") && is_empty (row_value row "descricao_ssa")

unfoldable pub map_row :
    Qt → SpreadsheetTable → HeaderColumnMap → List Text → SsaImportBatch → SsaImportBatch
map_row qt table columns cells batch =
    let row = cells_row qt columns cells in
    if is_ignored row
    then batch
    else if is_legacy_incomplete_summary_row table row
    then skip_row batch
    else validated (validate_row row) table row batch

unfoldable pub map_rows :
    Qt → SpreadsheetTable → HeaderColumnMap → List (List Text) → SsaImportBatch → SsaImportBatch
map_rows qt table columns [] batch = batch
map_rows qt table columns (cells ∷ rows) batch =
    map_rows qt table columns rows (map_row qt table columns cells batch)

abbrev pub empty_batch : SsaImportBatch
empty_batch = record {
  header_row = [];
  rows = [];
  skipped_rows = 0;
  invalid_rows = 0;
  invalid_number_rows = 0;
  invalid_description_rows = 0;
  invalid_date_rows = 0;
  mapped_columns = 0;
  mapping_status = header_not_recognized;
}

abbrev pub refused : SpreadsheetMappingStatus → ℕ → List (List Text) → SsaImportBatch
refused status columns data_rows = record empty_batch {
  mapping_status = status;
  mapped_columns = columns;
  skipped_rows = length data_rows;
}

abbrev pub map_with :
    Qt
    → SpreadsheetTable
    → List Text
    → List (List Text)
    → Option HeaderColumnMap
    → Option SsaImportBatch
map_with qt table header data_rows none = none
map_with qt table header data_rows (some columns) =
    let count = length columns.columns in
    if columns.ambiguous
    then some (refused ambiguous_headers count data_rows)
    else if is_derivation_relation_report qt columns.columns header
    then some (refused header_not_recognized count data_rows)
    else if not (has_required_columns columns.columns)
    then some (refused required_columns_missing count data_rows)
    else some (
        map_rows qt table columns data_rows (record empty_batch {
          header_row = header;
          mapped_columns = count;
          mapping_status = mapped;
        }))

unfoldable pub map_under :
    Qt → SpreadsheetTable → List Text → List (List Text) → Option SsaImportBatch
map_under qt table header data_rows =
    if is_sam_api_report header
    then some (refused header_not_recognized 0 data_rows)
    else map_with qt table header data_rows (column_map_from_header qt header)

abbrev pub map_found : Qt → SpreadsheetTable → Option (Option ℕ) → Option SsaImportBatch
map_found qt table none = none
map_found qt table (some none) = some (record empty_batch { skipped_rows = length table.rows })
map_found qt table (some (some index)) =
    map_under qt table (get_or table.rows index []) (drop (suc index) table.rows)

-- SsaSpreadsheetMapper::map. The rows behind the header are those that the loop goes over.
unfoldable pub map_table : Qt → SpreadsheetTable → Option SsaImportBatch
map_table qt table =
    if not (is_empty table.header_row)
    then map_under qt table table.header_row table.rows
    else map_found qt table (header_row_index qt table.rows)
