-- ===== src/Sheet/Kept.antt =====
-- Which rows a mapped sheet gives and what stands in them, src/infra/import/SsaSpreadsheetMapper.cpp.
use ssa_consulta_rapidacpp.Prelude.{
  ℕ, suc, ◌≡◌, ◌⊎◌, Bool, true, false, not, ◌&&◌, List, [], ◌∷◌, Option, none, some, if◌then◌else◌,
  All, get_or, drop, map,
}
use ssa_consulta_rapidacpp.Text.{Text}
use ssa_consulta_rapidacpp.ImportRow.{
  Values, validate_row, RowValidationIssue, no_issue, invalid_number, missing_description,
  missing_date, missing_week, invalid_date,
}
use ssa_consulta_rapidacpp.Sheet.{
  Qt, SpreadsheetTable, SpreadsheetMappingStatus, header_not_recognized, required_columns_missing,
  ambiguous_headers, mapped,
}
use ssa_consulta_rapidacpp.Sheet.Columns.{HeaderColumnMap, column_map_from_header}
use ssa_consulta_rapidacpp.Sheet.Rows.{
  SsaImportBatch, cells_row, is_legacy_incomplete_summary_row, complete_row, is_ignored,
}
use ssa_consulta_rapidacpp.Sheet.Reading.{Reads}

abbrev is_accepted : RowValidationIssue → Bool
is_accepted no_issue = true
is_accepted invalid_number = false
is_accepted missing_description = false
is_accepted missing_date = false
is_accepted missing_week = false
is_accepted invalid_date = false

-- A row with a number or a description that is no incomplete summary row and that validation accepts.
unfoldable pub is_kept : SpreadsheetTable → Values → Bool
is_kept table row =
    not (is_ignored row)
    && not (is_legacy_incomplete_summary_row table row)
    && is_accepted (validate_row row)

unfoldable pub kept : SpreadsheetTable → List Values → List Values
kept table [] = []
kept table (row ∷ rows) =
    let rest = kept table rows in if is_kept table row then row ∷ rest else rest

abbrev kept_rows : Qt → SpreadsheetTable → HeaderColumnMap → List (List Text) → List Values
kept_rows qt table columns data_rows =
    map (complete_row table) (kept table (map (cells_row qt columns) data_rows))

-- The header of a sheet, and the rows behind it.
abbrev pub IsBehind : SpreadsheetTable → List Text → List (List Text) → Type 0
IsBehind table header data_rows =
    ((header ≡ table.header_row) × (data_rows ≡ table.rows))
    ⊎ ((index : ℕ) × (header ≡ get_or table.rows index [])
        × (data_rows ≡ drop (suc index) table.rows))

-- Rows that a sheet is mapped to: the rows behind the header that are kept, completed with what the file
-- says, where the fields of a row read the columns of the header.
pub record IsMapping (qt : Qt) (table : SpreadsheetTable) (batch : SsaImportBatch) : Type 0 where
  pub data_rows : List (List Text)
  pub behind : IsBehind table batch.header_row data_rows
  pub columns : HeaderColumnMap
  pub of_header : column_map_from_header qt batch.header_row ≡ some columns
  pub rows :
      batch.rows ≡ map (complete_row table) (kept table (map (cells_row qt columns) data_rows))
  pub fields :
      (cells : List Text) → All (Reads qt cells (cells_row qt columns cells)) columns.columns

abbrev pub is_mapped : SpreadsheetMappingStatus → Bool
is_mapped header_not_recognized = false
is_mapped required_columns_missing = false
is_mapped ambiguous_headers = false
is_mapped mapped = true

abbrev HasMapping : Qt → SpreadsheetTable → Option SsaImportBatch → Type 0
HasMapping qt table none = Unit
HasMapping qt table (some batch) =
    (is_mapped batch.mapping_status ≡ false) ⊎ IsMapping qt table batch
