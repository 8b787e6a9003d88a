-- ===== src/Sheet/Mapped.antt =====
-- What src/infra/import/SsaSpreadsheetMapper.cpp hands to the conflict resolver: rows with each key once and
-- a number without blanks around it.
use text.Mathlib.Text.{◌==◌ as str_eq}
use ssa_consulta_rapidacpp.Prelude.{
  ℕ, suc, ◌≡◌, refl, subst, true, false, not, ◌&&◌, ◌||◌, List, [], ◌∷◌, Option, none, some, String,
  arith, if◌then◌else◌, if_either, inl, inr, Bool-cases, All, is_empty, length, get_or, drop, all,
  ltb, leb,
}
use ssa_consulta_rapidacpp.Text.{Text}
use ssa_consulta_rapidacpp.Text.Trim.{trim, trim_idem, trim-nil}
use ssa_consulta_rapidacpp.Assoc.{string_eq, lookup, has_key}
use ssa_consulta_rapidacpp.Sql.Marks.{All-append}
use ssa_consulta_rapidacpp.Timestamp.{normalize_snapshot_timestamp}
use ssa_consulta_rapidacpp.ImportRow.{
  Values, normalize_number, validate_row, RowValidationIssue, no_issue, invalid_number,
  missing_description, missing_date, missing_week, invalid_date,
}
use ssa_consulta_rapidacpp.ImportRow.Validation.{trim-normalize_number}
use ssa_consulta_rapidacpp.Resolver
use ssa_consulta_rapidacpp.Resolver.{row_value, number_of, resolve_by_ssa_number}
use ssa_consulta_rapidacpp.Resolver.Numbered.{numbered}
use ssa_consulta_rapidacpp.Resolver.Outcome.{absent, outcome, rows_of}
use ssa_consulta_rapidacpp.Resolver.Refinement.{rows_in, resolve_by_ssa_number-outcome}
use ssa_consulta_rapidacpp.Resolver.Number.{IsMapped}
use ssa_consulta_rapidacpp.Sheet.{Qt, SpreadsheetTable}
use ssa_consulta_rapidacpp.Sheet.Headers.{
  HeaderColumns, is_sam_api_report, is_derivation_relation_report, has_required_columns,
}
use ssa_consulta_rapidacpp.Sheet.Columns.{HeaderColumnMap, header_row_index, column_map_from_header}
use ssa_consulta_rapidacpp.Sheet.Rows.{
  SsaImportBatch, unless_lost, cell_value, emplace, emplace_if_some, map_cells, add_fallback,
  cells_row, name_of, is_legacy_incomplete_summary_row, skip_row, emplace_missing, complete_row,
  validated, is_ignored, map_row, map_rows, map_with, map_under, map_found, map_table,
}

-- A value that may stand under the key: a number is trimmed.
abbrev MayHold : String → Text → Type 0
MayHold key value = str_eq key "numero_ssa" ≡ true → trim value ≡ value

no_number-MayHold :
    (key : String) (value : Text) → str_eq key "numero_ssa" ≡ false → MayHold key value
no_number-MayHold key value h e = absurd (ground arith)

number_of-cons :
    (key : String) (value : Text) (row : Values)
    → MayHold key value
    → trim (number_of row) ≡ number_of row
    → trim (number_of ((key, value) ∷ row)) ≡ number_of ((key, value) ∷ row)
unfolding row_value lookup
number_of-cons key value row t n = elim (Bool-cases (str_eq key "numero_ssa")) [
  | inl e ↦ rw e (t e)
  | inr e ↦ rw e n
]

emplace-IsMapped :
    (key : String) (value : Text) (row : Values)
    → MayHold key value
    → IsMapped row
    → IsMapped (emplace key value row)
unfolding emplace
emplace-IsMapped key value row t (d, n) =
    if_either IsMapped (has_key key row) row ((key, value) ∷ row) (λ e. (d, n))
      (λ e. ((e, d), number_of-cons key value row t n))

emplace_if_some-IsMapped :
    (key : String) (value : Text) (row : Values)
    → MayHold key value
    → IsMapped row
    → IsMapped (emplace_if_some key value row)
unfolding emplace_if_some
emplace_if_some-IsMapped key value row t h =
    if_either IsMapped (is_empty value) row (emplace key value row) (λ e. h)
      (λ e. emplace-IsMapped key value row t h)

trim-unless_lost :
    (normalized value : Text)
    → trim normalized ≡ normalized
    → trim value ≡ value
    → trim (unless_lost normalized value) ≡ unless_lost normalized value
trim-unless_lost normalized value h k =
    if_either (λ (t : Text). trim t ≡ t) (not (is_empty normalized) || is_empty value) normalized
      value (λ e. h) (λ e. k)

cell_value-MayHold :
    (qt : Qt) (key : String) (cell : Text) → MayHold key (cell_value qt key (trim cell))
unfolding cell_value
cell_value-MayHold qt key cell e = rw e (
    trim-unless_lost (normalize_number (trim cell)) (trim cell) (trim-normalize_number (trim cell))
      (trim_idem cell))

map_cells-IsMapped :
    (qt : Qt) (cells : List Text) (columns : HeaderColumns) (row : Values)
    → IsMapped row
    → IsMapped (map_cells qt cells columns row)
unfolding map_cells
map_cells-IsMapped qt cells [] row h = h
map_cells-IsMapped qt cells ((index, key) ∷ columns) row h =
    let value = cell_value qt key (trim (get_or cells index [])) in
    map_cells-IsMapped qt cells columns
      (if leb (length cells) index then row else emplace_if_some key value row)
      (if_either IsMapped (leb (length cells) index) row (emplace_if_some key value row) (λ e. h)
        (λ e.
          emplace_if_some-IsMapped key value row (cell_value-MayHold qt key (get_or cells index []))
            h))

add_fallback-IsMapped :
    (fallback : Option ℕ) (cells : List Text) (row : Values)
    → IsMapped row
    → IsMapped (add_fallback fallback cells row)
add_fallback-IsMapped none cells row h = h
add_fallback-IsMapped (some index) cells row h =
    let value = normalize_snapshot_timestamp (trim (get_or cells index [])) in
    if_either IsMapped (is_empty (row_value row "data_cadastro") && ltb index (length cells))
      (emplace_if_some "data_cadastro" value row) row
      (λ e.
        emplace_if_some-IsMapped "data_cadastro" value row
          (no_number-MayHold "data_cadastro" value refl) h)
      (λ e. h)

cells_row-IsMapped :
    (qt : Qt) (columns : HeaderColumnMap) (cells : List Text)
    → IsMapped (cells_row qt columns cells)
unfolding cells_row row_value lookup
cells_row-IsMapped qt columns cells =
    add_fallback-IsMapped columns.fallback_timestamp_column cells
      (map_cells qt cells columns.columns [])
      (map_cells-IsMapped qt cells columns.columns [] (tt, trim-nil))

emplace_missing-IsMapped :
    (key : String) (value : Text) (row : Values)
    → str_eq key "numero_ssa" ≡ false
    → IsMapped row
    → IsMapped (emplace_missing key value row)
emplace_missing-IsMapped key value row e h =
    if_either IsMapped (is_empty (row_value row key)) (emplace_if_some key value row) row
      (λ f. emplace_if_some-IsMapped key value row (no_number-MayHold key value e) h) (λ f. h)

complete_row-IsMapped :
    (table : SpreadsheetTable) (row : Values) → IsMapped row → IsMapped (complete_row table row)
unfolding complete_row
complete_row-IsMapped table row h =
    let file = name_of table in
    emplace_missing-IsMapped "data_criacao_arquivo" _ _ refl (
      emplace_missing-IsMapped "data_arquivo_origem" _ _ refl (
        if_either IsMapped (is_empty (row_value row "arquivo_origem"))
          (emplace "arquivo_origem" file row) row
          (λ e.
            emplace-IsMapped "arquivo_origem" file row
              (no_number-MayHold "arquivo_origem" file refl) h)
          (λ e. h)))

abbrev pub AllMapped : SsaImportBatch → Type 0
AllMapped batch = All IsMapped batch.rows

validated-AllMapped :
    (issue : RowValidationIssue) (table : SpreadsheetTable) (row : Values) (batch : SsaImportBatch)
    → IsMapped row
    → AllMapped batch
    → AllMapped (validated issue table row batch)
unfolding validated
validated-AllMapped no_issue table row batch h all =
    All-append IsMapped batch.rows (complete_row table row ∷ []) all
      (complete_row-IsMapped table row h, tt)
validated-AllMapped invalid_number table row batch h all = all
validated-AllMapped missing_description table row batch h all = all
validated-AllMapped missing_date table row batch h all = all
validated-AllMapped missing_week table row batch h all = all
validated-AllMapped invalid_date table row batch h all = all

map_row-AllMapped :
    (qt : Qt) (table : SpreadsheetTable) (columns : HeaderColumnMap) (cells : List Text)
    (batch : SsaImportBatch)
    → AllMapped batch
    → AllMapped (map_row qt table columns cells batch)
unfolding map_row skip_row
map_row-AllMapped qt table columns cells batch h =
    let row = cells_row qt columns cells in
    if_either AllMapped (is_ignored row) batch _ (λ e. h)
      (λ e.
        if_either AllMapped (is_legacy_incomplete_summary_row table row) (skip_row batch)
          (validated (validate_row row) table row batch) (λ f. h)
          (λ f.
            validated-AllMapped (validate_row row) table row batch
              (cells_row-IsMapped qt columns cells) h))

map_rows-AllMapped :
    (qt : Qt) (table : SpreadsheetTable) (columns : HeaderColumnMap) (rows : List (List Text))
    (batch : SsaImportBatch)
    → AllMapped batch
    → AllMapped (map_rows qt table columns rows batch)
unfolding map_rows
map_rows-AllMapped qt table columns [] batch h = h
map_rows-AllMapped qt table columns (cells ∷ rows) batch h =
    map_rows-AllMapped qt table columns rows (map_row qt table columns cells batch)
      (map_row-AllMapped qt table columns cells batch h)

abbrev pub HasMapped : Option SsaImportBatch → Type 0
HasMapped none = Unit
HasMapped (some batch) = AllMapped batch

map_with-HasMapped :
    (qt : Qt) (table : SpreadsheetTable) (header : List Text) (rows : List (List Text))
    (o : Option HeaderColumnMap)
    → HasMapped (map_with qt table header rows o)
map_with-HasMapped qt table header rows none = tt
map_with-HasMapped qt table header rows (some columns) =
    if_either HasMapped columns.ambiguous _ _ (λ e. tt)
      (λ e.
        if_either HasMapped (is_derivation_relation_report qt columns.columns header) _ _ (λ f. tt)
          (λ f.
            if_either HasMapped (not (has_required_columns columns.columns)) _ _ (λ g. tt)
              (λ g. map_rows-AllMapped qt table columns rows _ tt)))

map_under-HasMapped :
    (qt : Qt) (table : SpreadsheetTable) (header : List Text) (rows : List (List Text))
    → HasMapped (map_under qt table header rows)
unfolding map_under
map_under-HasMapped qt table header rows =
    if_either HasMapped (is_sam_api_report header) _ _ (λ e. tt)
      (λ e. map_with-HasMapped qt table header rows (column_map_from_header qt header))

map_found-HasMapped :
    (qt : Qt) (table : SpreadsheetTable) (o : Option (Option ℕ)) → HasMapped (map_found qt table o)
map_found-HasMapped qt table none = tt
map_found-HasMapped qt table (some none) = tt
map_found-HasMapped qt table (some (some index)) =
    map_under-HasMapped qt table (get_or table.rows index []) (drop (suc index) table.rows)

map_table-HasMapped : (qt : Qt) (table : SpreadsheetTable) → HasMapped (map_table qt table)
unfolding map_table
map_table-HasMapped qt table =
    if_either HasMapped (not (is_empty table.header_row))
      (map_under qt table table.header_row table.rows)
      (map_found qt table (header_row_index qt table.rows))
      (λ e. map_under-HasMapped qt table table.header_row table.rows)
      (λ e. map_found-HasMapped qt table (header_row_index qt table.rows))

-- The rows of all batches that the sheets were mapped to.
abbrev pub batches_of : List (SpreadsheetTable × SsaImportBatch) → List Resolver.SsaImportBatch
batches_of [] = []
batches_of ((table, batch) ∷ pairs) = record { rows = batch.rows } ∷ batches_of pairs

abbrev pub IsMappingOf : Qt → SpreadsheetTable × SsaImportBatch → Type 0
IsMappingOf qt (table, batch) = map_table qt table ≡ some batch

batches_of-IsMapped :
    (qt : Qt) (pairs : List (SpreadsheetTable × SsaImportBatch))
    → All (IsMappingOf qt) pairs
    → All IsMapped (rows_in (batches_of pairs))
batches_of-IsMapped qt [] h = tt
batches_of-IsMapped qt ((table, batch) ∷ pairs) (e, h) =
    All-append IsMapped batch.rows (rows_in (batches_of pairs))
      (subst (λ (o : Option SsaImportBatch). HasMapped o) e (map_table-HasMapped qt table))
      (batches_of-IsMapped qt pairs h)

-- Sheets that are mapped and whose rows are then resolved: the resolved rows of a number that is not
-- blank are what merging all rows of that number in the order of the sheets gives, none once a merge
-- conflicts. What Qt does with the headers does not matter for that.
pub map_table-outcome :
    (qt : Qt) (n : Text) (pairs : List (SpreadsheetTable × SsaImportBatch))
    → is_empty n ≡ false
    → All (IsMappingOf qt) pairs
    → numbered n (resolve_by_ssa_number (batches_of pairs)).rows
      ≡ rows_of (outcome n absent (rows_in (batches_of pairs)))
map_table-outcome qt n pairs full h =
    resolve_by_ssa_number-outcome n (batches_of pairs) full (batches_of-IsMapped qt pairs h)
