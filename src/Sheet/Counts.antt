-- ===== src/Sheet/Counts.antt =====
-- The counts of a mapped sheet, src/infra/import/SsaSpreadsheetMapper.cpp.
use ssa_consulta_rapidacpp.Prelude.{ℕ, ◌+◌, ◌≤◌, ◌≡◌, Option, none, some, length}
use ssa_consulta_rapidacpp.Text.{Text}
use ssa_consulta_rapidacpp.Sheet.Rows.{SsaImportBatch}

-- What the counts say of a sheet of which so many rows were read: every invalid row has one reason and
-- is skipped, and no row is counted twice.
pub record IsCounted (total : ℕ) (batch : SsaImportBatch) : Type 0 where
  pub reasons :
      batch.invalid_rows
      ≡ batch.invalid_number_rows + batch.invalid_description_rows + batch.invalid_date_rows
  pub skips : batch.invalid_rows ≤ batch.skipped_rows
  pub rows_once : length batch.rows + batch.skipped_rows ≤ total

abbrev HasCounts : ℕ → Option SsaImportBatch → Type 0
HasCounts total none = Unit
HasCounts total (some batch) = IsCounted total batch
