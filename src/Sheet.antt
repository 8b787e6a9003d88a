-- ===== src/Sheet.antt =====
-- The mapping of a sheet to rows: src/infra/import/SsaSpreadsheetHeaderCatalog.cpp and
-- src/infra/import/SsaSpreadsheetMapper.cpp. What the code asks of QString stands as a parameter; a
-- QString is the list of its UTF-16 units. HeaderColumnCache keeps results of a function and is left
-- out, as is the stop token: a stop request ends the mapping with an exception.
mod Aliases
pub mod Headers
pub mod Columns
pub mod Rows
pub mod Mapped
pub mod Counts
pub mod Places
pub mod Distinct
pub mod Reading
pub mod Kept
mod Samples
use ssa_consulta_rapidacpp.Prelude.{ℕ, Bool, List, [], ◌∷◌, if◌then◌else◌}
use ssa_consulta_rapidacpp.Text.{Text}

-- QString::fromUtf8 with normalized(NormalizationForm_KD), the category Mark_NonSpacing, isSpace,
-- toLower, trimmed and toStdString.
pub record Qt : Type 0 where
  pub decomposed : Text → List ℕ
  pub is_mark : ℕ → Bool
  pub is_space : ℕ → Bool
  pub to_lower : ℕ → ℕ
  pub trimmed : List ℕ → List ℕ
  pub to_std_string : List ℕ → Text

-- The characters without the marks, in lower case.
unfoldable pub folded : Qt → List ℕ → List ℕ
folded qt [] = []
folded qt (c ∷ cs) = let rest = folded qt cs in if qt.is_mark c then rest else qt.to_lower c ∷ rest

unfoldable pub folded_text : Qt → Text → Text
folded_text qt value = qt.to_std_string (qt.trimmed (folded qt (qt.decomposed value)))

-- SpreadsheetTable; filename is sourcePath.filename().
pub record SpreadsheetTable : Type 0 where
  pub filename : Text
  pub original_filename : Text
  pub source_modified_timestamp : Text
  pub rows : List (List Text)
  pub header_row : List Text
  pub source_created_timestamp : Text

pub data SpreadsheetMappingStatus : Type 0 where
  header_not_recognized : SpreadsheetMappingStatus
  required_columns_missing : SpreadsheetMappingStatus
  ambiguous_headers : SpreadsheetMappingStatus
  mapped : SpreadsheetMappingStatus
