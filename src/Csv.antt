-- ===== src/Csv.antt =====
-- The text of an exported list: isSpreadsheetFormulaPrefix, appendCsvValue, buildCsvRow and csvHeader
-- of src/infra/export/CsvExportPort.cpp, and SsaRecord::valueOf of src/domain/SsaTypes.h.
pub mod Reader
pub mod RoundTrip
pub mod Formula
mod Samples
use ssa_consulta_rapidacpp.Prelude.{
  ℕ, Bool, true, false, ◌&&◌, ◌||◌, not, List, [], ◌∷◌, ◌++◌, Option, none, some, String,
  if◌then◌else◌, leb, ◌==◌, any, get_elem?,
}
use ssa_consulta_rapidacpp.Text.{Text, starts_with}
use ssa_consulta_rapidacpp.Assoc.{Assoc, string_eq, lookup}

-- SchemaIndex, of which reading a value uses the index alone, and SsaRecord.
pub record SchemaIndex : Type 0 where
  pub index_by_key : Assoc String ℕ

pub record SsaRecord : Type 0 where
  pub schema : Option SchemaIndex
  pub row_values : List Text

abbrev value_at : List Text → Option ℕ → Option Text
value_at values none = some []
value_at values (some index) = get_elem? values index

abbrev value_in : String → List Text → Option SchemaIndex → Option Text
value_in key values none = some []
value_in key values (some schema) = value_at values (lookup key schema.index_by_key)

-- valueOf; none where the code throws std::logic_error.
unfoldable pub value_of : SsaRecord → String → Option Text
value_of record' key = value_in key record'.row_values record'.schema

unfoldable pub is_spreadsheet_formula_prefix : Text → Bool
is_spreadsheet_formula_prefix [] = false
is_spreadsheet_formula_prefix (first ∷ value) =
    (leb first 31
      || first == 127
      || first == b'='
      || first == b'+'
      || first == b'-'
      || first == b'@')
    || starts_with (239 ∷ 188 ∷ 157 ∷ []) (first ∷ value)
    || starts_with (239 ∷ 188 ∷ 139 ∷ []) (first ∷ value)
    || starts_with (239 ∷ 188 ∷ 141 ∷ []) (first ∷ value)
    || starts_with (239 ∷ 188 ∷ 160 ∷ []) (first ∷ value)

abbrev pub quote : ℕ
quote = 34

abbrev pub is_special : ℕ → Bool
is_special c = c == quote || c == b',' || c == 10 || c == 13

-- The loop of appendCsvValue: a quote is written twice.
unfoldable pub double_quotes : Text → Text
double_quotes [] = []
double_quotes (c ∷ value) =
    let rest = double_quotes value in if c == quote then quote ∷ c ∷ rest else c ∷ rest

unfoldable pub append_csv_value : Text → Text → Text
append_csv_value output value =
    let spreadsheet_formula = is_spreadsheet_formula_prefix value in
    if not spreadsheet_formula && not (any is_special value)
    then output ++ value
    else let opened = output ++ quote ∷ [] in
      let marked = if spreadsheet_formula then opened ++ b'\'' ∷ [] else opened in
      (marked ++ double_quotes value) ++ quote ∷ []

-- The loop of buildCsvRow and csvHeader over the columns after the first.
unfoldable pub append_more : Text → List Text → Text
append_more output [] = output
append_more output (value ∷ values) =
    append_more (append_csv_value (output ++ b',' ∷ []) value) values

unfoldable pub append_values : Text → List Text → Text
append_values output [] = output
append_values output (value ∷ values) = append_more (append_csv_value output value) values

abbrev pub cons_value : Option Text → Option (List Text) → Option (List Text)
cons_value none rest = none
cons_value (some value) none = none
cons_value (some value) (some values) = some (value ∷ values)

unfoldable pub values_of : SsaRecord → List String → Option (List Text)
values_of record' [] = some []
values_of record' (column ∷ columns) =
    cons_value (value_of record' column) (values_of record' columns)

-- buildCsvRow clears its output first.
abbrev row_text : Option (List Text) → Option Text
row_text none = none
row_text (some values) = some (append_values [] values ++ 10 ∷ [])

unfoldable pub build_csv_row : SsaRecord → List String → Option Text
build_csv_row record' columns = row_text (values_of record' columns)

unfoldable pub csv_header : List Text → Text
csv_header labels = append_values [] labels ++ 10 ∷ []
