-- ===== src/Csv/Samples.antt =====
-- A record with a formula, a quote and a line feed, and the theorems about its line.
use ssa_consulta_rapidacpp.Prelude.{◌≡◌, refl, true, List, [], ◌∷◌, ◌++◌, some, map, String}
use ssa_consulta_rapidacpp.Text.{Text, codes, starts_with}
use ssa_consulta_rapidacpp.Csv.{
  SsaRecord, values_of, build_csv_row, append_csv_value, append_more, append_values, double_quotes,
  is_spreadsheet_formula_prefix, value_of,
}
use ssa_consulta_rapidacpp.Csv.Reader.{read_record}
use ssa_consulta_rapidacpp.Csv.RoundTrip.{shown}
use ssa_consulta_rapidacpp.Csv.Formula.{no_formula, read_record-build_csv_row}
use ssa_consulta_rapidacpp.Assoc.{lookup}

abbrev sample : SsaRecord
sample = record {
  schema = some (record { index_by_key = ("numero_ssa", 0) ∷ ("descricao_ssa", 1) ∷ [] });
  row_values = codes "202600020" ∷ codes "=SUM(A1),\"x\"\n" ∷ [];
}

abbrev columns : List String
columns = "descricao_ssa" ∷ "numero_ssa" ∷ "anomalia" ∷ []

abbrev row : Text
row = codes "\"'=SUM(A1),\"\"x\"\"\n\",202600020,\n"

row_built : build_csv_row sample columns ≡ some row
unfolding build_csv_row values_of value_of lookup append_values append_more append_csv_value
    is_spreadsheet_formula_prefix starts_with double_quotes
row_built = refl

read_record-build_csv_row_example :
    (values : List Text) × (values_of sample columns ≡ some values)
    × (read_record (row ++ codes "next") ≡ some (map shown values, codes "next"))
    × (no_formula (map shown values) ≡ true)
read_record-build_csv_row_example =
    read_record-build_csv_row sample "descricao_ssa" ("numero_ssa" ∷ "anomalia" ∷ []) row
      (codes "next") row_built
