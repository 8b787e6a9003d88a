-- ===== src/Csv/Formula.antt =====
-- The exported rows of records, and the apostrophe before formulas.
use ssa_consulta_rapidacpp.Prelude.{
  ◌≡◌, refl, Bool, true, false, List, [], ◌∷◌, ◌++◌, Option, none, some, String, arith, subst, all,
  map, not, Option-cases, inl, inr, Bool-cases,
}
use ssa_consulta_rapidacpp.Text.{Text, starts_with}
use ssa_consulta_rapidacpp.Csv.{
  is_spreadsheet_formula_prefix, SsaRecord, cons_value, values_of, build_csv_row, csv_header,
}
use ssa_consulta_rapidacpp.Csv.Reader.{read_record}
use ssa_consulta_rapidacpp.Csv.RoundTrip.{shown, read_record-csv_header}

apostrophe_lem : (value : Text) → is_spreadsheet_formula_prefix (b'\'' ∷ value) ≡ false
unfolding is_spreadsheet_formula_prefix starts_with
apostrophe_lem value = refl

shown_lem : (value : Text) → is_spreadsheet_formula_prefix (shown value) ≡ false
shown_lem value = elim (Bool-cases (is_spreadsheet_formula_prefix value)) [
  | inl formula ↦ rw formula (apostrophe_lem value)
  | inr plain ↦ rw plain plain
]

abbrev pub no_formula : List Text → Bool
no_formula cells = all (λ cell. not (is_spreadsheet_formula_prefix cell)) cells

no_formula-shown : (values : List Text) → no_formula (map shown values) ≡ true
no_formula-shown [] = refl
no_formula-shown (value ∷ values) = rw (shown_lem value) (no_formula-shown values)

abbrev IsCons : List Text → Type 0
IsCons values = (first : Text) × (rest : List Text) × (values ≡ first ∷ rest)

cons_value-IsCons :
    (value : Option Text) (rest : Option (List Text)) (values : List Text)
    → cons_value value rest ≡ some values
    → IsCons values
cons_value-IsCons none rest values h = cc
cons_value-IsCons (some value) none values h = cc
cons_value-IsCons (some value) (some rest) values h = (value, rest, ground arith)

values_of-IsCons :
    (r : SsaRecord) (column : String) (columns : List String) (values : List Text)
    → values_of r (column ∷ columns) ≡ some values
    → IsCons values
unfolding values_of
values_of-IsCons r column columns values = cons_value-IsCons _ _ values

read_record-values :
    (values : List Text) (text : Text)
    → IsCons values
    → read_record (csv_header values ++ text) ≡ some (map shown values, text)
read_record-values values text (first, rest, e) = rw e (read_record-csv_header first rest text)

-- A row that the export writes for a record is read back as the values of its columns, as the export
-- shows them, and no cell of it starts as a formula of a spreadsheet.
pub read_record-build_csv_row :
    (r : SsaRecord) (column : String) (columns : List String) (row text : Text)
    → build_csv_row r (column ∷ columns) ≡ some row
    → (values : List Text) × (values_of r (column ∷ columns) ≡ some values)
      × (read_record (row ++ text) ≡ some (map shown values, text))
      × (no_formula (map shown values) ≡ true)
unfolding build_csv_row csv_header
read_record-build_csv_row r column columns row text =
    elim (Option-cases (values_of r (column ∷ columns))) [
      | inl e ↦ rw e (λ h. cc)
      | inr (values, e) ↦ rw e (λ h.
          let line : csv_header values ≡ row = ground arith in
          let cons : IsCons values = values_of-IsCons r column columns values e in
          (
            values,
            refl,
            subst (λ t. read_record (t ++ text) ≡ some (map shown values, text)) line
                (read_record-values values text cons),
            no_formula-shown values,
          ))
    ]
