-- ===== src/Sheet/Reading.antt =====
-- What the fields of a row read in its cells, src/infra/import/SsaSpreadsheetMapper.cpp.
use text.Mathlib.Text.{◌==◌ as str_eq}
use text.Mathlib.TextEquality.{eq_iff}
use ssa_consulta_rapidacpp.Prelude.{
  ℕ, ◌≡◌, refl, ap, sym, ◌∙◌, ◌⊎◌, inl, inr, true, false, ◌&&◌, List, [], ◌∷◌, Option, none, some,
  String, arith, if_either, Bool-cases, if◌then◌else◌, is_empty, All, length, get_or, leb, ltb,
}
use ssa_consulta_rapidacpp.Text.{Text}
use ssa_consulta_rapidacpp.Text.Trim.{trim}
use ssa_consulta_rapidacpp.Assoc.{string_eq, lookup, has_key}
use ssa_consulta_rapidacpp.Catalog.{has_string}
use ssa_consulta_rapidacpp.ImportRow.{Values}
use ssa_consulta_rapidacpp.Resolver.{row_value}
use ssa_consulta_rapidacpp.Sheet.{Qt}
use ssa_consulta_rapidacpp.Sheet.Headers.{HeaderColumns}
use ssa_consulta_rapidacpp.Sheet.Columns.{HeaderColumnMap}
use ssa_consulta_rapidacpp.Sheet.Places.{keys, DistinctKeys}
use ssa_consulta_rapidacpp.Sheet.Rows.{
  cell_value, emplace, emplace_if_some, map_cells, add_fallback, cells_row,
}

-- What a column reads: nothing behind the end of the row.
unfoldable pub read_cell : Qt → List Text → ℕ × String → Text
read_cell qt cells (index, key) =
    if leb (length cells) index then [] else cell_value qt key (trim (get_or cells index []))

emplace-row_value :
    (k key : String) (value : Text) (row : Values)
    → str_eq key k ≡ false
    → (row_value (emplace_if_some key value row) k ≡ row_value row k)
      × (has_key k (emplace_if_some key value row) ≡ has_key k row)
unfolding row_value lookup has_key emplace_if_some emplace
emplace-row_value k key value row h =
    if_either (λ (r : Values). (row_value r k ≡ row_value row k) × (has_key k r ≡ has_key k row))
      (is_empty value) row _ (λ e. (refl, refl))
      (λ e.
        if_either
          (λ (r : Values). (row_value r k ≡ row_value row k) × (has_key k r ≡ has_key k row))
          (has_key key row) row _ (λ f. (refl, refl)) (λ f. (rw h refl, rw h refl)))

absent-row_value : (k : String) (row : Values) → has_key k row ≡ false → row_value row k ≡ []
unfolding row_value lookup has_key
absent-row_value k [] h = refl
absent-row_value k ((j, v) ∷ row) h =
    let a : str_eq j k ≡ false = ground arith in rw a (absent-row_value k row (ground arith))

emplaced-row_value :
    (key : String) (value : Text) (row : Values)
    → has_key key row ≡ false
    → row_value (emplace_if_some key value row) key ≡ value
unfolding row_value lookup emplace_if_some emplace
emplaced-row_value key [] row h = absent-row_value key row h
emplaced-row_value key (c ∷ value) row h =
    let same : str_eq key key ≡ true = (eq_iff key key).1 refl in rw (h, same) refl

abbrev after_column : Qt → List Text → ℕ × String → Values → Values
after_column qt cells (index, key) row =
    if leb (length cells) index
    then row
    else emplace_if_some key (cell_value qt key (trim (get_or cells index []))) row

after_column-other :
    (qt : Qt) (cells : List Text) (column : ℕ × String) (row : Values) (k : String)
    → str_eq column.1 k ≡ false
    → (row_value (after_column qt cells column row) k ≡ row_value row k)
      × (has_key k (after_column qt cells column row) ≡ has_key k row)
after_column-other qt cells (index, key) row k h =
    if_either (λ (r : Values). (row_value r k ≡ row_value row k) × (has_key k r ≡ has_key k row))
      (leb (length cells) index) row _ (λ e. (refl, refl)) (λ e. emplace-row_value k key _ row h)

after_column-reads :
    (qt : Qt) (cells : List Text) (column : ℕ × String) (row : Values)
    → has_key column.1 row ≡ false
    → row_value (after_column qt cells column row) column.1 ≡ read_cell qt cells column
unfolding read_cell
after_column-reads qt cells (index, key) row h = elim (Bool-cases (leb (length cells) index)) [
  | inl e ↦ rw e (absent-row_value key row h)
  | inr e ↦ rw e (emplaced-row_value key _ row h)
]

map_cells-other :
    (qt : Qt) (cells : List Text) (columns : HeaderColumns) (row : Values) (k : String)
    → has_string k (keys columns) ≡ false
    → row_value (map_cells qt cells columns row) k ≡ row_value row k
unfolding map_cells has_string
map_cells-other qt cells [] row k h = refl
map_cells-other qt cells ((index, key) ∷ columns) row k h =
    map_cells-other qt cells columns (after_column qt cells (index, key) row) k (ground arith)
    ∙ (after_column-other qt cells (index, key) row k (ground arith)).0

abbrev Fresh : Values → HeaderColumns → Type 0
Fresh row columns = All (λ (column : ℕ × String). has_key column.1 row ≡ false) columns

after_column-Fresh :
    (qt : Qt) (cells : List Text) (column : ℕ × String) (row : Values) (columns : HeaderColumns)
    → has_string column.1 (keys columns) ≡ false
    → Fresh row columns
    → Fresh (after_column qt cells column row) columns
unfolding has_string
after_column-Fresh qt cells column row [] d h = tt
after_column-Fresh qt cells column row ((i, k) ∷ columns) d (p, h) =
    let other : str_eq column.1 k ≡ false = ground (arith, eq_iff column.1 k, eq_iff k column.1) in
    (
      (after_column-other qt cells column row k other).1 ∙ p,
      after_column-Fresh qt cells column row columns (ground arith) h,
    )

map_cells-reads :
    (qt : Qt) (cells : List Text) (columns : HeaderColumns) (row : Values)
    → DistinctKeys (keys columns)
    → Fresh row columns
    → All
        (λ (column : ℕ × String).
          row_value (map_cells qt cells columns row) column.1 ≡ read_cell qt cells column)
        columns
unfolding map_cells
map_cells-reads qt cells [] row d h = tt
map_cells-reads qt cells ((index, key) ∷ columns) row (a, d) (p, h) = (
  map_cells-other qt cells columns (after_column qt cells (index, key) row) key a
      ∙ after_column-reads qt cells (index, key) row p,
  map_cells-reads qt cells columns (after_column qt cells (index, key) row) d
      (after_column-Fresh qt cells (index, key) row columns a h),
)

Fresh-nil : (columns : HeaderColumns) → Fresh [] columns
unfolding has_key
Fresh-nil [] = tt
Fresh-nil (column ∷ columns) = (refl, Fresh-nil columns)

-- A field reads its column; only a registration date that its column leaves empty may be another.
abbrev pub Reads : Qt → List Text → Values → ℕ × String → Type 0
Reads qt cells row column =
    (row_value row column.1 ≡ read_cell qt cells column)
    ⊎ ((column.1 ≡ "data_cadastro") × (read_cell qt cells column ≡ []))

fallback-Reads :
    (qt : Qt) (fallback : Option ℕ) (cells : List Text) (row : Values) (column : ℕ × String)
    → row_value row column.1 ≡ read_cell qt cells column
    → Reads qt cells (add_fallback fallback cells row) column
fallback-Reads qt none cells row column h = inl h
fallback-Reads qt (some place) cells row column h =
    elim (Bool-cases (is_empty (row_value row "data_cadastro") && ltb place (length cells))) [
      | inr e ↦ rw e (inl h)
      | inl e ↦ elim (Bool-cases (str_eq "data_cadastro" column.1)) [
        | inr f ↦ rw e (inl ((emplace-row_value column.1 "data_cadastro" _ row f).0 ∙ h))
        | inl f ↦
            let same : "data_cadastro" ≡ column.1 = (eq_iff "data_cadastro" column.1).0 f in
            let bare : row_value row "data_cadastro" ≡ [] = ground (arith, e) in
            inr (sym same, sym h ∙ (ap (row_value row) (sym same) ∙ bare))
      ]
    ]

All-Reads :
    (qt : Qt) (fallback : Option ℕ) (cells : List Text) (row : Values) (columns : HeaderColumns)
    → All (λ (column : ℕ × String). row_value row column.1 ≡ read_cell qt cells column) columns
    → All (Reads qt cells (add_fallback fallback cells row)) columns
All-Reads qt fallback cells row [] h = tt
All-Reads qt fallback cells row (column ∷ columns) (p, h) =
    (fallback-Reads qt fallback cells row column p, All-Reads qt fallback cells row columns h)

pub cells_row-Reads :
    (qt : Qt) (columns : HeaderColumnMap) (cells : List Text)
    → DistinctKeys (keys columns.columns)
    → All (Reads qt cells (cells_row qt columns cells)) columns.columns
unfolding cells_row
cells_row-Reads qt columns cells d =
    All-Reads qt columns.fallback_timestamp_column cells (map_cells qt cells columns.columns [])
      columns.columns (map_cells-reads qt cells columns.columns [] d (Fresh-nil columns.columns))
