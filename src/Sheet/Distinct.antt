-- ===== src/Sheet/Distinct.antt =====
-- Where the columns of a sheet go, columnMapFromHeader of src/infra/import/SsaSpreadsheetMapper.cpp.
use text.Mathlib.Text.{◌==◌ as str_eq}
use ssa_consulta_rapidacpp.Prelude.{
  ℕ, suc, ◌≡◌, refl, subst, not, ◌||◌, List, [], ◌∷◌, Option, none, some, String, arith, if_either,
  is_empty, get_or, ◌==◌,
}
use ssa_consulta_rapidacpp.Text.{Text}
use ssa_consulta_rapidacpp.Assoc.{string_eq, lookup}
use ssa_consulta_rapidacpp.Catalog.{has_string}
use ssa_consulta_rapidacpp.Sheet.{Qt}
use ssa_consulta_rapidacpp.Sheet.Headers.{
  canonical_column_for_header, positional_family, snapshot_header_kind,
}
use ssa_consulta_rapidacpp.Sheet.Columns.{
  HeaderColumnMap, ColumnState, set_ambiguous, has_header, destination_of, same_kind, is_preferred,
  set_column, record_fallback, replace_if_clear, second_date, add_owned, add_destination,
  add_column, after_cell, columns_from, no_columns, column_map_from_header,
}
use ssa_consulta_rapidacpp.Sheet.Places.{
  keys, DistinctKeys, IsPlaced, keys-set_column, same_keys-IsPlaced, added-IsPlaced,
}

abbrev Placed : ColumnState → Type 0
Placed st = IsPlaced st.mapped.columns st.destination_indexes

-- The destination stands at the owner's place.
abbrev OwnedAt : String → ℕ → ColumnState → Type 0
OwnedAt d owner st = Placed st × (lookup d st.destination_indexes ≡ some owner)

record_fallback-OwnedAt :
    (d : String) (owner : ℕ) (fallback : Option ℕ) (index : ℕ) (st : ColumnState)
    → OwnedAt d owner st
    → OwnedAt d owner (record_fallback fallback index st)
unfolding set_ambiguous
record_fallback-OwnedAt d owner none index st h = h
record_fallback-OwnedAt d owner (some found) index st h =
    if_either (OwnedAt d owner) (found == index) _ (set_ambiguous st) (λ e. h) (λ e. h)

replace_if_clear-Placed :
    (d : String) (owner index : ℕ) (st : ColumnState)
    → OwnedAt d owner st
    → Placed (replace_if_clear owner (index, d) st)
replace_if_clear-Placed d owner index st (p, l) =
    if_either Placed st.mapped.ambiguous st _ (λ e. p)
      (λ e.
        let (lt, at) = p.owned d owner l in
        same_keys-IsPlaced st.mapped.columns (set_column owner (index, d) st.mapped.columns)
          st.destination_indexes (keys-set_column owner index d st.mapped.columns lt at) p)

second_date-Placed :
    (header : List Text) (index : ℕ) (d : String) (owner : ℕ) (st : ColumnState)
    → OwnedAt d owner st
    → Placed (second_date header index d owner st)
unfolding set_ambiguous
second_date-Placed header index d owner st h =
    let existing_index = (get_or st.mapped.columns owner (0, "")).0 in
    let existing = snapshot_header_kind (get_or header existing_index []) in
    let incoming = snapshot_header_kind (get_or header index []) in
    let fallback = st.mapped.fallback_timestamp_column in
    if_either Placed (same_kind existing incoming) (set_ambiguous st) _ (λ e. h.0)
      (λ e.
        if_either Placed (is_preferred incoming existing)
          (replace_if_clear owner (index, d) (record_fallback fallback existing_index st))
          (record_fallback fallback index st)
          (λ f.
            replace_if_clear-Placed d owner index (record_fallback fallback existing_index st)
              (record_fallback-OwnedAt d owner fallback existing_index st h))
          (λ f. (record_fallback-OwnedAt d owner fallback index st h).0))

add_owned-Placed :
    (header : List Text) (index : ℕ) (d : String) (o : Option ℕ) (st : ColumnState)
    → lookup d st.destination_indexes ≡ o
    → Placed st
    → Placed (add_owned header index d o st)
unfolding set_ambiguous
add_owned-Placed header index d none st l h =
    added-IsPlaced st.mapped.columns st.destination_indexes index d l h
add_owned-Placed header index d (some owner) st l h =
    if_either Placed (str_eq d "data_cadastro") (second_date header index d owner st)
      (set_ambiguous st) (λ e. second_date-Placed header index d owner st (h, l)) (λ e. h)

add_destination-Placed :
    (header : List Text) (index : ℕ) (r : Option String × ColumnState)
    → Placed r.1
    → Placed (add_destination header index r)
unfolding set_ambiguous
add_destination-Placed header index (none, st) h = h
add_destination-Placed header index (some d, st) h =
    add_owned-Placed header index d (lookup d st.destination_indexes) st refl h

destination_of-Placed :
    (column : String) (cell : Text) (st : ColumnState)
    → Placed st
    → Placed (destination_of column cell st).1
unfolding destination_of
destination_of-Placed column cell st h =
    if_either (λ (r : Option String × ColumnState). Placed r.1)
      (is_empty (positional_family column)) _ _ (λ e. h)
      (λ e.
        if_either (λ (r : Option String × ColumnState). Placed r.1)
          (str_eq column "sn"
            || not (has_string column st.seen_canonical)
            || has_header column cell st.seen_canonical_header)
          _ _ (λ f. h) (λ f. h))

add_column-Placed :
    (header : List Text) (index : ℕ) (cell : Text) (column : String) (st : ColumnState)
    → Placed st
    → Placed (add_column header index cell column st)
unfolding add_column
add_column-Placed header index cell column st h =
    add_destination-Placed header index (destination_of column cell st)
      (destination_of-Placed column cell st h)

abbrev HasDistinct : Option HeaderColumnMap → Type 0
HasDistinct none = Unit
HasDistinct (some columns) = DistinctKeys (keys columns.columns)

after_cell-HasDistinct :
    (o : Option (Option String)) (header : List Text) (index : ℕ) (cell : Text) (st : ColumnState)
    (next : ColumnState → Option HeaderColumnMap)
    → Placed st
    → ((later : ColumnState) → Placed later → HasDistinct (next later))
    → HasDistinct (after_cell o header index cell st next)
after_cell-HasDistinct none header index cell st next h k = tt
after_cell-HasDistinct (some none) header index cell st next h k = k st h
after_cell-HasDistinct (some (some column)) header index cell st next h k =
    let grown = add_column header index cell column st in
    let p = add_column-Placed header index cell column st h in
    if_either HasDistinct grown.mapped.ambiguous (some grown.mapped) (next grown) (λ e. p.distinct)
      (λ e. k grown p)

columns_from-HasDistinct :
    (qt : Qt) (header cells : List Text) (index : ℕ) (st : ColumnState)
    → Placed st
    → HasDistinct (columns_from qt header cells index st)
unfolding columns_from
columns_from-HasDistinct qt header [] index st h = h.distinct
columns_from-HasDistinct qt header (cell ∷ cells) index st h =
    after_cell-HasDistinct (canonical_column_for_header qt cell) header index cell st
      (columns_from qt header cells (suc index)) h
      (λ later p. columns_from-HasDistinct qt header cells (suc index) later p)

no_columns-Placed : Placed no_columns
unfolding lookup has_string
no_columns-Placed = record {
  owned = λ d i l. absurd (ground arith);
  listed = λ d l. absurd (ground arith);
  distinct = tt;
}

-- However the headers of a sheet repeat, no two entries of the list of columns go to the same field of a
-- row. This is on the list alone, not on the fallback column of the registration date.
pub column_map_from_header_lem :
    (qt : Qt) (header : List Text) (columns : HeaderColumnMap)
    → column_map_from_header qt header ≡ some columns
    → DistinctKeys (keys columns.columns)
unfolding column_map_from_header
column_map_from_header_lem qt header columns e =
    subst HasDistinct e (columns_from-HasDistinct qt header header 0 no_columns no_columns-Placed)
