-- ===== src/Sheet/Columns.antt =====
-- The columns of a sheet: headerRowIndex and columnMapFromHeader of
-- src/infra/import/SsaSpreadsheetMapper.cpp. The outer none stands for the std::logic_error of the table of
-- headers. The set of canonical keys with their headers is a list of pairs.
use text.Mathlib.Text.{◌==◌ as str_eq}
use ssa_consulta_rapidacpp.Prelude.{
  ℕ, zero, suc, ◌+◌, Bool, true, false, not, ◌&&◌, ◌||◌, List, [], ◌∷◌, ◌++◌, Option, none, some,
  String, if◌then◌else◌, is_empty, length, get_or, take, ltb, leb, ◌==◌,
}
use ssa_consulta_rapidacpp.Text.{Text, text_eq}
use ssa_consulta_rapidacpp.Assoc.{Assoc, string_eq, lookup, insert}
use ssa_consulta_rapidacpp.Catalog.{has_string}
use ssa_consulta_rapidacpp.Sheet.{Qt}
use ssa_consulta_rapidacpp.Sheet.Headers.{
  canonical_column_for_header, SnapshotHeaderKind, other, issue, emission, snapshot_header_kind,
  positional_family, HeaderColumns,
}

-- mapped.insert of a column into the set of a row's columns.
abbrev pub with_key : Option String → List String → List String
with_key none keys = keys
with_key (some key) keys = if has_string key keys then keys else key ∷ keys

abbrev pub and_keys : Option (Option String) → Option (List String) → Option (List String)
and_keys none keys = none
and_keys (some column) none = none
and_keys (some column) (some keys) = some (with_key column keys)

unfoldable pub row_keys : Qt → List Text → Option (List String)
row_keys qt [] = some []
row_keys qt (cell ∷ cells) = and_keys (canonical_column_for_header qt cell) (row_keys qt cells)

-- The best row so far: its index and its score.
abbrev pub better : ℕ → Option (List String) → ℕ × ℕ → Option (ℕ × ℕ)
better index none best = none
better index (some keys) (best_index, best_score) =
    if (has_string "numero_ssa" keys || has_string "descricao_ssa" keys)
      && ltb best_score (length keys)
    then some (index, length keys)
    else some (best_index, best_score)

abbrev pub continue_with : Option (ℕ × ℕ) → (ℕ × ℕ → Option (ℕ × ℕ)) → Option (ℕ × ℕ)
continue_with none next = none
continue_with (some best) next = next best

unfoldable pub best_row : Qt → List (List Text) → ℕ → ℕ × ℕ → Option (ℕ × ℕ)
best_row qt [] index best = some best
best_row qt (row ∷ rows) index best =
    continue_with (better index (row_keys qt row) best) (best_row qt rows (suc index))

abbrev pub scored : Option (ℕ × ℕ) → Option (Option ℕ)
scored none = none
scored (some (best_index, best_score)) = some (if ltb best_score 3 then none else some best_index)

unfoldable pub header_row_index : Qt → List (List Text) → Option (Option ℕ)
header_row_index qt rows = scored (best_row qt (take 15 rows) 0 (0, 0))

pub record HeaderColumnMap : Type 0 where
  pub columns : HeaderColumns
  pub fallback_timestamp_column : Option ℕ
  pub ambiguous : Bool

-- The result so far and the four containers of the loop.
pub record ColumnState : Type 0 where
  pub mapped : HeaderColumnMap
  pub seen_canonical : List String
  pub seen_canonical_header : List (String × Text)
  pub repeated_headers : Assoc String ℕ
  pub destination_indexes : Assoc String ℕ

unfoldable pub set_ambiguous : ColumnState → ColumnState
set_ambiguous st = record st { mapped = record st.mapped { ambiguous = true } }

unfoldable pub has_header : String → Text → List (String × Text) → Bool
has_header column header [] = false
has_header column header ((c, h) ∷ seen) =
    str_eq c column && text_eq h header || has_header column header seen

abbrev pub or_zero : Option ℕ → ℕ
or_zero none = 0
or_zero (some n) = n

-- Where a column goes, none where it occurs more often than its family has places.
abbrev pub family_place : List String → String → ColumnState → Option String × ColumnState
family_place family column st =
    let occurrence = or_zero (lookup column st.repeated_headers) in
    let counted = record st {
      repeated_headers = insert column (occurrence + 1) st.repeated_headers;
    } in
    (if leb (length family) occurrence then none else some (get_or family occurrence ""), counted)

unfoldable pub destination_of : String → Text → ColumnState → Option String × ColumnState
destination_of column header st =
    let family = positional_family column in
    let seen = has_string column st.seen_canonical in
    let seen_header = has_header column header st.seen_canonical_header in
    let entered = record st {
      seen_canonical = if seen then st.seen_canonical else column ∷ st.seen_canonical;
      seen_canonical_header =
          if seen_header
          then st.seen_canonical_header
          else (column, header) ∷ st.seen_canonical_header;
    } in
    if is_empty family
    then (some column, st)
    else if str_eq column "sn" || not seen || seen_header
    then family_place family column entered
    else (some (get_or family 0 ""), entered)

abbrev pub same_kind : SnapshotHeaderKind → SnapshotHeaderKind → Bool
same_kind other other = true
same_kind issue issue = true
same_kind emission emission = true
same_kind _ _ = false

abbrev pub is_preferred : SnapshotHeaderKind → SnapshotHeaderKind → Bool
is_preferred emission existing = true
is_preferred issue other = true
is_preferred issue issue = false
is_preferred issue emission = false
is_preferred other existing = false

unfoldable pub set_column : ℕ → ℕ × String → HeaderColumns → HeaderColumns
set_column i entry [] = []
set_column zero entry (c ∷ columns) = entry ∷ columns
set_column (suc i) entry (c ∷ columns) = c ∷ set_column i entry columns

-- recordFallback: the column of the second date.
abbrev pub record_fallback : Option ℕ → ℕ → ColumnState → ColumnState
record_fallback none index st = record st {
  mapped = record st.mapped { fallback_timestamp_column = some index };
}
record_fallback (some found) index st =
    if found == index
    then record st { mapped = record st.mapped { fallback_timestamp_column = some index } }
    else set_ambiguous st

abbrev pub replace_if_clear : ℕ → ℕ × String → ColumnState → ColumnState
replace_if_clear owner entry st = if st.mapped.ambiguous then st else record st {
  mapped = record st.mapped { columns = set_column owner entry st.mapped.columns };
}

abbrev pub second_date : List Text → ℕ → String → ℕ → ColumnState → ColumnState
second_date header index destination owner st =
    let existing_index = (get_or st.mapped.columns owner (0, "")).0 in
    let existing = snapshot_header_kind (get_or header existing_index []) in
    let incoming = snapshot_header_kind (get_or header index []) in
    if same_kind existing incoming
    then set_ambiguous st
    else if is_preferred incoming existing
    then replace_if_clear owner (index, destination)
        (record_fallback st.mapped.fallback_timestamp_column existing_index st)
    else record_fallback st.mapped.fallback_timestamp_column index st

abbrev pub add_owned : List Text → ℕ → String → Option ℕ → ColumnState → ColumnState
add_owned header index destination none st = record st {
  mapped = record st.mapped { columns = st.mapped.columns ++ (index, destination) ∷ [] };
  destination_indexes = insert destination (length st.mapped.columns) st.destination_indexes;
}
add_owned header index destination (some owner) st =
    if str_eq destination "data_cadastro"
    then second_date header index destination owner st
    else set_ambiguous st

abbrev pub add_destination : List Text → ℕ → Option String × ColumnState → ColumnState
add_destination header index (none, st) = set_ambiguous st
add_destination header index (some destination, st) =
    add_owned header index destination (lookup destination st.destination_indexes) st

unfoldable pub add_column : List Text → ℕ → Text → String → ColumnState → ColumnState
add_column header index cell column st =
    add_destination header index (destination_of column cell st)

abbrev pub unless_ambiguous :
    ColumnState → (ColumnState → Option HeaderColumnMap) → Option HeaderColumnMap
unless_ambiguous st next = if st.mapped.ambiguous then some st.mapped else next st

abbrev pub after_cell :
    Option (Option String)
    → List Text
    → ℕ
    → Text
    → ColumnState
    → (ColumnState → Option HeaderColumnMap)
    → Option HeaderColumnMap
after_cell none header index cell st next = none
after_cell (some none) header index cell st next = next st
after_cell (some (some column)) header index cell st next =
    unless_ambiguous (add_column header index cell column st) next

unfoldable pub columns_from : Qt → List Text → List Text → ℕ → ColumnState → Option HeaderColumnMap
columns_from qt header [] index st = some st.mapped
columns_from qt header (cell ∷ cells) index st =
    after_cell (canonical_column_for_header qt cell) header index cell st
      (columns_from qt header cells (suc index))

abbrev pub no_columns : ColumnState
no_columns = record {
  mapped = record { columns = []; fallback_timestamp_column = none; ambiguous = false };
  seen_canonical = [];
  seen_canonical_header = [];
  repeated_headers = [];
  destination_indexes = [];
}

unfoldable pub column_map_from_header : Qt → List Text → Option HeaderColumnMap
column_map_from_header qt header = columns_from qt header header 0 no_columns
