-- ===== src/Catalog.antt =====
-- The column catalog, src/domain/ColumnCatalog.cpp: finding a column by its key, the keys that a list
-- shows, and the orders and subsets of the columns that the filters use.
pub mod Columns
pub mod Finding
pub mod Orders
mod Samples
use text.Mathlib.Text.{◌==◌ as str_eq}
use ssa_consulta_rapidacpp.Prelude.{
  ℕ, Bool, true, false, ◌&&◌, ◌||◌, not, List, [], ◌∷◌, Option, none, some, String, leb, ◌==◌,
  if◌then◌else◌, is_empty, all,
}
use ssa_consulta_rapidacpp.Text.{Text, codes, text_eq}
use ssa_consulta_rapidacpp.Assoc.{Assoc, string_eq, lookup, has_key}
use ssa_consulta_rapidacpp.FilterToken.{
  TextFilterToken, TextFilterOperator, op_eq, parse_text_filter_tokens,
}
use ssa_consulta_rapidacpp.Catalog.Columns.{
  ColumnDef, columns, default_visible_column_keys, status_column_key, derived_count_column_key,
  excluded_status_codes,
}

abbrev is_storage_byte : ℕ → Bool
is_storage_byte c = leb b'a' c && leb c b'z' || leb b'0' c && leb c b'9' || c == b'_'

abbrev starts_small : Text → Bool
starts_small [] = false
starts_small (c ∷ key) = leb b'a' c && leb c b'z'

unfoldable pub is_canonical_storage_key : String → Bool
is_canonical_storage_key key = starts_small (codes key) && all is_storage_byte (codes key)

unfoldable pub is_derived_count_column : String → Bool
is_derived_count_column key = str_eq key derived_count_column_key

unfoldable pub keys_matching : (ColumnDef → Bool) → List ColumnDef → List String
keys_matching predicate [] = []
keys_matching predicate (column ∷ rest) =
    let keys = keys_matching predicate rest in if predicate column then column.key ∷ keys else keys

-- The loop of columnByKey; none where the code throws std::logic_error.
unfoldable pub add_columns :
    Assoc String ColumnDef → List ColumnDef → Option (Assoc String ColumnDef)
add_columns result [] = some result
add_columns result (column ∷ rest) =
    let added = add_columns ((column.key, column) ∷ result) rest in
    if not (is_canonical_storage_key column.key) || has_key column.key result then none else added

unfoldable pub column_by_key : Option (Assoc String ColumnDef)
column_by_key = add_columns [] columns

-- What find returns; the outer none where columnByKey throws.
abbrev found_in : String → Option (Assoc String ColumnDef) → Option (Option ColumnDef)
found_in key none = none
found_in key (some by_key) = some (lookup key by_key)

unfoldable pub find : String → Option (Option ColumnDef)
find key = found_in key column_by_key

abbrev is_found : Option (Option ColumnDef) → Bool
is_found none = false
is_found (some none) = false
is_found (some (some column)) = true

unfoldable pub contains : String → Bool
contains key = is_found (find key)

-- visibleKeysOrDefault; none where the code throws std::invalid_argument.
unfoldable pub visible_keys_or_default : List String → Option (List String)
visible_keys_or_default keys =
    let chosen = if is_empty keys then default_visible_column_keys else keys in
    if all contains chosen then some chosen else none

unfoldable pub storage_columns : List ColumnDef → List ColumnDef
storage_columns [] = []
storage_columns (column ∷ rest) =
    let stored = storage_columns rest in
    if not (is_derived_count_column column.key) then column ∷ stored else stored

unfoldable pub general_search_keys : List String
general_search_keys = keys_matching (λ column. column.general_search) columns

unfoldable pub has_string : String → List String → Bool
has_string key [] = false
has_string key (k ∷ keys) = str_eq k key || has_string key keys

-- keys.erase of the first place of the key.
unfoldable pub erase_first : String → List String → List String
erase_first key [] = []
erase_first key (k ∷ keys) = if str_eq k key then keys else k ∷ erase_first key keys

-- The status to the front, where it stands behind the front.
unfoldable pub status_first : List String → List String
status_first keys =
    if has_string status_column_key keys
    then status_column_key ∷ erase_first status_column_key keys
    else keys

unfoldable pub build_ordered_filter_column_keys : List ColumnDef → List String
build_ordered_filter_column_keys defs = status_first (
    keys_matching
      (λ column. not (str_eq column.key "id") && not (is_derived_count_column column.key)) defs)

unfoldable pub is_excluded : Text → List String → Bool
is_excluded value [] = false
is_excluded value (code ∷ rest) = text_eq (codes code) value || is_excluded value rest

unfoldable pub some_excluded : List TextFilterToken → Bool
some_excluded [] = false
some_excluded (token ∷ tokens) =
    op_eq token.filter_operator TextFilterOperator.equals
      && is_excluded token.value excluded_status_codes
    || some_excluded tokens

unfoldable pub contains_excluded_status_code : Text → Bool
contains_excluded_status_code expression =
    some_excluded (parse_text_filter_tokens expression).ordered
