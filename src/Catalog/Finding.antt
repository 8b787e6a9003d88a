-- ===== src/Catalog/Finding.antt =====
-- Finding a column by its key.
use text.Mathlib.Text.{◌==◌ as str_eq}
use text.Mathlib.TextEquality.{eq_iff}
use ssa_consulta_rapidacpp.Prelude.{
  ◌≡◌, refl, ap, Bool, true, false, List, [], ◌∷◌, Option, none, some, String, arith, if◌then◌else◌,
  is_empty, all,
}
use ssa_consulta_rapidacpp.Assoc.{Assoc, string_eq, lookup, has_key, lookup-has_key}
use ssa_consulta_rapidacpp.Catalog.Columns.{ColumnDef, columns, default_visible_column_keys}
use ssa_consulta_rapidacpp.Catalog.{
  is_canonical_storage_key, add_columns, column_by_key, found_in, find, contains,
  visible_keys_or_default,
}

-- The first column of the table with the key.
unfoldable pub first_with : String → List ColumnDef → Option ColumnDef
first_with key [] = none
first_with key (column ∷ rest) = if str_eq column.key key then some column else first_with key rest

abbrev else_in : Option ColumnDef → Option ColumnDef → Option ColumnDef
else_in none other = other
else_in (some column) other = some column

lookup-add_columns :
    (key : String) (m r : Assoc String ColumnDef) (defs : List ColumnDef)
    → add_columns m defs ≡ some r
    → lookup key r ≡ else_in (lookup key m) (first_with key defs)
unfolding add_columns first_with lookup
lookup-add_columns key m r [] h = ground arith
lookup-add_columns key m r (column ∷ rest) h = ground (
  arith,
  eq_iff column.key key,
  lookup-has_key column.key m,
  lookup-add_columns key ((column.key, column) ∷ m) r rest,
)

abbrev has_map : Option (Assoc String ColumnDef) → Bool
has_map none = false
has_map (some m) = true

-- The keys of the table are canonical and all different.
column_by_key_lem : has_map column_by_key ≡ true
unfolding column_by_key add_columns is_canonical_storage_key has_key
column_by_key_lem = refl

found_lem :
    (key : String) (o : Option (Assoc String ColumnDef))
    → column_by_key ≡ o
    → found_in key o ≡ some (first_with key columns)
unfolding column_by_key first_with lookup
found_lem key none e = cc (column_by_key_lem)
found_lem key (some m) e = ap some (lookup-add_columns key [] m columns e)

-- Finding a column never throws: the map of the columns is built without a key that is not canonical
-- or occurs twice, and what is found for a key is the first column of the table with that key.
pub find_lem : (key : String) → find key ≡ some (first_with key columns)
unfolding find
find_lem key = found_lem key column_by_key refl

default_keys_found : all contains default_visible_column_keys ≡ true
unfolding contains find column_by_key add_columns is_canonical_storage_key has_key lookup
default_keys_found = refl

-- The keys that a list shows are never none and all have a column; asking for no keys gives the
-- default ones, and any other choice that is accepted is shown as it was asked for.
pub visible_keys_or_default_lem :
    (keys shown : List String)
    → visible_keys_or_default keys ≡ some shown
    → (is_empty shown ≡ false)
      × (all contains shown ≡ true)
      × (shown ≡ (if is_empty keys then default_visible_column_keys else keys))
      × (visible_keys_or_default [] ≡ some default_visible_column_keys)
unfolding visible_keys_or_default
visible_keys_or_default_lem [] shown h = ground (arith, default_keys_found)
visible_keys_or_default_lem (k ∷ keys) shown h = ground (arith, default_keys_found)
