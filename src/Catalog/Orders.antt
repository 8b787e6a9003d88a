-- ===== src/Catalog/Orders.antt =====
-- The order of the filter columns, and the statuses that an expression of the filter excludes.
use text.Mathlib.Text.{◌==◌ as str_eq}
use text.Mathlib.TextEquality.{eq_iff}
use ssa_consulta_rapidacpp.Prelude.{
  suc, ◌≡◌, refl, Bool, true, false, not, ◌||◌, ◌&&◌, List, [], ◌∷◌, none, String, arith, length,
  Bool-cases, inl, inr,
}
use ssa_consulta_rapidacpp.Text.{Text, text_eq, codes}
use ssa_consulta_rapidacpp.Text.Equality.{text_eq_iff}
use ssa_consulta_rapidacpp.FilterToken.{
  TextFilterToken, TextFilterOperator, op_eq, parse_text_filter_tokens,
}
use ssa_consulta_rapidacpp.FilterToken.Invariant.{position, ValuesDistinct, Built, Built-IsIndexed}
use ssa_consulta_rapidacpp.FilterToken.Meaning.{operator_of, token_is}
use ssa_consulta_rapidacpp.Catalog.Columns.{ColumnDef, status_column_key}
use ssa_consulta_rapidacpp.Catalog.{
  keys_matching, is_derived_count_column, has_string, erase_first, status_first,
  build_ordered_filter_column_keys, is_excluded, some_excluded, contains_excluded_status_code,
}

has_string-erase_first :
    (key k : String) (keys : List String)
    → has_string key keys ≡ true
    → (str_eq key k || has_string k (erase_first key keys)) ≡ has_string k keys
unfolding has_string erase_first
has_string-erase_first key k [] h = cc
has_string-erase_first key k (j ∷ keys) h =
    ground (arith, eq_iff j key, eq_iff key k, eq_iff j k, has_string-erase_first key k keys)

length-erase_first :
    (key : String) (keys : List String)
    → has_string key keys ≡ true
    → suc (length (erase_first key keys)) ≡ length keys
unfolding has_string erase_first
length-erase_first key [] h = cc
length-erase_first key (j ∷ keys) h = ground (arith, length-erase_first key keys)

abbrev pub Reorders : List String → List String → Type 0
Reorders keys ordered =
    ((k : String) → has_string k ordered ≡ has_string k keys) × (length ordered ≡ length keys)

status_first-Reorders : (keys : List String) → Reorders keys (status_first keys)
unfolding status_first has_string
status_first-Reorders keys = elim (Bool-cases (has_string status_column_key keys)) [
  | inl found ↦ rw found (
    λ k. has_string-erase_first status_column_key k keys found,
    length-erase_first status_column_key keys found,
  )
  | inr missing ↦ rw missing (λ k. refl, refl)
]

abbrev pub head_is : String → List String → Bool
head_is key [] = false
head_is key (k ∷ keys) = str_eq k key

status_first-head :
    (keys : List String)
    → has_string status_column_key keys ≡ true
    → head_is status_column_key (status_first keys) ≡ true
unfolding status_first
status_first-head keys h = rw h refl

abbrev pub filter_keys : List ColumnDef → List String
filter_keys defs =
    keys_matching
      (λ column. not (str_eq column.key "id") && not (is_derived_count_column column.key)) defs

-- For every table of columns, the order of the filter columns holds the same keys as the table less
-- the id and the derived count, as many of them, and the status is in front where it is among them.
pub build_ordered_filter_column_keys_lem :
    (defs : List ColumnDef)
    → Reorders (filter_keys defs) (build_ordered_filter_column_keys defs)
      × (has_string status_column_key (filter_keys defs) ≡ true
          → head_is status_column_key (build_ordered_filter_column_keys defs) ≡ true)
unfolding build_ordered_filter_column_keys
build_ordered_filter_column_keys_lem defs =
    (status_first-Reorders (filter_keys defs), status_first-head (filter_keys defs))

-- Some token asks for the value with the operator equals.
unfoldable asks_for : Text → List TextFilterToken → Bool
asks_for v [] = false
asks_for v (t ∷ ts) =
    op_eq t.filter_operator TextFilterOperator.equals && text_eq v t.value || asks_for v ts

asks_for-absent :
    (v : Text) (ts : List TextFilterToken) → position v ts ≡ none → asks_for v ts ≡ false
unfolding asks_for position
asks_for-absent v [] h = refl
asks_for-absent v (t ∷ ts) h =
    ground (arith, text_eq_iff t.value v, text_eq_iff v t.value, asks_for-absent v ts)

asks_for-operator_of :
    (v : Text) (ts : List TextFilterToken)
    → ValuesDistinct ts
    → asks_for v ts ≡ token_is (operator_of v ts) TextFilterOperator.equals
unfolding asks_for operator_of
asks_for-operator_of v [] h = refl
asks_for-operator_of v (t ∷ ts) h = ground (
  arith,
  text_eq_iff t.value v,
  text_eq_iff v t.value,
  asks_for-absent v ts,
  asks_for-operator_of v ts,
)

some_excluded-asks_for :
    (ts : List TextFilterToken)
    → some_excluded ts
      ≡ (asks_for (codes "SCA") ts || (asks_for (codes "SES") ts || asks_for (codes "STE") ts))
unfolding some_excluded is_excluded asks_for
some_excluded-asks_for [] = refl
some_excluded-asks_for (t ∷ ts) = ground (arith, some_excluded-asks_for ts)

abbrev pub asked : Text → Text → Bool
asked expression code =
    token_is (operator_of code (parse_text_filter_tokens expression).ordered)
      TextFilterOperator.equals

-- An expression of the status filter names an excluded status exactly when the operator that it ends
-- up with for SCA, SES or STE is equals: a code that a later token negates does not count.
pub contains_excluded_status_code_lem :
    (expression : Text)
    → contains_excluded_status_code expression ≡ (
        asked expression (codes "SCA")
        || (asked expression (codes "SES") || asked expression (codes "STE")))
unfolding contains_excluded_status_code
contains_excluded_status_code_lem expression =
    let ts = (parse_text_filter_tokens expression).ordered in
    let distinct : ValuesDistinct ts =
      (Built-IsIndexed (Built.parsed expression)).values_distinct in
    rw
      (
        some_excluded-asks_for ts,
        asks_for-operator_of (codes "SCA") ts distinct,
        asks_for-operator_of (codes "SES") ts distinct,
        asks_for-operator_of (codes "STE") ts distinct,
      )
      refl
