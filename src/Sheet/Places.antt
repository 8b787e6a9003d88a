-- ===== src/Sheet/Places.antt =====
-- The places of the columns of a sheet and the map that tells them, columnMapFromHeader of
-- src/infra/import/SsaSpreadsheetMapper.cpp.
use text.Mathlib.Text.{◌==◌ as str_eq}
use text.Mathlib.TextEquality.{eq_iff}
use ssa_consulta_rapidacpp.Prelude.{
  ℕ, zero, suc, ◌<◌, ◌≡◌, refl, sym, ap, ◌∙◌, subst, true, false, ◌||◌, List, [], ◌∷◌, ◌++◌, none,
  some, String, arith, inl, inr, Bool-cases, length, get_or,
}
use ssa_consulta_rapidacpp.Assoc.{
  Assoc, string_eq, lookup, insert, has_key, lookup-insert, has_key-insert,
}
use ssa_consulta_rapidacpp.Catalog.{has_string}
use ssa_consulta_rapidacpp.Sheet.Headers.{HeaderColumns}
use ssa_consulta_rapidacpp.Sheet.Columns.{set_column}

abbrev pub keys : HeaderColumns → List String
keys [] = []
keys ((index, key) ∷ columns) = key ∷ keys columns

abbrev pub DistinctKeys : List String → Type 0
DistinctKeys [] = Unit
DistinctKeys (key ∷ rest) = (has_string key rest ≡ false) × DistinctKeys rest

-- The map of the destinations tells where the columns stand, and knows all of them.
pub record IsPlaced (columns : HeaderColumns) (indexes : Assoc String ℕ) : Type 0 where
  pub owned :
      (d : String) (i : ℕ)
      → lookup d indexes ≡ some i
      → (i < length (keys columns)) × (get_or (keys columns) i "" ≡ d)
  pub listed : (d : String) → has_string d (keys columns) ≡ true → has_key d indexes ≡ true
  pub distinct : DistinctKeys (keys columns)

keys-append : (columns more : HeaderColumns) → keys (columns ++ more) ≡ keys columns ++ keys more
keys-append [] more = refl
keys-append ((i, k) ∷ columns) more = ap (λ (l : List String). k ∷ l) (keys-append columns more)

length-keys : (columns : HeaderColumns) → length (keys columns) ≡ length columns
length-keys [] = refl
length-keys ((i, k) ∷ columns) = ap suc (length-keys columns)

has_string-append :
    (d k : String) (l : List String) → has_string d (l ++ k ∷ []) ≡ (has_string d l || str_eq k d)
unfolding has_string
has_string-append d k [] = ground arith
has_string-append d k (x ∷ l) = ground (arith, has_string-append d k l)

DistinctKeys-append :
    (l : List String) (d : String)
    → DistinctKeys l
    → has_string d l ≡ false
    → DistinctKeys (l ++ d ∷ [])
unfolding has_string
DistinctKeys-append [] d h n = (refl, tt)
DistinctKeys-append (x ∷ l) d (h, r) n = (
  ground (arith, has_string-append x d l, eq_iff x d, eq_iff d x),
  DistinctKeys-append l d r (ground arith),
)

lookup-none : (d : String) (m : Assoc String ℕ) → lookup d m ≡ none → has_key d m ≡ false
unfolding lookup has_key
lookup-none d [] h = refl
lookup-none d ((k, v) ∷ m) h = ground (arith, lookup-none d m)

get_or-before :
    (l : List String) (d : String) (i : ℕ)
    → i < length l
    → get_or (l ++ d ∷ []) i "" ≡ get_or l i ""
get_or-before [] d i h = absurd (omega arith)
get_or-before (x ∷ l) d zero h = refl
get_or-before (x ∷ l) d (suc i) h = get_or-before l d i (omega arith)

get_or-at_end : (l : List String) (d : String) → get_or (l ++ d ∷ []) (length l) "" ≡ d
get_or-at_end [] d = refl
get_or-at_end (x ∷ l) d = get_or-at_end l d

length-at_end : (l : List String) (d : String) → length (l ++ d ∷ []) ≡ suc (length l)
length-at_end [] d = refl
length-at_end (x ∷ l) d = ap suc (length-at_end l d)

pub keys-set_column :
    (i index : ℕ) (d : String) (columns : HeaderColumns)
    → i < length (keys columns)
    → get_or (keys columns) i "" ≡ d
    → keys (set_column i (index, d) columns) ≡ keys columns
unfolding set_column
keys-set_column i index d [] h e = absurd (omega arith)
keys-set_column zero index d ((j, k) ∷ columns) h e = ap (λ (x : String). x ∷ keys columns) (sym e)
keys-set_column (suc i) index d ((j, k) ∷ columns) h e =
    ap (λ (l : List String). k ∷ l) (keys-set_column i index d columns (omega arith) e)

-- The columns matter for the map by their keys alone.
pub same_keys-IsPlaced :
    (a b : HeaderColumns) (indexes : Assoc String ℕ)
    → keys b ≡ keys a
    → IsPlaced a indexes
    → IsPlaced b indexes
same_keys-IsPlaced a b indexes e h = record {
  owned = λ d i l.
      subst (λ (ks : List String). (i < length ks) × (get_or ks i "" ≡ d)) (sym e) (h.owned d i l);
  listed = λ d l. h.listed d (subst (λ (ks : List String). has_string d ks ≡ true) e l);
  distinct = subst DistinctKeys (sym e) h.distinct;
}

owned_after :
    (columns : HeaderColumns) (indexes : Assoc String ℕ) (d e : String) (i : ℕ)
    → IsPlaced columns indexes
    → lookup e (insert d (length columns) indexes) ≡ some i
    → (i < length (keys columns ++ d ∷ [])) × (get_or (keys columns ++ d ∷ []) i "" ≡ e)
owned_after columns indexes d e i h l = elim (Bool-cases (str_eq d e)) [
  | inl same ↦
      let f : i ≡ length (keys columns) =
        ground (arith, lookup-insert d e (length columns) indexes, length-keys columns) in
      let g : d ≡ e = (eq_iff d e).0 same in
      (
        omega (arith, f, length-at_end (keys columns) d),
        ap (λ (k : ℕ). get_or (keys columns ++ d ∷ []) k "") f
            ∙ (get_or-at_end (keys columns) d ∙ g),
      )
  | inr other ↦
      let f : lookup e indexes ≡ some i =
        ground (arith, lookup-insert d e (length columns) indexes) in
      let (lt, at) = h.owned e i f in
      (omega (arith, lt, length-at_end (keys columns) d), get_or-before (keys columns) d i lt ∙ at)
]

pub added-IsPlaced :
    (columns : HeaderColumns) (indexes : Assoc String ℕ) (index : ℕ) (d : String)
    → lookup d indexes ≡ none
    → IsPlaced columns indexes
    → IsPlaced (columns ++ (index, d) ∷ []) (insert d (length columns) indexes)
added-IsPlaced columns indexes index d new h =
    let grown = keys-append columns ((index, d) ∷ []) in
    let absent = lookup-none d indexes new in
    record {
      owned = λ e i l.
          subst (λ (ks : List String). (i < length ks) × (get_or ks i "" ≡ e)) (sym grown)
            (owned_after columns indexes d e i h l);
      listed = λ e l. ground (
        arith,
        has_key-insert d e (length columns) indexes,
        has_string-append e d (keys columns),
        grown,
        h.listed e,
        ap (has_string e) grown,
      );
      distinct =
          subst DistinctKeys (sym grown)
            (DistinctKeys-append (keys columns) d h.distinct (ground (arith, h.listed d)));
    }
