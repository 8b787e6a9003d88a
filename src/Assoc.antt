-- ===== src/Assoc.antt =====
-- std::unordered_map and std::map as association lists over a key with a decided equality:
-- find, emplace and operator[] assignment, with the laws that clients use.
use Prim.Native.String.{String}
use text.Mathlib.Text.{◌==◌ as str_eq}
use text.Mathlib.TextEquality.{eq_iff}
use ssa_consulta_rapidacpp.Prelude.{
  ◌≡◌, refl, ◌↔◌, Bool, true, false, ◌||◌, List, [], ◌∷◌, Option, none, some, arith, if◌then◌else◌,
}
use ssa_consulta_rapidacpp.Text.{Text, text_eq}
use ssa_consulta_rapidacpp.Text.Equality.{text_eq_iff}

pub record Equality {ℓ} (Key : Type ℓ) : Type ℓ where
  pub same : Key → Key → Bool
  pub same_iff : (k j : Key) → (same k j ≡ true) ↔ (k ≡ j)

instance abbrev pub string_eq : Equality String
string_eq = record { same = str_eq; same_iff = eq_iff }

instance abbrev pub text_Eq : Equality Text
text_Eq = record { same = text_eq; same_iff = text_eq_iff }

abbrev pub Assoc {ℓ κ} : Type ℓ → Type κ → Type (ℓ ⊔ κ)
Assoc K V = List (K × V)

pub same_refl {ℓ} : {K : Type ℓ} ⦃e : Equality K⦄ (k : K) → e.same k k ≡ true
same_refl ⦃e⦄ k = (e.same_iff k k).1 refl

module _ {ℓ κ} {K : Type ℓ} {V : Type κ} ⦃e : Equality K⦄ where
  unfoldable pub lookup : K → Assoc K V → Option V
  lookup k [] = none
  lookup k ((j, v) ∷ m) = if e.same j k then some v else lookup k m

  -- m[k] = v
  unfoldable pub insert : K → V → Assoc K V → Assoc K V
  insert k v [] = (k, v) ∷ []
  insert k v ((j, w) ∷ m) = if e.same j k then (j, v) ∷ m else (j, w) ∷ insert k v m

  unfoldable pub has_key : K → Assoc K V → Bool
  has_key k [] = false
  has_key k ((j, v) ∷ m) = e.same j k || has_key k m

  -- The keys of a map occur once.
  abbrev pub KeysDistinct : Assoc K V → Type 0
  KeysDistinct [] = Unit
  KeysDistinct ((j, v) ∷ m) = (has_key j m ≡ false) × KeysDistinct m

  pub lookup-insert :
      (k j : K) (v : V) (m : Assoc K V)
      → lookup j (insert k v m) ≡ (if e.same k j then some v else lookup j m)
  unfolding lookup insert
  lookup-insert k j v [] = refl
  lookup-insert k j v ((i, w) ∷ m) =
      ground (arith, e.same_iff k j, e.same_iff i k, e.same_iff i j, lookup-insert k j v m)

  pub lookup-has_key : (k : K) (m : Assoc K V) → has_key k m ≡ false → lookup k m ≡ none
  unfolding lookup has_key
  lookup-has_key k [] h = refl
  lookup-has_key k ((j, v) ∷ m) h = ground (arith, lookup-has_key k m)

  pub has_key-insert :
      (k j : K) (v : V) (m : Assoc K V) → has_key j (insert k v m) ≡ (e.same k j || has_key j m)
  unfolding has_key insert
  has_key-insert k j v [] = refl
  has_key-insert k j v ((i, w) ∷ m) =
      ground (arith, e.same_iff k j, e.same_iff i k, e.same_iff i j, has_key-insert k j v m)

  pub KeysDistinct-insert :
      (k : K) (v : V) (m : Assoc K V) → KeysDistinct m → KeysDistinct (insert k v m)
  unfolding insert has_key
  KeysDistinct-insert k v [] h = (refl, tt)
  KeysDistinct-insert k v ((i, w) ∷ m) h =
      ground
        (arith, e.same_iff i k, e.same_iff k i, has_key-insert k i v m, KeysDistinct-insert k v m)
