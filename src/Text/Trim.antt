-- ===== src/Text/Trim.antt =====
-- trimWhitespace of src/domain/WhitespaceTrim.h, and what trimming keeps.
use ssa_consulta_rapidacpp.Prelude.{
  ℕ, ◌≡◌, refl, Bool, true, false, ◌&&◌, [], ◌∷◌, not, all, is_empty, arith, if◌then◌else◌,
}
use ssa_consulta_rapidacpp.Text.{Text, is_space}

pub trim_left : Text → Text
trim_left [] = []
trim_left (c ∷ s) = let rest = trim_left s in if is_space c then rest else c ∷ s

pub trim_right : Text → Text
trim_right [] = []
trim_right (c ∷ s) = let rest = trim_right s in if is_space c && is_empty rest then [] else c ∷ rest

unfoldable pub trim : Text → Text
unfolding trim_left trim_right is_space
trim s = trim_right (trim_left s)

-- The first byte, and the last, is no space.
abbrev pub head_ok : Text → Bool
head_ok [] = true
head_ok (c ∷ s) = not (is_space c)

abbrev pub last_ok : Text → Bool
last_ok [] = true
last_ok (c ∷ []) = not (is_space c)
last_ok (c ∷ d ∷ s) = last_ok (d ∷ s)

abbrev pub IsTrimmed : Text → Type 0
IsTrimmed s = (head_ok s ≡ true) × (last_ok s ≡ true)

head_ok-trim_left : (s : Text) → head_ok (trim_left s) ≡ true
unfolding trim_left
head_ok-trim_left [] = refl
head_ok-trim_left (c ∷ s) = ground (arith, head_ok-trim_left s)

pub trim_left-head_ok : (s : Text) → head_ok s ≡ true → trim_left s ≡ s
unfolding trim_left
trim_left-head_ok [] h = refl
trim_left-head_ok (c ∷ s) h = ground arith

head_ok-trim_right : (s : Text) → head_ok s ≡ true → head_ok (trim_right s) ≡ true
unfolding trim_right
head_ok-trim_right [] h = refl
head_ok-trim_right (c ∷ s) h = ground arith

last_ok-cons : (c : ℕ) (s : Text) → last_ok s ≡ true → is_empty s ≡ false → last_ok (c ∷ s) ≡ true
last_ok-cons c [] h e = cc
last_ok-cons c (d ∷ s) h e = h

last_ok-trim_right : (s : Text) → last_ok (trim_right s) ≡ true
unfolding trim_right
last_ok-trim_right [] = refl
last_ok-trim_right (c ∷ s) = ground (arith, last_ok-trim_right s, last_ok-cons c (trim_right s))

pub trim_right-last_ok : (s : Text) → last_ok s ≡ true → trim_right s ≡ s
unfolding trim_right
trim_right-last_ok [] h = refl
trim_right-last_ok (c ∷ []) h = ground arith
trim_right-last_ok (c ∷ d ∷ s) h = ground (arith, trim_right-last_ok (d ∷ s) h)

pub trim-IsTrimmed : (s : Text) → IsTrimmed (trim s)
unfolding trim
trim-IsTrimmed s =
    (head_ok-trim_right (trim_left s) (head_ok-trim_left s), last_ok-trim_right (trim_left s))

pub trim-eq_self : (s : Text) → IsTrimmed s → trim s ≡ s
unfolding trim
trim-eq_self s h = rw (trim_left-head_ok s h.0) (trim_right-last_ok s h.1)

pub trim_idem : (s : Text) → trim (trim s) ≡ trim s
trim_idem s = trim-eq_self (trim s) (trim-IsTrimmed s)

pub trim-nil : trim [] ≡ []
unfolding trim
trim-nil = refl

-- A test that holds of every byte holds of every byte that is left.
all-trim_left : (p : ℕ → Bool) (s : Text) → all p s ≡ true → all p (trim_left s) ≡ true
unfolding trim_left
all-trim_left p [] h = refl
all-trim_left p (c ∷ s) h = ground (arith, all-trim_left p s)

all-trim_right : (p : ℕ → Bool) (s : Text) → all p s ≡ true → all p (trim_right s) ≡ true
unfolding trim_right
all-trim_right p [] h = refl
all-trim_right p (c ∷ s) h = ground (arith, all-trim_right p s)

pub all-trim : (p : ℕ → Bool) (s : Text) → all p s ≡ true → all p (trim s) ≡ true
unfolding trim
all-trim p s h = all-trim_right p (trim_left s) (all-trim_left p s h)

-- A leading byte that is no space makes a trimmed text of one whose end is clean.
pub trim-cons : (c : ℕ) (s : Text) → is_space c ≡ false → last_ok s ≡ true → trim (c ∷ s) ≡ c ∷ s
trim-cons c [] h l = trim-eq_self (c ∷ []) (ground arith, ground arith)
trim-cons c (d ∷ s) h l = trim-eq_self (c ∷ d ∷ s) (ground arith, l)
