-- ===== src/Number/Laws.antt =====
-- A printed field is read back as its number, and printed fields are ordered as their numbers.
use ssa_consulta_rapidacpp.Prelude.{
  ℕ, suc, ◌-◌, ◌+◌, ◌*◌, ◌/◌, ◌%◌, ◌≤◌, ◌<◌, ◌≡◌, refl, ap, ap₂, subst, ◌∙◌, Bool-cases, inl, inr,
  zero, true, false, ◌&&◌, ◌||◌, [], ◌∷◌, ◌++◌, Option, none, some, arith, ltb, ◌==◌, length,
}
use ssa_consulta_rapidacpp.Prelude.Int.{ℤ, pos, negsuc}
use ssa_consulta_rapidacpp.Text.{Text, is_digit, text_lt}
use ssa_consulta_rapidacpp.Number.{
  digits_from, from_digits, in_int, negative_in_int, parse_part, digit, pad2, pad4, field2, field4,
}

pub is_digit-digit : (n : ℕ) → is_digit (digit n) ≡ true
unfolding is_digit
is_digit-digit n = ground arith

pub digits_from-digit :
    (n m : ℕ) (s : Text) → digits_from n (digit m ∷ s) ≡ digits_from (n * 10 + m % 10) s
unfolding digits_from
digits_from-digit n m s = let e : digit m - 48 ≡ m % 10 = omega arith in rw (is_digit-digit m, e)

pub digits_from-nil : (n : ℕ) → digits_from n [] ≡ some n
unfolding digits_from
digits_from-nil n = refl

pub from_digits-digit : (m : ℕ) (s : Text) → from_digits (digit m ∷ s) ≡ digits_from (m % 10) s
unfolding from_digits
from_digits-digit m s = digits_from-digit 0 m s ∙ ap (λ n. digits_from n s) (omega arith)

digit-ne-minus : (m : ℕ) → (digit m == b'-') ≡ false
digit-ne-minus m = ground arith

parse_digits :
    (n m : ℕ) (s : Text)
    → digits_from (m % 10) s ≡ some n
    → n ≤ 9999
    → parse_part (digit m ∷ s) ≡ some (pos n)
unfolding parse_part in_int
parse_digits n m s h b = rw (digit-ne-minus m, from_digits-digit m s, h) (ground arith)

parse_negative :
    (n m : ℕ) (s : Text)
    → digits_from (m % 10) s ≡ some (suc n)
    → n < 9999
    → parse_part (b'-' ∷ digit m ∷ s) ≡ some (negsuc n)
unfolding parse_part negative_in_int
parse_negative n m s h b = rw (from_digits-digit m s, h) (ground arith)

-- The values that a slice of two, or of four, bytes can hold.
abbrev pub InTwo : ℤ → Type 0
InTwo (pos n) = n < 100
InTwo (negsuc n) = n < 9

abbrev pub InFour : ℤ → Type 0
InFour (pos n) = n < 10000
InFour (negsuc n) = n < 999

pub parse_part-field2 : (z : ℤ) → InTwo z → parse_part (field2 z) ≡ some z
unfolding field2
parse_part-field2 (pos n) h =
    parse_digits n (n / 10) (digit n ∷ [])
      (rw (digits_from-digit, digits_from-nil) (ap some (omega arith))) (omega arith)
parse_part-field2 (negsuc n) h =
    parse_negative n (n + 1) [] (rw digits_from-nil (ap some (omega arith))) (omega arith)

pub parse_part-field4 : (z : ℤ) → InFour z → parse_part (field4 z) ≡ some z
unfolding field4
parse_part-field4 (pos n) h =
    parse_digits n (n / 1000) (digit (n / 100) ∷ digit (n / 10) ∷ digit n ∷ [])
      (simp (digits_from-digit, digits_from-nil) (ap some (omega arith))) (omega arith)
parse_part-field4 (negsuc n) h =
    parse_negative n ((n + 1) / 100) (digit ((n + 1) / 10) ∷ digit (n + 1) ∷ [])
      (simp (digits_from-digit, digits_from-nil) (ap some (omega arith))) (omega arith)

abbrev grow : ℕ → ℕ → ℕ
grow zero b = b
grow (suc k) b = grow k (b * 10)

digits_from-cons :
    (n c : ℕ) (s : Text) {m : ℕ}
    → digits_from n (c ∷ s) ≡ some m
    → (c - 48 < 10) × (digits_from (n * 10 + (c - 48)) s ≡ some m)
unfolding digits_from is_digit
digits_from-cons n c s h = ground arith

-- A digit more multiplies the bound by ten.
digits_from-lt :
    (s : Text) (n b : ℕ) {m : ℕ} → digits_from n s ≡ some m → n < b → m < grow (length s) b
unfolding digits_from
digits_from-lt [] n b h k = ground arith
digits_from-lt (c ∷ s) n b h k =
    let (d, rest) = digits_from-cons n c s h in
    digits_from-lt s (n * 10 + (c - 48)) (b * 10) rest (omega arith)

parse_four_pos :
    (s : Text) (n : Option ℕ) (z : ℤ)
    → length s ≡ 4
    → digits_from 0 s ≡ n
    → in_int n ≡ some z
    → InFour z
unfolding in_int
parse_four_pos s none z l e h = cc
parse_four_pos s (some n) z l e h =
    let b : n < grow (length s) 1 = digits_from-lt s 0 1 e (omega arith) in
    let b4 : n < 10000 = subst (λ k. n < grow k 1) l b in ground arith

parse_four_neg :
    (s : Text) (n : Option ℕ) (z : ℤ)
    → length s ≡ 3
    → digits_from 0 s ≡ n
    → negative_in_int n ≡ some z
    → InFour z
unfolding negative_in_int
parse_four_neg s none z l e h = cc
parse_four_neg s (some zero) z l e h = ground arith
parse_four_neg s (some (suc n)) z l e h =
    let b : suc n < grow (length s) 1 = digits_from-lt s 0 1 e (omega arith) in
    let b4 : suc n < 1000 = subst (λ k. suc n < grow k 1) l b in ground arith

pub parse_four : (a b c d : ℕ) (z : ℤ) → parse_part (a ∷ b ∷ c ∷ d ∷ []) ≡ some z → InFour z
unfolding parse_part from_digits
parse_four a b c d z = elim (Bool-cases (a == b'-')) [
  | inl minus ↦ rw minus (parse_four_neg (b ∷ c ∷ d ∷ []) _ z refl refl)
  | inr plain ↦ rw plain (parse_four_pos (a ∷ b ∷ c ∷ d ∷ []) _ z refl refl)
]

pub parse_two : (c d : ℕ) (z : ℤ) → parse_part (c ∷ d ∷ []) ≡ some z → InTwo z
unfolding parse_part in_int negative_in_int from_digits digits_from is_digit
parse_two c d z h = ground arith

-- Printed fields compare as their numbers.
pub text_lt-pad2 :
    (a b : ℕ) (s t : Text)
    → a < 100
    → b < 100
    → text_lt (pad2 a ++ s) (pad2 b ++ t) ≡ (ltb a b || a == b && text_lt s t)
unfolding text_lt
text_lt-pad2 a b s t h k = ground arith

pad4-pad2 : (n : ℕ) → pad4 n ≡ pad2 (n / 100) ++ pad2 (n % 100)
pad4-pad2 n = ground arith

pub text_lt-pad4 :
    (a b : ℕ) (s t : Text)
    → a < 10000
    → b < 10000
    → text_lt (pad4 a ++ s) (pad4 b ++ t) ≡ (ltb a b || a == b && text_lt s t)
text_lt-pad4 a b s t h k =
    ap₂ (λ x y. text_lt (x ++ s) (y ++ t)) (pad4-pad2 a) (pad4-pad2 b)
    ∙ (text_lt-pad2 (a / 100) (b / 100) (pad2 (a % 100) ++ s) (pad2 (b % 100) ++ t) (omega arith)
          (omega arith)
        ∙ ground (arith, text_lt-pad2 (a % 100) (b % 100) s t))
