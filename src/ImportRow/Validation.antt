-- ===== src/ImportRow/Validation.antt =====
-- What normalizing a number guarantees.
use ssa_consulta_rapidacpp.Prelude.{
  ℕ, ◌≡◌, refl, ◌⊎◌, true, false, [], ◌∷◌, arith, all, length, inl, inr,
}
use ssa_consulta_rapidacpp.Text.{Text, text_eq, is_space, is_digit}
use ssa_consulta_rapidacpp.Text.Trim.{trim-nil, trim, trim-eq_self, last_ok, head_ok}
use ssa_consulta_rapidacpp.Assoc.{string_eq}
use ssa_consulta_rapidacpp.ImportRow.{
  drop_point_zero, remove_spaces, drop_year_dash, normalize_number,
}

digit-not_space : (c : ℕ) → is_digit c ≡ true → is_space c ≡ false
unfolding is_digit is_space
digit-not_space c h = ground arith

digits-last_ok : (s : Text) → all is_digit s ≡ true → last_ok s ≡ true
digits-last_ok [] h = refl
digits-last_ok (c ∷ []) h = ground (arith, digit-not_space c)
digits-last_ok (c ∷ d ∷ s) h = digits-last_ok (d ∷ s) (ground arith)

digits-head_ok : (s : Text) → all is_digit s ≡ true → head_ok s ≡ true
digits-head_ok [] h = refl
digits-head_ok (c ∷ s) h = ground (arith, digit-not_space c)

drop_point_zero-digits : (s : Text) → all is_digit s ≡ true → drop_point_zero s ≡ s
unfolding drop_point_zero text_eq is_digit
drop_point_zero-digits [] h = refl
drop_point_zero-digits (c ∷ s) h = ground (arith, drop_point_zero-digits s)

remove_spaces-digits : (s : Text) → all is_digit s ≡ true → remove_spaces s ≡ s
unfolding remove_spaces
remove_spaces-digits [] h = refl
remove_spaces-digits (c ∷ s) h = ground (arith, digit-not_space c, remove_spaces-digits s)

drop_year_dash-nine : (s : Text) → length s ≡ 9 → drop_year_dash s ≡ s
unfolding drop_year_dash
drop_year_dash-nine s h = rw h refl

-- Nine digits are their own normal form.
normalize_number-nine : (s : Text) → length s ≡ 9 → all is_digit s ≡ true → normalize_number s ≡ s
unfolding normalize_number
normalize_number-nine s n d =
    rw
      (
        trim-eq_self s (digits-head_ok s d, digits-last_ok s d),
        drop_point_zero-digits s d,
        remove_spaces-digits s d,
        drop_year_dash-nine s n,
        n,
        d,
      )
      refl

abbrev pub IsNumber : Text → Type 0
IsNumber s = (s ≡ []) ⊎ ((length s ≡ 9) × (all is_digit s ≡ true))

pub normalize_number-IsNumber : (v : Text) → IsNumber (normalize_number v)
unfolding normalize_number
normalize_number-IsNumber v = ground arith

normalize_number-nil : normalize_number [] ≡ []
unfolding normalize_number trim drop_point_zero remove_spaces drop_year_dash
normalize_number-nil = refl

-- A normalized number is empty or nine digits, and normalizing it again leaves it as it is.
pub normalize_number_lem :
    (v : Text)
    → IsNumber (normalize_number v) × (normalize_number (normalize_number v) ≡ normalize_number v)
normalize_number_lem v =
    let form = normalize_number-IsNumber v in
    (
      form,
      elim form [
        | inl e ↦ rw e normalize_number-nil
        | inr p ↦ normalize_number-nine (normalize_number v) p.0 p.1
      ],
    )

pub trim-normalize_number : (v : Text) → trim (normalize_number v) ≡ normalize_number v
trim-normalize_number v = elim (normalize_number-IsNumber v) [
  | inl e ↦ rw e trim-nil
  | inr p ↦
      trim-eq_self (normalize_number v)
        (digits-head_ok (normalize_number v) p.1, digits-last_ok (normalize_number v) p.1)
]
