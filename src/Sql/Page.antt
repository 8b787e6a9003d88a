-- ===== src/Sql/Page.antt =====
-- The page of a query: buildPagedSelectQuery of src/query/SqlQueryBuilder.cpp, and std::to_string.
use native.Mathlib.Nat.{le-div_iff_mul-le, mod-eq_of_lt}
use ssa_consulta_rapidacpp.Prelude.{
  ℕ, zero, suc, ◌*◌, ◌/◌, ◌^◌, ◌≤◌, ◌<◌, ◌≡◌, refl, sym, append-nil, ap, ◌∙◌, Bool, true, false, [],
  ◌∷◌, ◌++◌, none, some, arith, inl, inr, Bool-cases, ltb, ◌==◌, append_assoc,
}
use ssa_consulta_rapidacpp.Text.{Text, codes}
use ssa_consulta_rapidacpp.Number.{digit, digits_from, from_digits}
use ssa_consulta_rapidacpp.Number.Laws.{digits_from-nil, digits_from-digit}
use ssa_consulta_rapidacpp.Sql.{decimal_with, to_decimal}
use ssa_consulta_rapidacpp.Sql.Query.{
  SqlWhereClause, SsaPageRequest, max_size, build_select_query, build_paged_select_query,
}

abbrev tens : ℕ → ℕ
tens zero = 1
tens (suc places) = 10 * tens places

small_digit : (n : ℕ) (s : Text) → ltb n 10 ≡ true → digits_from 0 (digit n ∷ s) ≡ digits_from n s
small_digit n s h = digits_from-digit 0 n s ∙ ap (λ m. digits_from m s) (ground arith)

decimal_with-digits :
    (places n : ℕ) (s : Text)
    → n < tens (suc places)
    → digits_from 0 (decimal_with (suc places) n ++ s) ≡ digits_from n s
unfolding decimal_with
decimal_with-digits zero n s h = let e : ltb n 10 ≡ true = ground arith in rw e (small_digit n s e)
decimal_with-digits (suc places) n s h = elim (Bool-cases (ltb n 10)) [
  | inl e ↦ rw e (small_digit n s e)
  | inr e ↦ rw e (
      ap (digits_from 0) (append_assoc (decimal_with (suc places) (n / 10)) (digit n ∷ []) s)
      ∙ (decimal_with-digits places (n / 10) (digit n ∷ s) (omega arith)
          ∙ (digits_from-digit (n / 10) n s ∙ ap (λ m. digits_from m s) (omega arith))))
]

from_digits-last : (t : Text) (c : ℕ) → from_digits (t ++ c ∷ []) ≡ digits_from 0 (t ++ c ∷ [])
unfolding from_digits
from_digits-last [] c = refl
from_digits-last (d ∷ t) c = refl

from_digits-decimal_with :
    (places n : ℕ)
    → from_digits (decimal_with (suc places) n) ≡ digits_from 0 (decimal_with (suc places) n)
unfolding decimal_with
from_digits-decimal_with places n = elim (Bool-cases (ltb n 10)) [
  | inl e ↦ rw e (from_digits-last [] (digit n))
  | inr e ↦ rw e (from_digits-last (decimal_with places (n / 10)) (digit n))
]

-- The decimal text of a number is read back as the number.
pub from_digits-to_decimal : (n : ℕ) → n < 2 ^ 64 → from_digits (to_decimal n) ≡ some n
unfolding to_decimal
from_digits-to_decimal n h =
    from_digits-decimal_with 19 n
    ∙ (ap (digits_from 0) (sym (append-nil (decimal_with 20 n)))
        ∙ (decimal_with-digits 19 n [] (omega arith) ∙ digits_from-nil n))

in_range : (index size : ℕ) → 0 < size → index * size < 2 ^ 64 → ltb (max_size / size) index ≡ false
in_range index size p h =
    let le : index ≤ max_size / size = (le-div_iff_mul-le p).1 (omega (arith, h)) in ground arith

out_of_range :
    (index size : ℕ) → 0 < size → 2 ^ 64 ≤ index * size → ltb (max_size / size) index ≡ true
out_of_range index size p h = elim (Bool-cases (ltb (max_size / size) index)) [
  | inl e ↦ e
  | inr e ↦
      let le : index * size ≤ max_size = (le-div_iff_mul-le p).0 (ground arith) in
      absurd (omega arith)
]

-- A page whose size is a positive number of 64 bits asks for its size and for the rows from its index times its size on, both bound as
-- decimal texts from which the numbers are read back, when that product is a number of 64 bits; when it
-- is not, the query is refused, so that the product never wraps.
pub build_paged_select_query_lem :
    (request : SsaPageRequest) (name : Text) (clause : SqlWhereClause) (use_summary : Bool)
    (sql : Text)
    → build_select_query request name clause.sql use_summary ≡ some sql
    → 0 < request.page_size
    → request.page_size < 2 ^ 64
    → (request.page_index * request.page_size < 2 ^ 64
        → build_paged_select_query request name clause use_summary
            ≡ some (record {
              sql = sql ++ codes " LIMIT ? OFFSET ?";
              bindings =
                  clause.bindings
                  ++ (to_decimal request.page_size
                      ∷ to_decimal (request.page_index * request.page_size)
                      ∷ []);
            })
          × (from_digits (to_decimal request.page_size) ≡ some request.page_size)
          × (from_digits (to_decimal (request.page_index * request.page_size))
              ≡ some (request.page_index * request.page_size)))
      × (2 ^ 64 ≤ request.page_index * request.page_size
          → build_paged_select_query request name clause use_summary ≡ none)
unfolding build_paged_select_query
build_paged_select_query_lem request name clause use_summary sql e p size =
    let positive : (request.page_size == 0) ≡ false = ground arith in
    (
      λ h. (
        rw (e, positive, in_range request.page_index request.page_size p h, mod-eq_of_lt h) refl,
        from_digits-to_decimal request.page_size size,
        from_digits-to_decimal (request.page_index * request.page_size) h,
      ),
      λ h. rw (e, positive, out_of_range request.page_index request.page_size p h) refl,
    )
