-- ===== src/FilterToken/Meaning.antt =====
-- A token set read as an ordered finite map from values to operators.
use ssa_consulta_rapidacpp.Prelude.{
  ℕ, zero, suc, ◌≡◌, refl, sym, Bool, true, false, not, ◌&&◌, ◌||◌, List, [], ◌∷◌, ◌++◌, Option,
  none, some, is_empty, arith, if◌then◌else◌, inl, inr, Bool-cases,
}
use ssa_consulta_rapidacpp.Text.{Text, text_eq}
use ssa_consulta_rapidacpp.Text.Equality.{text_eq_iff}
use ssa_consulta_rapidacpp.Text.Trim.{trim, trim_idem}
use ssa_consulta_rapidacpp.Assoc.{text_Eq, lookup}
use ssa_consulta_rapidacpp.FilterToken.{
  TextFilterOperator, TextFilterToken, TextFilterTokenSet, TextFilterUiMode, op_eq, set_operator,
  operator_is, append_or_replace_at, append_or_replace_by_value, add_text_filter_value,
  has_operator, text_filter_ui_mode_for_tokens,
}
use ssa_consulta_rapidacpp.FilterToken.Invariant.{position, IsIndexed}

-- The operator that the set holds for a value.
unfoldable pub operator_of : Text → List TextFilterToken → Option TextFilterOperator
operator_of v [] = none
operator_of v (t ∷ ts) = if text_eq t.value v then some t.filter_operator else operator_of v ts

op_eq→eq : (a b : TextFilterOperator) → op_eq a b ≡ true → a ≡ b
op_eq→eq a b h = ground arith

pub operator_of-absent :
    (v : Text) (ts : List TextFilterToken) → position v ts ≡ none → operator_of v ts ≡ none
unfolding position operator_of
operator_of-absent v [] h = refl
operator_of-absent v (t ∷ ts) h = ground (arith, operator_of-absent v ts)

operator_of-present :
    (v : Text) (ts : List TextFilterToken) (i : ℕ) (op : TextFilterOperator)
    → position v ts ≡ some i
    → operator_is ts i op ≡ true
    → operator_of v ts ≡ some op
unfolding position operator_of operator_is
operator_of-present v [] i op h k = cc
operator_of-present v (t ∷ ts) zero op h k = ground (arith, op_eq→eq t.filter_operator op)
operator_of-present v (t ∷ ts) (suc i) op h k = ground (arith, operator_of-present v ts i op)

operator_of-set :
    (v w : Text) (ts : List TextFilterToken) (i : ℕ) (op : TextFilterOperator)
    → position v ts ≡ some i
    → operator_of w (set_operator ts i op) ≡ (if text_eq v w then some op else operator_of w ts)
unfolding position operator_of set_operator
operator_of-set v w [] i op h = cc
operator_of-set v w (t ∷ ts) zero op h =
    ground (arith, text_eq_iff t.value v, text_eq_iff v w, text_eq_iff t.value w)
operator_of-set v w (t ∷ ts) (suc i) op h = ground (
  arith,
  text_eq_iff t.value v,
  text_eq_iff v w,
  text_eq_iff t.value w,
  operator_of-set v w ts i op,
)

operator_of-append_last :
    (v w : Text) (op : TextFilterOperator) (ts : List TextFilterToken)
    → operator_of v ts ≡ none
    → operator_of w (ts ++ record { filter_operator = op; value = v } ∷ [])
      ≡ (if text_eq v w then some op else operator_of w ts)
unfolding operator_of
operator_of-append_last v w op [] h = refl
operator_of-append_last v w op (t ∷ ts) h = ground (
  arith,
  text_eq_iff t.value v,
  text_eq_iff v w,
  text_eq_iff t.value w,
  operator_of-append_last v w op ts,
)

append_or_replace_at-operator_of :
    (tokens : TextFilterTokenSet) (v w : Text) (op : TextFilterOperator) (found : Option ℕ)
    → position v tokens.ordered ≡ found
    → operator_of w (append_or_replace_at tokens v op found).0.ordered
      ≡ (if text_eq v w then some op else operator_of w tokens.ordered)
unfolding append_or_replace_at
append_or_replace_at-operator_of tokens v w op (some i) h = ground (
  arith,
  operator_of-set v w tokens.ordered i op,
  operator_of-present v tokens.ordered i op,
  text_eq_iff v w,
)
append_or_replace_at-operator_of tokens v w op none h =
    operator_of-append_last v w op tokens.ordered (operator_of-absent v tokens.ordered h)

-- Adding a value to an indexed set binds the trimmed value to the operator and leaves every other
-- value's operator as it was; a value that is blank changes nothing.
pub operator_of-add :
    (tokens : TextFilterTokenSet) (value w : Text) (op : TextFilterOperator)
    → IsIndexed tokens
    → operator_of w (add_text_filter_value tokens value op).0.ordered ≡ (
        if not (is_empty (trim value)) && text_eq (trim value) w
        then some op
        else operator_of w tokens.ordered)
unfolding add_text_filter_value append_or_replace_by_value
operator_of-add tokens value w op h =
    rw (trim_idem value) (elim (Bool-cases (is_empty (trim value))) [
      | inl gone ↦ rw gone
      | inr there ↦ rw there (
          append_or_replace_at-operator_of tokens (trim value) w op _
            (sym (h.index_lem (trim value))))
    ])

abbrev pub token_is : Option TextFilterOperator → TextFilterOperator → Bool
token_is none op = false
token_is (some o) op = op_eq o op

operator_is-token_is :
    (v : Text) (ts : List TextFilterToken) (i : ℕ) (op : TextFilterOperator)
    → position v ts ≡ some i
    → operator_is ts i op ≡ token_is (operator_of v ts) op
unfolding position operator_of operator_is
operator_is-token_is v [] i op h = cc
operator_is-token_is v (t ∷ ts) zero op h = ground arith
operator_is-token_is v (t ∷ ts) (suc i) op h = ground (arith, operator_is-token_is v ts i op)

append_or_replace_at-changed :
    (tokens : TextFilterTokenSet) (v : Text) (op : TextFilterOperator) (found : Option ℕ)
    → position v tokens.ordered ≡ found
    → (append_or_replace_at tokens v op found).1 ≡ not (token_is (operator_of v tokens.ordered) op)
unfolding append_or_replace_at
append_or_replace_at-changed tokens v op (some i) h =
    rw (← operator_is-token_is v tokens.ordered i op h) (ground arith)
append_or_replace_at-changed tokens v op none h = rw (operator_of-absent v tokens.ordered h)

append_or_replace_at-unchanged :
    (tokens : TextFilterTokenSet) (v : Text) (op : TextFilterOperator) (found : Option ℕ)
    → (append_or_replace_at tokens v op found).1 ≡ false
    → (append_or_replace_at tokens v op found).0 ≡ tokens
unfolding append_or_replace_at
append_or_replace_at-unchanged tokens v op (some i) h = ground arith
append_or_replace_at-unchanged tokens v op none h = cc

-- The answer of an addition says whether the set changed: it is true exactly when the value is not
-- blank and the set does not hold it under that operator already.
pub changed-add :
    (tokens : TextFilterTokenSet) (value : Text) (op : TextFilterOperator)
    → IsIndexed tokens
    → (add_text_filter_value tokens value op).1
      ≡ (not (is_empty (trim value)) && not (token_is (operator_of (trim value) tokens.ordered) op))
unfolding add_text_filter_value append_or_replace_by_value
changed-add tokens value op h = rw (trim_idem value) (elim (Bool-cases (is_empty (trim value))) [
  | inl gone ↦ rw gone
  | inr there ↦
      rw there
        (append_or_replace_at-changed tokens (trim value) op _ (sym (h.index_lem (trim value))))
])

-- When an addition answers false the set is the one that was given, index included.
pub unchanged-add :
    (tokens : TextFilterTokenSet) (value : Text) (op : TextFilterOperator)
    → (add_text_filter_value tokens value op).1 ≡ false
    → (add_text_filter_value tokens value op).0 ≡ tokens
unfolding add_text_filter_value append_or_replace_by_value
unchanged-add tokens value op = elim (Bool-cases (is_empty (trim (trim value)))) [
  | inl gone ↦ rw gone (λ _. refl)
  | inr there ↦ rw there (
      append_or_replace_at-unchanged tokens (trim (trim value)) op
        (lookup (trim (trim value)) tokens.index_by_value))
]

unfoldable pub all_are : TextFilterOperator → List TextFilterToken → Bool
all_are op [] = true
all_are op (t ∷ ts) = op_eq t.filter_operator op && all_are op ts

all_are-different :
    (ts : List TextFilterToken)
    → all_are TextFilterOperator.different ts ≡ not (has_operator TextFilterOperator.equals ts)
unfolding all_are has_operator
all_are-different [] = refl
all_are-different (t ∷ ts) = ground (arith, all_are-different ts)

all_are-equals :
    (ts : List TextFilterToken)
    → all_are TextFilterOperator.equals ts ≡ not (has_operator TextFilterOperator.different ts)
unfolding all_are has_operator
all_are-equals [] = refl
all_are-equals (t ∷ ts) = ground (arith, all_are-equals ts)

some_operator :
    (ts : List TextFilterToken)
    → is_empty ts ≡ false
    → (has_operator TextFilterOperator.equals ts || has_operator TextFilterOperator.different ts)
      ≡ true
unfolding has_operator
some_operator [] h = cc
some_operator (t ∷ ts) h = ground arith

-- The mode that the interface shows for a set: the fallback for an empty set, equals or different
-- when every token has that operator, and mixed otherwise.
pub ui_mode_for_tokens_lem :
    (tokens : TextFilterTokenSet) (fallback : TextFilterUiMode)
    → text_filter_ui_mode_for_tokens tokens fallback ≡ (
        if is_empty tokens.ordered
        then fallback
        else if all_are TextFilterOperator.equals tokens.ordered
        then TextFilterUiMode.equals
        else if all_are TextFilterOperator.different tokens.ordered
        then TextFilterUiMode.different
        else TextFilterUiMode.mixed)
unfolding text_filter_ui_mode_for_tokens
ui_mode_for_tokens_lem tokens fallback =
    let ts = tokens.ordered in
    ground (arith, all_are-equals ts, all_are-different ts, some_operator ts)
