-- ===== src/FilterToken/Invariant.antt =====
-- The index of a token set agrees with the positions of its values, through every operation.
use ssa_consulta_rapidacpp.Prelude.{
  ℕ, zero, suc, ◌≡◌, refl, false, List, [], ◌∷◌, ◌++◌, Option, none, some, length, is_empty, All,
  arith, if◌then◌else◌, inl, inr, Bool-cases,
}
use ssa_consulta_rapidacpp.Text.{Text, text_eq}
use ssa_consulta_rapidacpp.Text.Equality.{text_eq_iff}
use ssa_consulta_rapidacpp.Text.Trim.{trim, trim_idem}
use ssa_consulta_rapidacpp.Text.Commas.{comma_parts}
use ssa_consulta_rapidacpp.Assoc.{text_Eq, lookup, lookup-insert}
use ssa_consulta_rapidacpp.FilterToken.{
  TextFilterOperator, TextFilterToken, TextFilterTokenSet, empty_set, set_operator, operator_is,
  append_or_replace_at, append_or_replace_by_value, add_parts, add_values, parse_token,
  drop_empty_last, parse_text_filter_tokens, make_text_filter_token_set, add_text_filter_value,
}

-- The place of the first token with a value.
unfoldable pub position : Text → List TextFilterToken → Option ℕ
position v [] = none
position v (t ∷ ts) =
    if text_eq t.value v
    then some 0
    else elim (position v ts) [ none ↦ none | some i ↦ some (suc i) ]

abbrev pub IsClean : Text → Type 0
IsClean v = (trim v ≡ v) × (is_empty v ≡ false)

abbrev pub ValuesClean : List TextFilterToken → Type 0
ValuesClean ts = All (λ t. IsClean t.value) ts

abbrev pub ValuesDistinct : List TextFilterToken → Type 0
ValuesDistinct [] = Unit
ValuesDistinct (t ∷ ts) = (position t.value ts ≡ none) × ValuesDistinct ts

pub record IsIndexed (tokens : TextFilterTokenSet) : Type 0 where
  pub index_lem : (v : Text) → lookup v tokens.index_by_value ≡ position v tokens.ordered
  pub values_clean : ValuesClean tokens.ordered
  pub values_distinct : ValuesDistinct tokens.ordered

pub IsIndexed-empty : IsIndexed empty_set
unfolding lookup position
IsIndexed-empty = record { index_lem = λ v. refl; values_clean = tt; values_distinct = tt }

position-set_operator :
    (v : Text) (ts : List TextFilterToken) (i : ℕ) (op : TextFilterOperator)
    → position v (set_operator ts i op) ≡ position v ts
unfolding position set_operator
position-set_operator v [] i op = refl
position-set_operator v (t ∷ ts) zero op = refl
position-set_operator v (t ∷ ts) (suc i) op = ground (arith, position-set_operator v ts i op)

ValuesClean-set_operator :
    (ts : List TextFilterToken) (i : ℕ) (op : TextFilterOperator)
    → ValuesClean ts
    → ValuesClean (set_operator ts i op)
unfolding set_operator
ValuesClean-set_operator [] i op h = tt
ValuesClean-set_operator (t ∷ ts) zero op h = h
ValuesClean-set_operator (t ∷ ts) (suc i) op h = (h.0, ValuesClean-set_operator ts i op h.1)

ValuesDistinct-set_operator :
    (ts : List TextFilterToken) (i : ℕ) (op : TextFilterOperator)
    → ValuesDistinct ts
    → ValuesDistinct (set_operator ts i op)
unfolding set_operator
ValuesDistinct-set_operator [] i op h = tt
ValuesDistinct-set_operator (t ∷ ts) zero op h = h
ValuesDistinct-set_operator (t ∷ ts) (suc i) op h =
    (rw position-set_operator h.0, ValuesDistinct-set_operator ts i op h.1)

pub position-append_last :
    (v w : Text) (op : TextFilterOperator) (ts : List TextFilterToken)
    → position w ts ≡ none
    → position v (ts ++ record { filter_operator = op; value = w } ∷ [])
      ≡ (if text_eq w v then some (length ts) else position v ts)
unfolding position
position-append_last v w op [] h = refl
position-append_last v w op (t ∷ ts) h = ground (
  arith,
  text_eq_iff t.value v,
  text_eq_iff t.value w,
  text_eq_iff w v,
  position-append_last v w op ts,
)

ValuesClean-append_last :
    (ts : List TextFilterToken) (t : TextFilterToken)
    → ValuesClean ts
    → IsClean t.value
    → ValuesClean (ts ++ t ∷ [])
ValuesClean-append_last [] t h c = (c, tt)
ValuesClean-append_last (u ∷ ts) t h c = (h.0, ValuesClean-append_last ts t h.1 c)

ValuesDistinct-append_last :
    (w : Text) (op : TextFilterOperator) (ts : List TextFilterToken)
    → position w ts ≡ none
    → ValuesDistinct ts
    → ValuesDistinct (ts ++ record { filter_operator = op; value = w } ∷ [])
unfolding position
ValuesDistinct-append_last w op [] n h = (refl, tt)
ValuesDistinct-append_last w op (t ∷ ts) n h = (
  ground
      (arith, position-append_last t.value w op ts, text_eq_iff t.value w, text_eq_iff w t.value),
  ValuesDistinct-append_last w op ts (ground arith) h.1,
)

append_or_replace_at-IsIndexed :
    (tokens : TextFilterTokenSet) (v : Text) (op : TextFilterOperator) (found : Option ℕ)
    → lookup v tokens.index_by_value ≡ found
    → IsClean v
    → IsIndexed tokens
    → IsIndexed (append_or_replace_at tokens v op found).0
unfolding append_or_replace_at
append_or_replace_at-IsIndexed tokens v op (some i) e c h =
    elim (Bool-cases (operator_is tokens.ordered i op)) [
      | inl same ↦ rw same h
      | inr other ↦ rw other (record {
        index_lem = λ w. rw position-set_operator (h.index_lem w);
        values_clean = ValuesClean-set_operator tokens.ordered i op h.values_clean;
        values_distinct = ValuesDistinct-set_operator tokens.ordered i op h.values_distinct;
      })
    ]
append_or_replace_at-IsIndexed tokens v op none e c h =
    let absent : position v tokens.ordered ≡ none = cc (h.index_lem v) in
    record {
      index_lem = λ w.
          rw
            (
              lookup-insert v w (length tokens.ordered) tokens.index_by_value,
              position-append_last w v op tokens.ordered absent,
              h.index_lem w,
            )
            refl;
      values_clean = ValuesClean-append_last tokens.ordered _ h.values_clean c;
      values_distinct = ValuesDistinct-append_last v op tokens.ordered absent h.values_distinct;
    }

pub append_or_replace_by_value-IsIndexed :
    (tokens : TextFilterTokenSet) (t : TextFilterToken)
    → IsIndexed tokens
    → IsIndexed (append_or_replace_by_value tokens t).0
unfolding append_or_replace_by_value
append_or_replace_by_value-IsIndexed tokens t h = elim (Bool-cases (is_empty (trim t.value))) [
  | inl gone ↦ rw gone h
  | inr there ↦ rw there (
      append_or_replace_at-IsIndexed tokens (trim t.value) t.filter_operator _ refl
        (trim_idem t.value, there) h)
]

pub add_parts-IsIndexed :
    (ps : List Text) (tokens : TextFilterTokenSet)
    → IsIndexed tokens
    → IsIndexed (add_parts tokens ps)
unfolding add_parts
add_parts-IsIndexed [] tokens h = h
add_parts-IsIndexed (p ∷ ps) tokens h =
    add_parts-IsIndexed ps (append_or_replace_by_value tokens (parse_token p)).0
      (append_or_replace_by_value-IsIndexed tokens (parse_token p) h)

add_values-IsIndexed :
    (vs : List Text) (tokens : TextFilterTokenSet) (op : TextFilterOperator)
    → IsIndexed tokens
    → IsIndexed (add_values tokens vs op)
unfolding add_values
add_values-IsIndexed [] tokens op h = h
add_values-IsIndexed (v ∷ vs) tokens op h =
    let t : TextFilterToken = record { filter_operator = op; value = trim v } in
    add_values-IsIndexed vs (append_or_replace_by_value tokens t).0 op
      (append_or_replace_by_value-IsIndexed tokens t h)

-- The sets that a caller of the module can hold: parsed, built from values, or grown by a value.
pub data Built : TextFilterTokenSet → Type 0 where
  parsed : (expression : Text) → Built (parse_text_filter_tokens expression)
  made :
      (values : List Text) (op : TextFilterOperator) → Built (make_text_filter_token_set values op)
  added :
      {tokens : TextFilterTokenSet} (value : Text) (op : TextFilterOperator)
      → Built tokens
      → Built (add_text_filter_value tokens value op).0

-- In every token set that is built by parsing an expression, from a list of values, or by adding
-- values to such a set, the index finds each value exactly at its position, and the values are
-- trimmed, not empty and all different.
pub Built-IsIndexed : {tokens : TextFilterTokenSet} → Built tokens → IsIndexed tokens
unfolding parse_text_filter_tokens make_text_filter_token_set add_text_filter_value
Built-IsIndexed (parsed expression) =
    add_parts-IsIndexed (drop_empty_last (comma_parts expression)) empty_set IsIndexed-empty
Built-IsIndexed (made values op) = add_values-IsIndexed values empty_set op IsIndexed-empty
Built-IsIndexed (added {tokens = tokens} value op b) =
    append_or_replace_by_value-IsIndexed tokens
      (record { filter_operator = op; value = trim value }) (Built-IsIndexed b)
