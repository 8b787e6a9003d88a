-- ===== src/FilterToken/NoCommas.antt =====
-- The tokens that src/domain/TextFilterToken.cpp parses hold no comma, so that a parsed set with a value
-- added to it is joined to a text that names the same tokens.
use ssa_consulta_rapidacpp.Prelude.{
  ℕ, ◌≡◌, refl, ap, ◌∙◌, Bool, true, false, not, List, [], ◌∷◌, Option, none, some, All, arith,
  is_empty, if_either, zero, suc, if◌then◌else◌, ◌==◌, ◌&&◌,
}
use ssa_consulta_rapidacpp.Text.{Text, text_eq}
use ssa_consulta_rapidacpp.Text.Commas.{comma_parts, prepend, no_comma}
use ssa_consulta_rapidacpp.Text.Trim.{trim, all-trim}
use ssa_consulta_rapidacpp.Assoc.{text_Eq, lookup}
use ssa_consulta_rapidacpp.Sql.Marks.{All-append}
use ssa_consulta_rapidacpp.FilterToken.{
  TextFilterOperator, TextFilterToken, TextFilterTokenSet, empty_set, parse_trimmed, parse_token,
  drop_equals_prefix, operator_is, set_operator, drop_empty_last, add_parts,
  parse_text_filter_tokens, append_or_replace_at, append_or_replace_by_value, add_text_filter_value,
  join_text_filter_tokens,
}
use ssa_consulta_rapidacpp.FilterToken.Invariant.{Built, parsed, added, Built-IsIndexed}
use ssa_consulta_rapidacpp.FilterToken.RoundTrip.{NoCommas, parse-join}
use ssa_consulta_rapidacpp.FilterToken.Meaning.{operator_of, operator_of-add}

abbrev Plain : Text → Type 0
Plain text = no_comma text ≡ true

prepend-Plain :
    (c : ℕ) (ps : List Text) → (c == b',') ≡ false → All Plain ps → All Plain (prepend c ps)
unfolding prepend
prepend-Plain c [] e h = (ground arith, tt)
prepend-Plain c (p ∷ ps) e (k, h) = (ground arith, h)

comma_parts-Plain : (s : Text) → All Plain (comma_parts s)
unfolding comma_parts
comma_parts-Plain [] = (refl, tt)
comma_parts-Plain (c ∷ s) =
    if_either (All Plain) (c == b',') ([] ∷ comma_parts s) (prepend c (comma_parts s))
      (λ e. (refl, comma_parts-Plain s))
      (λ e. prepend-Plain c (comma_parts s) e (comma_parts-Plain s))

drop_empty_last-Plain : (ps : List Text) → All Plain ps → All Plain (drop_empty_last ps)
unfolding drop_empty_last
drop_empty_last-Plain [] h = tt
drop_empty_last-Plain (p ∷ []) h = if_either (All Plain) (is_empty p) [] (p ∷ []) (λ e. tt) (λ e. h)
drop_empty_last-Plain (p ∷ q ∷ ps) (k, h) = (k, drop_empty_last-Plain (q ∷ ps) h)

trim-Plain : (s : Text) → Plain s → Plain (trim s)
trim-Plain s h = all-trim (λ c. not (c == b',')) s h

drop_equals_prefix-Plain : (s : Text) → Plain s → Plain (drop_equals_prefix s)
unfolding drop_equals_prefix
drop_equals_prefix-Plain [] h = refl
drop_equals_prefix-Plain (c ∷ s) h = ground arith

parse_trimmed-Plain : (s : Text) → Plain s → Plain (parse_trimmed s).value
unfolding parse_trimmed
parse_trimmed-Plain [] h = refl
parse_trimmed-Plain (c ∷ s) h =
    let tail : Plain s = ground arith in
    if_either (λ (t : TextFilterToken). Plain t.value) (c == b'!') _ _
      (λ e. trim-Plain (drop_equals_prefix s) (drop_equals_prefix-Plain s tail))
      (λ e.
        if_either (λ (t : TextFilterToken). Plain t.value) (c == b'=') _ _ (λ f. trim-Plain s tail)
          (λ f. trim-Plain (c ∷ s) h))

set_operator-NoCommas :
    (ts : List TextFilterToken) (i : ℕ) (op : TextFilterOperator)
    → NoCommas ts
    → NoCommas (set_operator ts i op)
unfolding set_operator
set_operator-NoCommas [] i op h = tt
set_operator-NoCommas (t ∷ ts) zero op h = h
set_operator-NoCommas (t ∷ ts) (suc i) op (k, h) = (k, set_operator-NoCommas ts i op h)

append_or_replace_at-NoCommas :
    (tokens : TextFilterTokenSet) (value : Text) (op : TextFilterOperator) (found : Option ℕ)
    → NoCommas tokens.ordered
    → Plain value
    → NoCommas (append_or_replace_at tokens value op found).0.ordered
unfolding append_or_replace_at
append_or_replace_at-NoCommas tokens value op (some i) h p =
    if_either (λ (r : TextFilterTokenSet × Bool). NoCommas r.0.ordered)
      (operator_is tokens.ordered i op) _ _ (λ e. h)
      (λ e. set_operator-NoCommas tokens.ordered i op h)
append_or_replace_at-NoCommas tokens value op none h p =
    All-append (λ (t : TextFilterToken). Plain t.value) tokens.ordered
      (record { filter_operator = op; value = value } ∷ []) h (p, tt)

append_or_replace_by_value-NoCommas :
    (tokens : TextFilterTokenSet) (token : TextFilterToken)
    → NoCommas tokens.ordered
    → Plain token.value
    → NoCommas (append_or_replace_by_value tokens token).0.ordered
unfolding append_or_replace_by_value
append_or_replace_by_value-NoCommas tokens token h p =
    if_either (λ (r : TextFilterTokenSet × Bool). NoCommas r.0.ordered)
      (is_empty (trim token.value)) _ _ (λ e. h)
      (λ e.
        append_or_replace_at-NoCommas tokens (trim token.value) token.filter_operator
          (lookup (trim token.value) tokens.index_by_value) h (trim-Plain token.value p))

add_parts-NoCommas :
    (tokens : TextFilterTokenSet) (ps : List Text)
    → NoCommas tokens.ordered
    → All Plain ps
    → NoCommas (add_parts tokens ps).ordered
unfolding add_parts parse_token
add_parts-NoCommas tokens [] h k = h
add_parts-NoCommas tokens (p ∷ ps) h (q, k) =
    add_parts-NoCommas (append_or_replace_by_value tokens (parse_token p)).0 ps
      (append_or_replace_by_value-NoCommas tokens (parse_token p) h
        (parse_trimmed-Plain (trim p) (trim-Plain p q)))
      k

parse-NoCommas : (expression : Text) → NoCommas (parse_text_filter_tokens expression).ordered
unfolding parse_text_filter_tokens
parse-NoCommas expression =
    add_parts-NoCommas empty_set (drop_empty_last (comma_parts expression)) tt
      (drop_empty_last-Plain (comma_parts expression) (comma_parts-Plain expression))

-- A value added to a parsed expression, and the whole written and parsed once more.
pub operator_of-rejoined :
    (expression value w : Text) (op : TextFilterOperator)
    → no_comma value ≡ true
    → operator_of w
        (parse_text_filter_tokens (
          join_text_filter_tokens
            (add_text_filter_value (parse_text_filter_tokens expression) value op).0)).ordered
      ≡ (if not (is_empty (trim value)) && text_eq (trim value) w
          then some op
          else operator_of w (parse_text_filter_tokens expression).ordered)
unfolding add_text_filter_value
operator_of-rejoined expression value w op p =
    let tokens = parse_text_filter_tokens expression in
    let built : Built tokens = parsed expression in
    ap (operator_of w) (
      parse-join (add_text_filter_value tokens value op).0 (Built-IsIndexed (added value op built))
        (append_or_replace_by_value-NoCommas tokens
          (record { filter_operator = op; value = trim value }) (parse-NoCommas expression)
          (trim-Plain value p)))
    ∙ operator_of-add tokens value w op (Built-IsIndexed built)
