-- ===== src/FilterToken/RoundTrip.antt =====
-- Writing a token set as one text and parsing it again.
use ssa_consulta_rapidacpp.Prelude.{
  ℕ, ◌≡◌, refl, sym, ◌∙◌, ap, subst, true, false, not, List, [], ◌∷◌, ◌++◌, none, map, is_empty,
  All, arith, append-nil, append_assoc, ◌==◌, all-append,
}
use ssa_consulta_rapidacpp.Text.{Text, is_space, text_eq}
use ssa_consulta_rapidacpp.Text.Equality.{text_eq_iff}
use ssa_consulta_rapidacpp.Text.Commas.{
  comma_parts, no_comma, comma_parts-no_comma, comma_parts-append,
}
use ssa_consulta_rapidacpp.Text.Trim.{trim, last_ok, trim-IsTrimmed, trim-cons}
use ssa_consulta_rapidacpp.Assoc.{text_Eq}
use ssa_consulta_rapidacpp.FilterToken.{
  TextFilterOperator, TextFilterToken, TextFilterTokenSet, empty_set, token_prefix, parse_token,
  serialize_token, join_from, join_text_filter_tokens, drop_empty_last, add_parts,
  parse_text_filter_tokens, append_or_replace_at, append_or_replace_by_value,
}
use ssa_consulta_rapidacpp.FilterToken.Invariant.{
  position, IsClean, ValuesClean, ValuesDistinct, IsIndexed, IsIndexed-empty, position-append_last,
  append_or_replace_by_value-IsIndexed,
}

clean-last_ok : (v : Text) → IsClean v → last_ok v ≡ true
clean-last_ok v c = let t : last_ok (trim v) ≡ true = (trim-IsTrimmed v).1 in rw c.0 at t

last_ok-cons : (c : ℕ) (v : Text) → last_ok v ≡ true → is_empty v ≡ false → last_ok (c ∷ v) ≡ true
last_ok-cons c [] h e = cc
last_ok-cons c (d ∷ v) h e = h

abbrev with_op : TextFilterOperator → Text → TextFilterToken
with_op op v = record { filter_operator = op; value = v }

parse_token-with_op :
    (op : TextFilterOperator) (v : Text)
    → IsClean v
    → parse_token (serialize_token (with_op op v)) ≡ with_op op v
unfolding parse_token serialize_token is_space
parse_token-with_op TextFilterOperator.equals v c =
    rw c.1 (rw (trim-cons b'=' v refl (clean-last_ok v c)) (rw c.0))
parse_token-with_op TextFilterOperator.different v c =
    rw c.1
      (rw (trim-cons b'!' (b'=' ∷ v) refl (last_ok-cons b'=' v (clean-last_ok v c) c.1)) (rw c.0))

-- A token with a clean value is read back from its text.
pub parse_token-serialize_token :
    (t : TextFilterToken) → IsClean t.value → parse_token (serialize_token t) ≡ t
parse_token-serialize_token t c = parse_token-with_op t.filter_operator t.value c

abbrev pub NoCommas : List TextFilterToken → Type 0
NoCommas ts = All (λ t. no_comma t.value ≡ true) ts

serialize_token-no_comma :
    (t : TextFilterToken) → no_comma t.value ≡ true → no_comma (serialize_token t) ≡ true
unfolding serialize_token
serialize_token-no_comma t h =
    ground (arith, all-append (λ c. not (c == b',')) (token_prefix t.filter_operator) t.value)

serialize_token-is_empty :
    (t : TextFilterToken) → IsClean t.value → is_empty (serialize_token t) ≡ false
unfolding serialize_token
serialize_token-is_empty t c = ground arith

-- What join_from adds behind a text that is not empty.
tail_text : List TextFilterToken → Text
tail_text [] = []
tail_text (t ∷ ts) = b',' ∷ (serialize_token t ++ tail_text ts)

is_empty-append : (s t : Text) → is_empty s ≡ false → is_empty (s ++ t) ≡ false
is_empty-append [] t h = cc
is_empty-append (c ∷ s) t h = refl

join_from-tail_text :
    (ts : List TextFilterToken) (e : Text)
    → ValuesClean ts
    → is_empty e ≡ false
    → join_from e ts ≡ e ++ tail_text ts
unfolding join_from tail_text
join_from-tail_text [] e c h = sym (append-nil _)
join_from-tail_text (t ∷ ts) e c h =
    rw (serialize_token-is_empty t c.0, h)
      (join_from-tail_text ts (e ++ b',' ∷ serialize_token t) c.1 (is_empty-append e _ h)
        ∙ append_assoc e (b',' ∷ serialize_token t) (tail_text ts))

comma_parts-tail_text :
    (s : Text) (ts : List TextFilterToken)
    → no_comma s ≡ true
    → NoCommas ts
    → comma_parts (s ++ tail_text ts) ≡ s ∷ map serialize_token ts
unfolding tail_text
comma_parts-tail_text s [] h n = rw append-nil (comma_parts-no_comma s h)
comma_parts-tail_text s (t ∷ ts) h n =
    rw
      (
        comma_parts-append s (serialize_token t ++ tail_text ts) h,
        comma_parts-tail_text (serialize_token t) ts (serialize_token-no_comma t n.0) n.1,
      )
      refl

drop_empty_last-serialized :
    (ts : List TextFilterToken)
    → ValuesClean ts
    → drop_empty_last (map serialize_token ts) ≡ map serialize_token ts
unfolding drop_empty_last
drop_empty_last-serialized [] c = refl
drop_empty_last-serialized (t ∷ []) c = rw (serialize_token-is_empty t c.0)
drop_empty_last-serialized (t ∷ u ∷ ts) c = rw (drop_empty_last-serialized (u ∷ ts) c.1)

-- The pieces of the joined text are the serialized tokens.
comma_parts-join :
    (ts : List TextFilterToken)
    → ValuesClean ts
    → NoCommas ts
    → drop_empty_last (comma_parts (join_from [] ts)) ≡ map serialize_token ts
unfolding join_from drop_empty_last comma_parts
comma_parts-join [] c n = refl
comma_parts-join (t ∷ ts) c n = rw (serialize_token-is_empty t c.0) (
    rw (join_from-tail_text ts (serialize_token t) c.1 (serialize_token-is_empty t c.0)) (
      rw (comma_parts-tail_text (serialize_token t) ts (serialize_token-no_comma t n.0) n.1)
        (drop_empty_last-serialized (t ∷ ts) c)))

-- Tokens whose values are new to those that stand before them.
abbrev NewTo : List TextFilterToken → List TextFilterToken → Type 0
NewTo before [] = Unit
NewTo before (t ∷ ts) = (position t.value before ≡ none) × NewTo (before ++ t ∷ []) ts

append_new :
    (tokens : TextFilterTokenSet) (t : TextFilterToken)
    → IsIndexed tokens
    → IsClean t.value
    → position t.value tokens.ordered ≡ none
    → (append_or_replace_by_value tokens t).0.ordered ≡ tokens.ordered ++ t ∷ []
unfolding append_or_replace_by_value append_or_replace_at
append_new tokens t h c new = rw (c.0, c.1, h.index_lem t.value, new) refl

add_parts-nil : (tokens : TextFilterTokenSet) → add_parts tokens [] ≡ tokens
unfolding add_parts
add_parts-nil tokens = refl

add_parts-cons :
    (tokens : TextFilterTokenSet) (p : Text) (ps : List Text)
    → add_parts tokens (p ∷ ps) ≡ add_parts (append_or_replace_by_value tokens (parse_token p)).0 ps
unfolding add_parts
add_parts-cons tokens p ps = refl

add_parts-serialized :
    (ts : List TextFilterToken) (tokens : TextFilterTokenSet)
    → IsIndexed tokens
    → ValuesClean ts
    → NewTo tokens.ordered ts
    → (add_parts tokens (map serialize_token ts)).ordered ≡ tokens.ordered ++ ts
add_parts-serialized [] tokens h c n = rw (add_parts-nil tokens) (sym (append-nil _))
add_parts-serialized (t ∷ ts) tokens h c n =
    let next = (append_or_replace_by_value tokens t).0 in
    let e : next.ordered ≡ tokens.ordered ++ t ∷ [] = append_new tokens t h c.0 n.0 in
    rw
      (
        add_parts-cons tokens (serialize_token t) (map serialize_token ts),
        parse_token-serialize_token t c.0,
      )
      (add_parts-serialized ts next (append_or_replace_by_value-IsIndexed tokens t h) c.1
          (subst (λ l. NewTo l ts) (sym e) n.1)
        ∙ (ap (λ l. l ++ ts) e ∙ append_assoc tokens.ordered (t ∷ []) ts))

-- Distinct values are new to what stands before them.
absent-other :
    (v : Text) (t : TextFilterToken) (ts : List TextFilterToken)
    → position v (t ∷ ts) ≡ none
    → (text_eq t.value v ≡ false) × (position v ts ≡ none)
unfolding position
absent-other v t ts h = ground arith

abbrev AbsentFrom : List TextFilterToken → List TextFilterToken → Type 0
AbsentFrom before ts = All (λ t. position t.value before ≡ none) ts

AbsentFrom-append_last :
    (before ts : List TextFilterToken) (t : TextFilterToken)
    → position t.value before ≡ none
    → position t.value ts ≡ none
    → AbsentFrom before ts
    → AbsentFrom (before ++ t ∷ []) ts
AbsentFrom-append_last before [] t b h a = tt
AbsentFrom-append_last before (u ∷ ts) t b h a = (
  rw (position-append_last u.value t.value t.filter_operator before b) (
      ground (
        arith,
        absent-other t.value u ts,
        text_eq_iff u.value t.value,
        text_eq_iff t.value u.value,
      )),
  AbsentFrom-append_last before ts t b (absent-other t.value u ts h).1 a.1,
)

NewTo-distinct :
    (before ts : List TextFilterToken) → AbsentFrom before ts → ValuesDistinct ts → NewTo before ts
NewTo-distinct before [] a d = tt
NewTo-distinct before (t ∷ ts) a d =
    (a.0, NewTo-distinct (before ++ t ∷ []) ts (AbsentFrom-append_last before ts t a.0 d.0 a.1) d.1)

AbsentFrom-nil : (ts : List TextFilterToken) → AbsentFrom [] ts
unfolding position
AbsentFrom-nil [] = tt
AbsentFrom-nil (t ∷ ts) = (refl, AbsentFrom-nil ts)

-- Parsing the text that a set is joined to gives back its tokens, operators and order included,
-- when no value of the set holds a comma.
pub parse-join :
    (tokens : TextFilterTokenSet)
    → IsIndexed tokens
    → NoCommas tokens.ordered
    → (parse_text_filter_tokens (join_text_filter_tokens tokens)).ordered ≡ tokens.ordered
unfolding parse_text_filter_tokens join_text_filter_tokens
parse-join tokens h n = rw (comma_parts-join tokens.ordered h.values_clean n) (
    add_parts-serialized tokens.ordered empty_set IsIndexed-empty h.values_clean
      (NewTo-distinct [] tokens.ordered (AbsentFrom-nil tokens.ordered) h.values_distinct))
