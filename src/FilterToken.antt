-- ===== src/FilterToken.antt =====
-- src/domain/TextFilterToken.h and .cpp: the tokens of a column's text filter, which the user
-- interface edits as a set and stores as one text, "=VALUE,!=OTHER".
pub mod Invariant
pub mod Meaning
pub mod RoundTrip
pub mod NoCommas
pub mod Samples
use ssa_consulta_rapidacpp.Prelude.{
  ℕ, zero, suc, Bool, true, false, ◌&&◌, ◌||◌, List, [], ◌∷◌, ◌++◌, Option, none, some, String,
  length, get_elem?, is_empty, ◌==◌, if◌then◌else◌,
}
use ssa_consulta_rapidacpp.Text.{Text, codes, text_eq}
use ssa_consulta_rapidacpp.Text.Trim.{trim}
use ssa_consulta_rapidacpp.Text.Commas.{comma_parts}
use ssa_consulta_rapidacpp.Assoc.{Assoc, text_Eq, lookup, insert}

pub data TextFilterOperator : Type 0 where
  equals different : TextFilterOperator

pub data TextFilterUiMode : Type 0 where
  equals different mixed : TextFilterUiMode

pub record TextFilterToken : Type 0 where
  pub filter_operator : TextFilterOperator
  pub value : Text

-- `index_by_value` is the std::unordered_map from a value to its position in `ordered`.
pub record TextFilterTokenSet : Type 0 where
  pub ordered : List TextFilterToken
  pub index_by_value : Assoc Text ℕ

abbrev pub empty_set : TextFilterTokenSet
empty_set = record { ordered = []; index_by_value = [] }

abbrev pub op_eq : TextFilterOperator → TextFilterOperator → Bool
op_eq TextFilterOperator.equals TextFilterOperator.equals = true
op_eq TextFilterOperator.different TextFilterOperator.different = true
op_eq _ _ = false

unfoldable pub text_filter_operator_from_mode : Text → Option TextFilterOperator
unfolding text_eq
text_filter_operator_from_mode mode =
    if text_eq mode (codes "different")
    then some TextFilterOperator.different
    else if text_eq mode (codes "equals")
    then some TextFilterOperator.equals
    else none

unfoldable pub text_filter_operator_mode : TextFilterOperator → Text
text_filter_operator_mode TextFilterOperator.different = codes "different"
text_filter_operator_mode TextFilterOperator.equals = codes "equals"

unfoldable pub text_filter_ui_mode_from_name : Text → TextFilterUiMode
unfolding text_eq
text_filter_ui_mode_from_name mode =
    if text_eq mode (codes "different")
    then TextFilterUiMode.different
    else if text_eq mode (codes "mixed")
    then TextFilterUiMode.mixed
    else TextFilterUiMode.equals

unfoldable pub text_filter_ui_mode_name : TextFilterUiMode → Text
text_filter_ui_mode_name TextFilterUiMode.different = codes "different"
text_filter_ui_mode_name TextFilterUiMode.mixed = codes "mixed"
text_filter_ui_mode_name TextFilterUiMode.equals = codes "equals"

unfoldable pub token_prefix : TextFilterOperator → Text
token_prefix TextFilterOperator.different = codes "!="
token_prefix TextFilterOperator.equals = codes "="

-- token.erase(token.begin()) under the test that the token begins with '='
unfoldable pub drop_equals_prefix : Text → Text
drop_equals_prefix [] = []
drop_equals_prefix (c ∷ s) = if c == b'=' then s else c ∷ s

-- parseToken after its trimWhitespace.
unfoldable pub parse_trimmed : Text → TextFilterToken
unfolding drop_equals_prefix
parse_trimmed [] = record { filter_operator = TextFilterOperator.equals; value = [] }
parse_trimmed (c ∷ s) =
    if c == b'!'
    then record {
      filter_operator = TextFilterOperator.different;
      value = trim (drop_equals_prefix s);
    }
    else if c == b'='
    then record { filter_operator = TextFilterOperator.equals; value = trim s }
    else record { filter_operator = TextFilterOperator.equals; value = trim (c ∷ s) }

unfoldable pub parse_token : Text → TextFilterToken
unfolding parse_trimmed
parse_token raw_token = parse_trimmed (trim raw_token)

unfoldable pub serialize_token : TextFilterToken → Text
unfolding token_prefix
serialize_token token =
    if is_empty token.value then [] else token_prefix token.filter_operator ++ token.value

-- tokens.ordered[i].filterOperator = op
unfoldable pub set_operator : List TextFilterToken → ℕ → TextFilterOperator → List TextFilterToken
set_operator [] i op = []
set_operator (t ∷ ts) zero op = record t { filter_operator = op } ∷ ts
set_operator (t ∷ ts) (suc i) op = t ∷ set_operator ts i op

-- The test ordered[i].filterOperator == op. The index stands in the map, so it is in range on
-- every set of the program (`IsIndexed`); past the end the model answers false.
unfoldable pub operator_is : List TextFilterToken → ℕ → TextFilterOperator → Bool
operator_is [] i op = false
operator_is (t ∷ ts) zero op = op_eq t.filter_operator op
operator_is (t ∷ ts) (suc i) op = operator_is ts i op

-- appendOrReplaceByValue once the value is trimmed and not empty.
unfoldable pub append_or_replace_at :
    TextFilterTokenSet → Text → TextFilterOperator → Option ℕ → TextFilterTokenSet × Bool
unfolding set_operator operator_is insert
append_or_replace_at tokens value op (some i) =
    if operator_is tokens.ordered i op
    then (tokens, false)
    else (record tokens { ordered = set_operator tokens.ordered i op }, true)
append_or_replace_at tokens value op none = (
  record {
    ordered = tokens.ordered ++ record { filter_operator = op; value = value } ∷ [];
    index_by_value = insert value (length tokens.ordered) tokens.index_by_value;
  },
  true,
)

unfoldable pub append_or_replace_by_value :
    TextFilterTokenSet → TextFilterToken → TextFilterTokenSet × Bool
unfolding append_or_replace_at lookup
append_or_replace_by_value tokens token =
    let value = trim token.value in
    if is_empty value
    then (tokens, false)
    else append_or_replace_at tokens value token.filter_operator
        (lookup value tokens.index_by_value)

unfoldable pub make_text_filter_token : Text → TextFilterOperator → Text
unfolding serialize_token
make_text_filter_token value op =
    serialize_token (record { filter_operator = op; value = trim value })

-- The loop of parseTextFilterTokens runs while start < size: it never sees an empty last piece.
unfoldable pub drop_empty_last : List Text → List Text
drop_empty_last [] = []
drop_empty_last (p ∷ []) = if is_empty p then [] else p ∷ []
drop_empty_last (p ∷ q ∷ ps) = p ∷ drop_empty_last (q ∷ ps)

unfoldable pub add_parts : TextFilterTokenSet → List Text → TextFilterTokenSet
unfolding parse_token append_or_replace_by_value
add_parts tokens [] = tokens
add_parts tokens (p ∷ ps) = add_parts (append_or_replace_by_value tokens (parse_token p)).0 ps

unfoldable pub parse_text_filter_tokens : Text → TextFilterTokenSet
unfolding add_parts drop_empty_last comma_parts
parse_text_filter_tokens expression = add_parts empty_set (drop_empty_last (comma_parts expression))

unfoldable pub add_text_filter_value :
    TextFilterTokenSet → Text → TextFilterOperator → TextFilterTokenSet × Bool
unfolding append_or_replace_by_value
add_text_filter_value tokens value op =
    append_or_replace_by_value tokens (record { filter_operator = op; value = trim value })

unfoldable pub add_values : TextFilterTokenSet → List Text → TextFilterOperator → TextFilterTokenSet
unfolding append_or_replace_by_value
add_values tokens [] op = tokens
add_values tokens (v ∷ vs) op =
    add_values
      (append_or_replace_by_value tokens (record { filter_operator = op; value = trim v })).0 vs op

unfoldable pub make_text_filter_token_set : List Text → TextFilterOperator → TextFilterTokenSet
unfolding add_values
make_text_filter_token_set values op = add_values empty_set values op

unfoldable pub same_tokens : List TextFilterToken → List TextFilterToken → Bool
unfolding text_eq
same_tokens [] [] = true
same_tokens (a ∷ s) (b ∷ t) =
    op_eq a.filter_operator b.filter_operator && text_eq a.value b.value && same_tokens s t
same_tokens _ _ = false

unfoldable pub same_text_filter_tokens : TextFilterTokenSet → TextFilterTokenSet → Bool
unfolding same_tokens
same_text_filter_tokens lhs rhs = same_tokens lhs.ordered rhs.ordered

-- The loop of joinTextFilterTokens over the expression built so far.
unfoldable pub join_from : Text → List TextFilterToken → Text
unfolding serialize_token
join_from expression [] = expression
join_from expression (t ∷ ts) =
    let serialized = serialize_token t in
    join_from
      (if is_empty serialized
        then expression
        else if is_empty expression
        then serialized
        else expression ++ b',' ∷ serialized)
      ts

unfoldable pub join_text_filter_tokens : TextFilterTokenSet → Text
unfolding join_from
join_text_filter_tokens tokens = join_from [] tokens.ordered

unfoldable pub has_operator : TextFilterOperator → List TextFilterToken → Bool
has_operator op [] = false
has_operator op (t ∷ ts) = op_eq t.filter_operator op || has_operator op ts

unfoldable pub text_filter_ui_mode_for_tokens :
    TextFilterTokenSet → TextFilterUiMode → TextFilterUiMode
unfolding has_operator
text_filter_ui_mode_for_tokens tokens empty_fallback =
    if is_empty tokens.ordered
    then empty_fallback
    else let has_equals = has_operator TextFilterOperator.equals tokens.ordered in
      let has_different = has_operator TextFilterOperator.different tokens.ordered in
      if has_equals && has_different
      then TextFilterUiMode.mixed
      else if has_different
      then TextFilterUiMode.different
      else TextFilterUiMode.equals
