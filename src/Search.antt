-- ===== src/Search.antt =====
-- The search box: src/query/SearchParser.h and .cpp, with FilterTerm and MatchMode of
-- src/domain/SsaTypes.h.
pub mod RoundTrip
mod Samples
use ssa_consulta_rapidacpp.Prelude.{
  ℕ, Bool, true, false, List, [], ◌∷◌, if◌then◌else◌, ◌==◌, is_empty,
}
use ssa_consulta_rapidacpp.Text.{Text}
use ssa_consulta_rapidacpp.Text.Trim.{trim}
use ssa_consulta_rapidacpp.Text.Commas.{comma_parts}

pub data MatchMode : Type 0 where
  contains_text : MatchMode
  starts_with : MatchMode
  ends_with : MatchMode
  equals_text : MatchMode
  safe_pattern : MatchMode

pub record FilterTerm : Type 0 where
  pub text : Text
  pub mode : MatchMode
  pub negated : Bool

abbrev pub last_is : ℕ → Text → Bool
last_is c [] = false
last_is c (a ∷ []) = a == c
last_is c (a ∷ b ∷ s) = last_is c (b ∷ s)

unfoldable pub drop_last : Text → Text
drop_last [] = []
drop_last (a ∷ []) = []
drop_last (a ∷ b ∷ s) = a ∷ drop_last (b ∷ s)

abbrev term : Text → MatchMode → Bool → FilterTerm
term text mode negated = record { text = text; mode = mode; negated = negated }

-- parseTerm once the sign is read.
unfoldable pub parse_mode : Bool → Text → FilterTerm
parse_mode negated [] = term [] MatchMode.contains_text negated
parse_mode negated (c ∷ s) =
    if c == b'^'
    then term (trim s) MatchMode.starts_with negated
    else if c == b'$'
    then term (trim s) MatchMode.ends_with negated
    else if c == b'='
    then term (trim s) MatchMode.equals_text negated
    else if c == b'~'
    then term (trim s) MatchMode.safe_pattern negated
    else if last_is b'$' (c ∷ s)
    then term (trim (drop_last (c ∷ s))) MatchMode.ends_with negated
    else term (c ∷ s) MatchMode.contains_text negated

unfoldable pub parse_sign : Text → FilterTerm
parse_sign [] = parse_mode false []
parse_sign (c ∷ s) = if c == b'!' then parse_mode true (trim s) else parse_mode false (c ∷ s)

unfoldable pub parse_term : Text → FilterTerm
parse_term chunk = parse_sign (trim chunk)

-- The loop over the parts between the commas; a part without text gives no term.
unfoldable pub parse_parts : List Text → List FilterTerm
parse_parts [] = []
parse_parts (part ∷ parts) =
    let term = parse_term part in
    let terms = parse_parts parts in if is_empty term.text then terms else term ∷ terms

unfoldable pub parse_terms : Text → List FilterTerm
parse_terms input = parse_parts (comma_parts input)
