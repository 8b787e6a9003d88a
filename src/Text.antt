-- ===== src/Text.antt =====
-- Text as a list of bytes, as the code's std::string: ASCII classes and case (the C locale),
-- equality and order of texts (std::string::operator== and operator<), prefixes, and
-- trimWhitespace of src/domain/WhitespaceTrim.h.
pub mod Trim
pub mod Case
pub mod Equality
pub mod Commas
use Prim.Native.Char.{code}
use Prim.Native.String.{[], ◌∷◌}
use mathlib.Core.List
use ssa_consulta_rapidacpp.Prelude.{
  ℕ, ◌+◌, ◌-◌, Bool, true, false, ◌&&◌, ◌||◌, List, String, leb, ltb, ◌==◌, if◌then◌else◌,
}

abbrev pub Text : Type 0
Text = List ℕ

-- The bytes of an ASCII literal.
abbrev pub codes : String → Text
codes [] = List.[]
codes (c ∷ s) = List.◌∷◌ (code c) (codes s)

-- std::isspace, std::isdigit, std::toupper and std::tolower on a byte.
unfoldable pub is_space : ℕ → Bool
is_space c = c == 32 || leb 9 c && leb c 13

unfoldable pub is_digit : ℕ → Bool
is_digit c = leb b'0' c && leb c b'9'

unfoldable pub to_upper : ℕ → ℕ
to_upper c = if leb b'a' c && leb c b'z' then c - 32 else c

unfoldable pub to_lower : ℕ → ℕ
to_lower c = if leb b'A' c && leb c b'Z' then c + 32 else c

unfoldable pub text_eq : Text → Text → Bool
text_eq List.[] List.[] = true
text_eq (List.◌∷◌ a s) (List.◌∷◌ b t) = a == b && text_eq s t
text_eq _ _ = false

-- std::string::operator<, by bytes.
unfoldable pub text_lt : Text → Text → Bool
text_lt List.[] List.[] = false
text_lt List.[] (List.◌∷◌ b t) = true
text_lt (List.◌∷◌ a s) List.[] = false
text_lt (List.◌∷◌ a s) (List.◌∷◌ b t) = ltb a b || a == b && text_lt s t

-- text.starts_with(prefix)
unfoldable pub starts_with : Text → Text → Bool
starts_with List.[] s = true
starts_with (List.◌∷◌ a p) List.[] = false
starts_with (List.◌∷◌ a p) (List.◌∷◌ b s) = a == b && starts_with p s

-- text.find(needle) != npos
unfoldable pub contains_text : Text → Text → Bool
unfolding starts_with
contains_text needle List.[] = starts_with needle List.[]
contains_text needle (List.◌∷◌ c s) = starts_with needle (List.◌∷◌ c s) || contains_text needle s
