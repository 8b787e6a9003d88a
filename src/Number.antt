-- ===== src/Number.antt =====
-- Decimal numbers in texts: std::from_chars on int as parsePart of src/domain/SsaImportPolicy.cpp
-- uses it, and the padded fields that std::snprintf prints.
pub mod Laws
use ssa_consulta_rapidacpp.Prelude.{
  ℕ, ◌+◌, ◌-◌, ◌*◌, ◌/◌, ◌%◌, List, [], ◌∷◌, Option, none, some, leb, ◌==◌, if◌then◌else◌,
}
use ssa_consulta_rapidacpp.Prelude.Int.{ℤ, pos, negsuc, negate}
use ssa_consulta_rapidacpp.Text.{Text, is_digit}

-- The digits of a text, all of it, read behind the number read so far.
unfoldable pub digits_from : ℕ → Text → Option ℕ
digits_from n [] = some n
digits_from n (c ∷ s) =
    let rest = digits_from (n * 10 + (c - 48)) s in if is_digit c then rest else none

unfoldable pub from_digits : Text → Option ℕ
from_digits [] = none
from_digits (c ∷ s) = digits_from 0 (c ∷ s)

-- A value that int does not hold is std::errc::result_out_of_range.
unfoldable pub in_int : Option ℕ → Option ℤ
in_int none = none
in_int (some n) = if leb n 2147483647 then some (pos n) else none

unfoldable pub negative_in_int : Option ℕ → Option ℤ
negative_in_int none = none
negative_in_int (some n) = if leb n 2147483648 then some (negate n) else none

-- std::from_chars takes a leading minus sign and no plus; the whole text must be read.
unfoldable pub parse_part : Text → Option ℤ
parse_part [] = none
parse_part (c ∷ s) =
    if c == b'-' then negative_in_int (from_digits s) else in_int (from_digits (c ∷ s))

abbrev pub digit : ℕ → ℕ
digit n = 48 + n % 10

-- %02d and %04d of a number of at most two and four digits.
abbrev pub pad2 : ℕ → Text
pad2 n = digit (n / 10) ∷ digit n ∷ []

abbrev pub pad4 : ℕ → Text
pad4 n = digit (n / 1000) ∷ digit (n / 100) ∷ digit (n / 10) ∷ digit n ∷ []

-- The same for values as a slice of two or four bytes can give, -9 and -999 at the least.
unfoldable pub field2 : ℤ → Text
field2 (pos n) = pad2 n
field2 (negsuc n) = b'-' ∷ digit (n + 1) ∷ []

unfoldable pub field4 : ℤ → Text
field4 (pos n) = pad4 n
field4 (negsuc n) = b'-' ∷ digit ((n + 1) / 100) ∷ digit ((n + 1) / 10) ∷ digit (n + 1) ∷ []
