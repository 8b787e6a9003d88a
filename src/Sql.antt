-- ===== src/Sql.antt =====
-- The text of SQL and its bindings: src/query/SqlQueryText.cpp, and the condition list that the
-- compilers of src/query append to. A std::ostringstream with its vector of bindings and its flag is
-- one record; a function that appends a condition gives a value that says what it appends.
pub mod TextFilter
pub mod Advanced
pub mod Query
pub mod Distinct
pub mod Values
pub mod Marks
pub mod Balance
pub mod Pieces
pub mod Parameters
pub mod Shape
pub mod Words
pub mod Like
pub mod Page
mod Samples
use ssa_consulta_rapidacpp.Prelude.{
  ℕ, zero, suc, ◌/◌, ◌%◌, ◌+◌, Bool, true, false, not, ◌&&◌, ◌||◌, List, [], ◌∷◌, ◌++◌, Option,
  none, some, String, if◌then◌else◌, is_empty, all, ltb, leb, ◌==◌,
}
use ssa_consulta_rapidacpp.Prelude.Int.{ℤ, pos, negsuc}
use ssa_consulta_rapidacpp.Text.{Text, codes}
use ssa_consulta_rapidacpp.Text.Case.{uppercase}
use ssa_consulta_rapidacpp.Number.{digit}
use ssa_consulta_rapidacpp.Catalog.{contains}

-- std::to_string: 20 digits hold every number below 2 ^ 64.
unfoldable pub decimal_with : ℕ → ℕ → Text
decimal_with zero n = []
decimal_with (suc places) n =
    let rest = decimal_with places (n / 10) in
    if ltb n 10 then digit n ∷ [] else rest ++ digit n ∷ []

unfoldable pub to_decimal : ℕ → Text
to_decimal n = decimal_with 20 n

unfoldable pub int_to_decimal : ℤ → Text
int_to_decimal (pos n) = to_decimal n
int_to_decimal (negsuc n) = b'-' ∷ to_decimal (suc n)

-- none where the code throws std::invalid_argument.
unfoldable pub quote_column_identifier : String → Option Text
quote_column_identifier key =
    if contains key then some (codes "\"" ++ (codes key ++ codes "\"")) else none

abbrev pub is_identifier_byte : ℕ → Bool
is_identifier_byte c =
    leb b'a' c && leb c b'z' || leb b'A' c && leb c b'Z' || leb b'0' c && leb c b'9' || c == b'_'

unfoldable pub quote_table_identifier : Text → Option Text
quote_table_identifier name =
    if not (is_empty name) && all is_identifier_byte name
    then some (codes "\"" ++ (name ++ codes "\""))
    else none

unfoldable pub uppercase_copy : Text → Text
uppercase_copy value = uppercase value

abbrev pub with_status : Option Text → Option Text
with_status none = none
with_status (some column) = some (
    codes "CASE WHEN UPPER(COALESCE("
    ++ (column
        ++ (codes ", '')) <> '" ++ (uppercase_copy (codes "STE") ++ codes "' THEN 0 ELSE 1 END"))))

unfoldable pub status_last_sort_expression : Option Text
status_last_sort_expression = with_status (quote_column_identifier "situacao")

-- A piece of SQL with the values of its placeholders.
pub record Fragment : Type 0 where
  pub sql : Text
  pub bindings : List Text

-- The stream, the bindings and the flag hasCondition.
pub record Where : Type 0 where
  pub stream : Text
  pub bindings : List Text
  pub has_condition : Bool

abbrev pub no_where : Where
no_where = record { stream = []; bindings = []; has_condition = false }

unfoldable pub append_sql_and_separator : Text → Bool → Text
append_sql_and_separator stream has_condition =
    if has_condition then stream ++ codes " AND " else stream

-- What a compiler does: it throws, appends nothing, or appends one condition.
pub data Compiled : Type 0 where
  rejected : Compiled
  nothing : Compiled
  condition : Fragment → Compiled

unfoldable pub append_condition : Where → Fragment → Where
append_condition w f = record {
  stream = append_sql_and_separator w.stream w.has_condition ++ f.sql;
  bindings = w.bindings ++ f.bindings;
  has_condition = true;
}

unfoldable pub append_compiled : Where → List Compiled → Option Where
append_compiled w [] = some w
append_compiled w (rejected ∷ rest) = none
append_compiled w (nothing ∷ rest) = append_compiled w rest
append_compiled w (condition f ∷ rest) = append_compiled (append_condition w f) rest
