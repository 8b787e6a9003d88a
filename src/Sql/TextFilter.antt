-- ===== src/Sql/TextFilter.antt =====
-- The conditions of the search text and of the text filters: src/query/TextFilterSqlCompiler.cpp,
-- with safePatternUnsupported of src/domain/SafePattern.h.
use text.Mathlib.Text.{◌==◌ as str_eq}
use ssa_consulta_rapidacpp.Prelude.{
  ℕ, Bool, true, false, not, ◌&&◌, ◌||◌, List, [], ◌∷◌, ◌++◌, Option, none, some, String,
  if◌then◌else◌, is_empty, all, any, length, ltb, leb, ◌==◌,
}
use ssa_consulta_rapidacpp.Text.{Text, codes}
use ssa_consulta_rapidacpp.Catalog.{is_derived_count_column, general_search_keys}
use ssa_consulta_rapidacpp.Catalog.Columns.{status_column_key, excluded_status_codes}
use ssa_consulta_rapidacpp.Search.{MatchMode, FilterTerm}
use ssa_consulta_rapidacpp.Sql.{
  quote_column_identifier, uppercase_copy, Fragment, Compiled, rejected, nothing, condition,
}

abbrev pub unsupported_operators : Text
unsupported_operators = codes "(){}|*+?"

abbrev pub is_in : Text → ℕ → Bool
is_in set c = any (λ d. d == c) set

unfoldable pub safe_pattern_unsupported : Text → Bool
safe_pattern_unsupported pattern =
    ltb 128 (length pattern) || any (is_in unsupported_operators) pattern

unfoldable pub escaped_like_literal : Text → Text
escaped_like_literal [] = []
escaped_like_literal (c ∷ text) =
    let rest = escaped_like_literal text in
    if c == b'%' || c == b'_' || c == b'\\' then b'\\' ∷ c ∷ rest else c ∷ rest

unfoldable pub safe_pattern_like_pattern : Text → Text
safe_pattern_like_pattern [] = []
safe_pattern_like_pattern (c ∷ pattern) =
    let rest = safe_pattern_like_pattern pattern in
    if c == b'.'
    then b'_' ∷ rest
    else if c == b'%' || c == b'_' || c == b'\\'
    then b'\\' ∷ c ∷ rest
    else c ∷ rest

-- none where validateSafePattern throws.
unfoldable pub pattern_for : MatchMode → Text → Option Text
pattern_for MatchMode.safe_pattern upper =
    if safe_pattern_unsupported upper then none else some (safe_pattern_like_pattern upper)
pattern_for MatchMode.starts_with upper = some (escaped_like_literal upper ++ b'%' ∷ [])
pattern_for MatchMode.ends_with upper = some (b'%' ∷ escaped_like_literal upper)
pattern_for MatchMode.equals_text upper = some upper
pattern_for MatchMode.contains_text upper = some (b'%' ∷ (escaped_like_literal upper ++ b'%' ∷ []))

unfoldable pub comparator_for : MatchMode → Text
comparator_for MatchMode.equals_text = codes " = ? COLLATE NOCASE "
comparator_for MatchMode.contains_text = codes " LIKE ? COLLATE NOCASE ESCAPE '\\' "
comparator_for MatchMode.starts_with = codes " LIKE ? COLLATE NOCASE ESCAPE '\\' "
comparator_for MatchMode.ends_with = codes " LIKE ? COLLATE NOCASE ESCAPE '\\' "
comparator_for MatchMode.safe_pattern = codes " LIKE ? COLLATE NOCASE ESCAPE '\\' "

-- Nine digits, for which the number column is compared without collation.
unfoldable pub is_exact_number : Text → Bool
is_exact_number text = length text == 9 && all (λ c. leb b'0' c && leb c b'9') text

abbrev pub is_equals : MatchMode → Bool
is_equals MatchMode.equals_text = true
is_equals MatchMode.contains_text = false
is_equals MatchMode.starts_with = false
is_equals MatchMode.ends_with = false
is_equals MatchMode.safe_pattern = false

unfoldable pub column_comparator : String → FilterTerm → Text
column_comparator key term =
    if str_eq key "numero_ssa" && is_equals term.mode && is_exact_number term.text
    then codes " = ? "
    else comparator_for term.mode

-- appendCompiledTermForColumn
abbrev pub term_fragment : Option Text → Text → Option Text → Option Fragment
term_fragment none comparator pattern = none
term_fragment (some column) comparator none = none
term_fragment (some column) comparator (some pattern) =
    some (record { sql = column ++ comparator; bindings = pattern ∷ [] })

abbrev pub join_fragments : Option Fragment → Option Fragment → Option Fragment
join_fragments none rest = none
join_fragments (some f) none = none
join_fragments (some f) (some g) =
    some (record { sql = f.sql ++ (codes " OR " ++ g.sql); bindings = f.bindings ++ g.bindings })

-- The columns of the general search with ` OR ` between them.
unfoldable pub any_column : Text → Option Text → List String → Option Fragment
any_column comparator pattern [] = some (record { sql = []; bindings = [] })
any_column comparator pattern (key ∷ []) =
    term_fragment (quote_column_identifier key) comparator pattern
any_column comparator pattern (key ∷ next ∷ keys) =
    join_fragments (term_fragment (quote_column_identifier key) comparator pattern)
      (any_column comparator pattern (next ∷ keys))

abbrev pub grouped : Text → Option Fragment → Compiled
grouped opening none = rejected
grouped opening (some f) =
    condition (record { sql = opening ++ (f.sql ++ codes ")"); bindings = f.bindings })

unfoldable pub compile_general_term : List String → FilterTerm → Compiled
compile_general_term columns term =
    if is_empty term.text
    then nothing
    else grouped (if term.negated then codes "NOT (" else codes "(") (
        any_column (comparator_for term.mode) (pattern_for term.mode (uppercase_copy term.text))
          columns)

unfoldable pub compile_general_search : List FilterTerm → List Compiled
compile_general_search [] = []
compile_general_search (term ∷ terms) =
    compile_general_term general_search_keys term ∷ compile_general_search terms

-- The terms of the one sign that hold text.
abbrev pub same_sign : Bool → Bool → Bool
same_sign true b = b
same_sign false b = not b

unfoldable pub terms_of : Bool → List FilterTerm → List FilterTerm
terms_of negated [] = []
terms_of negated (term ∷ terms) =
    let rest = terms_of negated terms in
    if is_empty term.text || not (same_sign negated term.negated) then rest else term ∷ rest

abbrev pub column_term : String → FilterTerm → Option Fragment
column_term key term =
    term_fragment (quote_column_identifier key) (column_comparator key term)
      (pattern_for term.mode (uppercase_copy term.text))

unfoldable pub any_term : String → FilterTerm → List FilterTerm → Option Fragment
any_term key term [] = column_term key term
any_term key term (next ∷ terms) = join_fragments (column_term key term) (any_term key next terms)

-- appendInclusiveColumnTerms and appendExclusiveColumnTerms.
unfoldable pub compile_group : String → Text → List FilterTerm → Compiled
compile_group key opening [] = nothing
compile_group key opening (term ∷ terms) = grouped opening (any_term key term terms)

unfoldable pub compile_column_terms : String → List FilterTerm → List Compiled
compile_column_terms key terms =
    if is_derived_count_column key
    then rejected ∷ []
    else compile_group key (codes "(") (terms_of false terms)
      ∷ compile_group key (codes "NOT (") (terms_of true terms)
      ∷ []

unfoldable pub compile_column_search : List (String × List FilterTerm) → List Compiled
compile_column_search [] = []
compile_column_search ((key, terms) ∷ columns) =
    compile_column_terms key terms ++ compile_column_search columns

abbrev pub plain : Option Fragment → Compiled
plain none = rejected
plain (some f) = condition f

unfoldable pub compile_quick_sector : Option Text → Compiled
compile_quick_sector none = nothing
compile_quick_sector (some sector) =
    if is_empty sector
    then nothing
    else plain (
        term_fragment (quote_column_identifier "setor_executor")
          (comparator_for MatchMode.contains_text)
          (pattern_for MatchMode.contains_text (uppercase_copy sector)))

unfoldable pub placeholders : List String → Fragment
placeholders [] = record { sql = []; bindings = [] }
placeholders (code ∷ []) = record { sql = codes "?"; bindings = uppercase_copy (codes code) ∷ [] }
placeholders (code ∷ next ∷ rest) =
    let more = placeholders (next ∷ rest) in
    record { sql = codes "?, " ++ more.sql; bindings = uppercase_copy (codes code) ∷ more.bindings }

abbrev pub excluding : Option Text → Fragment → Compiled
excluding none f = rejected
excluding (some column) f = condition (record {
  sql =
      codes "COALESCE("
      ++ (column ++ (codes ", '') COLLATE NOCASE NOT IN (" ++ (f.sql ++ codes ")")));
  bindings = f.bindings;
})

unfoldable pub compile_status_filters : Bool → Compiled
compile_status_filters exclude =
    if exclude
    then excluding (quote_column_identifier status_column_key) (placeholders excluded_status_codes)
    else nothing
