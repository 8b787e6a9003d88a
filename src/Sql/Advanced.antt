-- ===== src/Sql/Advanced.antt =====
-- The conditions of the advanced filters: src/query/AdvancedFilterSqlCompiler.cpp, with
-- AdvancedFilterSpec, its week functions and the comparison modes of src/domain/SsaTypes.h. An int of
-- the filter is an integer; a negative year or week is refused like any other that is not valid.
use ssa_consulta_rapidacpp.Prelude.{
  ℕ, Bool, true, false, not, ◌||◌, List, [], ◌∷◌, ◌++◌, Option, none, some, String, if◌then◌else◌,
  leb,
}
use ssa_consulta_rapidacpp.Prelude.Int.{ℤ, pos, negsuc}
use ssa_consulta_rapidacpp.Text.{Text, codes, text_eq}
use ssa_consulta_rapidacpp.IsoWeek.{
  is_valid_filter_year, is_valid_iso_week, is_valid_iso_year_week, last_iso_week_of_year,
  compose_iso_year_week, is_valid_composed,
}
use ssa_consulta_rapidacpp.Catalog.{contains, find}
use ssa_consulta_rapidacpp.Catalog.Columns.{ColumnDef, ColumnType}
use ssa_consulta_rapidacpp.Sql.{
  quote_column_identifier, to_decimal, int_to_decimal, Fragment, Compiled, rejected, nothing,
  condition,
}

pub data DerivationFilterMode : Type 0 where
  all_rows : DerivationFilterMode
  root_only : DerivationFilterMode
  derived_only : DerivationFilterMode

pub data NumericComparisonMode : Type 0 where
  equals : NumericComparisonMode
  less_or_equal : NumericComparisonMode
  greater_or_equal : NumericComparisonMode

unfoldable pub normalized_numeric_comparison_mode : Text → Text
normalized_numeric_comparison_mode value =
    if text_eq value (codes "lte") || text_eq value (codes "<=")
    then codes "lte"
    else if text_eq value (codes "gte") || text_eq value (codes ">=")
    then codes "gte"
    else codes "eq"

unfoldable pub numeric_comparison_mode_from_string : Text → NumericComparisonMode
numeric_comparison_mode_from_string value =
    let normalized = normalized_numeric_comparison_mode value in
    if text_eq normalized (codes "lte")
    then less_or_equal
    else if text_eq normalized (codes "gte")
    then greater_or_equal
    else equals

unfoldable pub numeric_comparison_operator : NumericComparisonMode → Text
numeric_comparison_operator equals = codes "="
numeric_comparison_operator less_or_equal = codes "<="
numeric_comparison_operator greater_or_equal = codes ">="

pub record AdvancedFilterSpec : Type 0 where
  pub week_column_key : String
  pub text_filters : List (String × Text)
  pub year : Option ℤ
  pub week : Option ℤ
  pub issue_year : Option ℤ
  pub execution_year : Option ℤ
  pub reprogramming_values : List ℤ
  pub reprogramming_comparison : NumericComparisonMode
  pub issue_week_start : Option ℤ
  pub issue_week_end : Option ℤ
  pub execution_week_start : Option ℤ
  pub execution_week_end : Option ℤ
  pub derivation_mode : DerivationFilterMode
  pub only_reprogrammed : Bool

abbrev pub is_integer_type : ColumnType → Bool
is_integer_type ColumnType.text = false
is_integer_type ColumnType.integer = true
is_integer_type ColumnType.date_text = false

abbrev pub is_integer_column : Option (Option ColumnDef) → Bool
is_integer_column none = false
is_integer_column (some none) = false
is_integer_column (some (some column)) = is_integer_type column.type'

abbrev pub trimmed_column : Text → Text
trimmed_column column = codes "TRIM(COALESCE(" ++ (column ++ codes ", ''))")

abbrev pub cast_column : Text → Text
cast_column text =
    codes "CAST(CASE WHEN "
    ++ (text
        ++ (codes " <> '' AND "
            ++ (text
                ++ (codes " NOT GLOB '*[^0-9]*' THEN "
                    ++ (text ++ codes " ELSE NULL END AS INTEGER)")))))

abbrev pub numeric_value : Bool → Option Text → Option Text
numeric_value integer none = none
numeric_value integer (some column) =
    some (if integer then column else cast_column (trimmed_column column))

unfoldable pub numeric_value_expression : String → Option Text
numeric_value_expression key =
    numeric_value (is_integer_column (find key)) (quote_column_identifier key)

-- A condition on a numeric column: the text after its expression, and the bindings.
abbrev pub on_column : Text → Text → List Text → Option Text → Compiled
on_column before after bindings none = rejected
on_column before after bindings (some column) =
    condition (record { sql = before ++ (column ++ after); bindings = bindings })

abbrev pub between : String → Option ℕ → Option ℕ → Compiled
between key none last = rejected
between key (some first) none = rejected
between key (some first) (some last) =
    on_column [] (codes " BETWEEN ? AND ?") (to_decimal first ∷ to_decimal last ∷ [])
      (numeric_value_expression key)

abbrev pub equals_week : String → Option ℕ → Compiled
equals_week key none = rejected
equals_week key (some exact) =
    on_column [] (codes " = ?") (to_decimal exact ∷ []) (numeric_value_expression key)

-- yearStartWeek and yearEndWeek of a year.
unfoldable pub year_start_week : ℕ → Option ℕ
year_start_week year = compose_iso_year_week year 1

abbrev pub week_in : ℕ → Option ℕ → Option ℕ
week_in year none = none
week_in year (some week) = compose_iso_year_week year week

unfoldable pub year_end_week : ℕ → Option ℕ
year_end_week year = week_in year (last_iso_week_of_year year)

unfoldable pub compile_week : String → Option ℤ → Option ℤ → Compiled
compile_week key none none = nothing
compile_week key (some (negsuc n)) week = rejected
compile_week key (some (pos year)) (some (negsuc n)) = rejected
compile_week key (some (pos year)) (some (pos week)) =
    if not (is_valid_filter_year year)
      || not (is_valid_iso_week week)
      || not (is_valid_iso_year_week year week)
      || not (contains key)
    then rejected
    else equals_week key (compose_iso_year_week year week)
compile_week key (some (pos year)) none =
    if not (is_valid_filter_year year) || not (contains key)
    then rejected
    else between key (year_start_week year) (year_end_week year)
compile_week key none (some (negsuc n)) = rejected
compile_week key none (some (pos week)) =
    if not (is_valid_iso_week week) || not (contains key)
    then rejected
    else on_column (codes "(") (codes " % 100) = ?") (to_decimal week ∷ [])
        (numeric_value_expression key)

unfoldable pub compile_year_from_week : String → Option ℤ → Compiled
compile_year_from_week key none = nothing
compile_year_from_week key (some (negsuc n)) = rejected
compile_year_from_week key (some (pos year)) =
    between key (year_start_week year) (year_end_week year)

-- The range's ends; an end that is no valid year-week is refused.
abbrev pub valid_end : ℤ → Bool
valid_end (pos n) = is_valid_composed n
valid_end (negsuc n) = false

unfoldable pub compile_week_range : String → Option ℤ → Option ℤ → Compiled
compile_week_range key none none = nothing
compile_week_range key (some first) none =
    if not (valid_end first)
    then rejected
    else on_column [] (codes " >= ?") (int_to_decimal first ∷ []) (numeric_value_expression key)
compile_week_range key none (some last) =
    if not (valid_end last)
    then rejected
    else on_column [] (codes " <= ?") (int_to_decimal last ∷ []) (numeric_value_expression key)
compile_week_range key (some first) (some last) =
    if not (valid_end first) || not (valid_end last)
    then rejected
    else on_column [] (codes " BETWEEN ? AND ?") (int_to_decimal first ∷ int_to_decimal last ∷ [])
        (numeric_value_expression key)

unfoldable pub int_le : ℤ → ℤ → Bool
int_le (pos a) (pos b) = leb a b
int_le (pos a) (negsuc b) = false
int_le (negsuc a) (pos b) = true
int_le (negsuc a) (negsuc b) = leb b a

-- The two results of std::ranges::minmax_element.
unfoldable pub minimum : ℤ → List ℤ → ℤ
minimum least [] = least
minimum least (v ∷ values) = minimum (if int_le least v then least else v) values

unfoldable pub maximum : ℤ → List ℤ → ℤ
maximum greatest [] = greatest
maximum greatest (v ∷ values) = maximum (if int_le greatest v then v else greatest) values

unfoldable pub value_placeholders : ℤ → List ℤ → Fragment
value_placeholders v [] = record { sql = codes "?"; bindings = int_to_decimal v ∷ [] }
value_placeholders v (next ∷ values) =
    let more = value_placeholders next values in
    record { sql = codes "?, " ++ more.sql; bindings = int_to_decimal v ∷ more.bindings }

abbrev pub compared : NumericComparisonMode → ℤ → List ℤ → Option Text → Compiled
compared equals v values column =
    let values_in = value_placeholders v values in
    on_column [] (codes " IN (" ++ (values_in.sql ++ codes ")")) values_in.bindings column
compared less_or_equal v values column =
    on_column [] (codes " " ++ (numeric_comparison_operator less_or_equal ++ codes " ?"))
      (int_to_decimal (maximum v values) ∷ []) column
compared greater_or_equal v values column =
    on_column [] (codes " " ++ (numeric_comparison_operator greater_or_equal ++ codes " ?"))
      (int_to_decimal (minimum v values) ∷ []) column

unfoldable pub compile_reprogramming_values : List ℤ → NumericComparisonMode → Compiled
compile_reprogramming_values [] mode = nothing
compile_reprogramming_values (v ∷ values) mode =
    compared mode v values (numeric_value_expression "num_reprogramacoes")

abbrev pub derivation_sql : DerivationFilterMode → Text → Compiled
derivation_sql all_rows column = nothing
derivation_sql root_only column = condition (record {
  sql = codes "(" ++ (column ++ (codes " IS NULL OR " ++ (column ++ codes " = '')")));
  bindings = [];
})
derivation_sql derived_only column = condition (record {
  sql = codes "(" ++ (column ++ (codes " IS NOT NULL AND " ++ (column ++ codes " <> '')")));
  bindings = [];
})

abbrev pub derivation_on : DerivationFilterMode → Option Text → Compiled
derivation_on all_rows column = nothing
derivation_on root_only none = rejected
derivation_on root_only (some column) = derivation_sql root_only column
derivation_on derived_only none = rejected
derivation_on derived_only (some column) = derivation_sql derived_only column

unfoldable pub compile_derivation : DerivationFilterMode → Compiled
compile_derivation mode = derivation_on mode (quote_column_identifier "derivada_de")

abbrev pub both_positive : Option Text → Option Text → Compiled
both_positive none second = rejected
both_positive (some first) none = rejected
both_positive (some first) (some second) = condition (record {
  sql = codes "(" ++ (first ++ (codes " > 0 OR " ++ (second ++ codes " > 0)")));
  bindings = [];
})

unfoldable pub compile_reprogramming : Bool → Compiled
compile_reprogramming only_reprogrammed =
    if only_reprogrammed
    then both_positive (numeric_value_expression "num_reprogramacoes")
        (numeric_value_expression "total_de_reprogramacoes")
    else nothing

-- appendAdvancedFilters, in its order.
unfoldable pub compile_advanced : AdvancedFilterSpec → List Compiled
compile_advanced advanced =
    compile_week advanced.week_column_key advanced.year advanced.week
    ∷ compile_year_from_week "semana_cadastro" advanced.issue_year
    ∷ compile_year_from_week "semana_executada" advanced.execution_year
    ∷ compile_reprogramming_values advanced.reprogramming_values advanced.reprogramming_comparison
    ∷ compile_week_range "semana_cadastro" advanced.issue_week_start advanced.issue_week_end
    ∷ compile_week_range "semana_executada" advanced.execution_week_start
        advanced.execution_week_end
    ∷ compile_derivation advanced.derivation_mode
    ∷ compile_reprogramming advanced.only_reprogrammed
    ∷ []
