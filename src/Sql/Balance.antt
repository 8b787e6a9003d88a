-- ===== src/Sql/Balance.antt =====
-- Placeholders and values of whole queries: the conditions of src/query/AdvancedFilterSqlCompiler.cpp,
-- the condition list of src/query/SqlPredicateBuilder.cpp and the queries of
-- src/query/SqlQueryBuilder.cpp.
use ssa_consulta_rapidacpp.Prelude.{
  ℕ, suc, All, ◌+◌, ◌≡◌, refl, ap, Bool, true, false, List, [], ◌∷◌, ◌++◌, Option, none, some,
  String, arith, if◌then◌else◌, length,
}
use ssa_consulta_rapidacpp.Prelude.Int.{ℤ, pos, negsuc}
use ssa_consulta_rapidacpp.Text.{Text, codes}
use ssa_consulta_rapidacpp.Catalog.{find}
use ssa_consulta_rapidacpp.IsoWeek.{compose_iso_year_week}
use ssa_consulta_rapidacpp.Sql.{
  quote_column_identifier, Compiled, rejected, to_decimal, int_to_decimal,
}
use ssa_consulta_rapidacpp.Sql.Advanced.{
  DerivationFilterMode, NumericComparisonMode, numeric_comparison_operator, AdvancedFilterSpec,
  is_integer_column, numeric_value, numeric_value_expression, on_column, between, equals_week,
  year_start_week, year_end_week, compile_week, compile_year_from_week, compile_week_range, minimum,
  maximum, value_placeholders, compile_reprogramming_values, derivation_on, compile_derivation,
  both_positive, compile_reprogramming, compile_advanced, all_rows, root_only, derived_only, equals,
  less_or_equal, greater_or_equal,
}
use ssa_consulta_rapidacpp.Sql.Marks.{marks, marks-append, Unmarked, quoted-Unmarked, IsBalanced}

numeric_value-Unmarked :
    (integer : Bool) (column : Option Text)
    → Unmarked column
    → Unmarked (numeric_value integer column)
unfolding marks
numeric_value-Unmarked integer none u = tt
numeric_value-Unmarked true (some column) u = u
numeric_value-Unmarked false (some column) u = simp (marks-append, u) refl

number-Unmarked : (key : String) → Unmarked (numeric_value_expression key)
unfolding numeric_value_expression
number-Unmarked key =
    numeric_value-Unmarked (is_integer_column (find key)) (quote_column_identifier key)
      (quoted-Unmarked key)

on_column-IsBalanced :
    (before after : Text) (bindings : List Text) (column : Option Text)
    → Unmarked column
    → marks before + marks after ≡ length bindings
    → IsBalanced (on_column before after bindings column)
on_column-IsBalanced before after bindings none u h = tt
on_column-IsBalanced before after bindings (some column) u h =
    simp (marks-append, u) (omega (arith, h))

on_number-IsBalanced :
    (before after : Text) (bindings : List Text) (key : String)
    → marks before + marks after ≡ length bindings
    → IsBalanced (on_column before after bindings (numeric_value_expression key))
on_number-IsBalanced before after bindings key h =
    on_column-IsBalanced before after bindings (numeric_value_expression key) (number-Unmarked key)
      h

unless-IsBalanced :
    (refused : Bool) (c : Compiled) → IsBalanced c → IsBalanced (if refused then rejected else c)
unless-IsBalanced true c h = tt
unless-IsBalanced false c h = h

between-IsBalanced : (key : String) (first last : Option ℕ) → IsBalanced (between key first last)
unfolding marks
between-IsBalanced key none last = tt
between-IsBalanced key (some first) none = tt
between-IsBalanced key (some first) (some last) =
    on_number-IsBalanced [] (codes " BETWEEN ? AND ?") (to_decimal first ∷ to_decimal last ∷ []) key
      refl

equals_week-IsBalanced : (key : String) (week : Option ℕ) → IsBalanced (equals_week key week)
unfolding marks
equals_week-IsBalanced key none = tt
equals_week-IsBalanced key (some exact) =
    on_number-IsBalanced [] (codes " = ?") (to_decimal exact ∷ []) key refl

week-IsBalanced : (key : String) (year week : Option ℤ) → IsBalanced (compile_week key year week)
unfolding compile_week marks
week-IsBalanced key none none = tt
week-IsBalanced key (some (negsuc n)) week = tt
week-IsBalanced key (some (pos year)) (some (negsuc n)) = tt
week-IsBalanced key (some (pos year)) (some (pos week)) =
    unless-IsBalanced _ (equals_week key (compose_iso_year_week year week))
      (equals_week-IsBalanced key (compose_iso_year_week year week))
week-IsBalanced key (some (pos year)) none =
    unless-IsBalanced _ (between key (year_start_week year) (year_end_week year))
      (between-IsBalanced key (year_start_week year) (year_end_week year))
week-IsBalanced key none (some (negsuc n)) = tt
week-IsBalanced key none (some (pos week)) =
    unless-IsBalanced _ _
      (on_number-IsBalanced (codes "(") (codes " % 100) = ?") (to_decimal week ∷ []) key refl)

year-IsBalanced : (key : String) (year : Option ℤ) → IsBalanced (compile_year_from_week key year)
unfolding compile_year_from_week
year-IsBalanced key none = tt
year-IsBalanced key (some (negsuc n)) = tt
year-IsBalanced key (some (pos year)) =
    between-IsBalanced key (year_start_week year) (year_end_week year)

week_range-IsBalanced :
    (key : String) (first last : Option ℤ) → IsBalanced (compile_week_range key first last)
unfolding compile_week_range marks
week_range-IsBalanced key none none = tt
week_range-IsBalanced key (some first) none =
    unless-IsBalanced _ _
      (on_number-IsBalanced [] (codes " >= ?") (int_to_decimal first ∷ []) key refl)
week_range-IsBalanced key none (some last) =
    unless-IsBalanced _ _
      (on_number-IsBalanced [] (codes " <= ?") (int_to_decimal last ∷ []) key refl)
week_range-IsBalanced key (some first) (some last) = unless-IsBalanced _ _ (
    on_number-IsBalanced [] (codes " BETWEEN ? AND ?")
      (int_to_decimal first ∷ int_to_decimal last ∷ []) key refl)

value_placeholders-balance :
    (v : ℤ) (values : List ℤ)
    → marks (value_placeholders v values).sql ≡ length (value_placeholders v values).bindings
unfolding value_placeholders marks
value_placeholders-balance v [] = refl
value_placeholders-balance v (next ∷ values) = ap suc (value_placeholders-balance next values)

reprogramming_values-IsBalanced :
    (values : List ℤ) (mode : NumericComparisonMode)
    → IsBalanced (compile_reprogramming_values values mode)
unfolding compile_reprogramming_values numeric_comparison_operator marks
reprogramming_values-IsBalanced [] mode = tt
reprogramming_values-IsBalanced (v ∷ values) equals =
    on_number-IsBalanced [] (codes " IN (" ++ ((value_placeholders v values).sql ++ codes ")"))
      (value_placeholders v values).bindings "num_reprogramacoes"
      (simp (marks-append) (omega (arith, value_placeholders-balance v values)))
reprogramming_values-IsBalanced (v ∷ values) less_or_equal =
    on_number-IsBalanced [] (codes " <= ?") (int_to_decimal (maximum v values) ∷ [])
      "num_reprogramacoes" refl
reprogramming_values-IsBalanced (v ∷ values) greater_or_equal =
    on_number-IsBalanced [] (codes " >= ?") (int_to_decimal (minimum v values) ∷ [])
      "num_reprogramacoes" refl

derivation_on-IsBalanced :
    (mode : DerivationFilterMode) (column : Option Text)
    → Unmarked column
    → IsBalanced (derivation_on mode column)
unfolding marks
derivation_on-IsBalanced all_rows column u = tt
derivation_on-IsBalanced root_only none u = tt
derivation_on-IsBalanced root_only (some column) u = simp (marks-append, u) refl
derivation_on-IsBalanced derived_only none u = tt
derivation_on-IsBalanced derived_only (some column) u = simp (marks-append, u) refl

both_positive-IsBalanced :
    (first second : Option Text)
    → Unmarked first
    → Unmarked second
    → IsBalanced (both_positive first second)
unfolding marks
both_positive-IsBalanced none second u v = tt
both_positive-IsBalanced (some first) none u v = tt
both_positive-IsBalanced (some first) (some second) u v = simp (marks-append, u, v) refl

reprogramming-IsBalanced : (only : Bool) → IsBalanced (compile_reprogramming only)
unfolding compile_reprogramming
reprogramming-IsBalanced true =
    both_positive-IsBalanced (numeric_value_expression "num_reprogramacoes")
      (numeric_value_expression "total_de_reprogramacoes") (number-Unmarked "num_reprogramacoes")
      (number-Unmarked "total_de_reprogramacoes")
reprogramming-IsBalanced false = tt

pub advanced-IsBalanced :
    (advanced : AdvancedFilterSpec) → All IsBalanced (compile_advanced advanced)
unfolding compile_advanced compile_derivation
advanced-IsBalanced a = (
  week-IsBalanced a.week_column_key a.year a.week,
  (
    year-IsBalanced "semana_cadastro" a.issue_year,
    (
      year-IsBalanced "semana_executada" a.execution_year,
      (
        reprogramming_values-IsBalanced a.reprogramming_values a.reprogramming_comparison,
        (
          week_range-IsBalanced "semana_cadastro" a.issue_week_start a.issue_week_end,
          (
            week_range-IsBalanced "semana_executada" a.execution_week_start a.execution_week_end,
            (
              derivation_on-IsBalanced a.derivation_mode (quote_column_identifier "derivada_de")
                  (quoted-Unmarked "derivada_de"),
              (reprogramming-IsBalanced a.only_reprogrammed, tt),
            ),
          ),
        ),
      ),
    ),
  ),
)
