-- ===== src/Sql/Values/Samples.antt =====
-- The queries for the values of a column and for one record at concrete requests.
use ssa_consulta_rapidacpp.Prelude.{◌≡◌, refl, false, List, [], ◌∷◌, Option, none, some}
use ssa_consulta_rapidacpp.Text.{Text, codes, text_lt, to_upper}
use ssa_consulta_rapidacpp.Sql.Advanced.{
  AdvancedFilterSpec, all_rows, equals, compile_advanced, compile_derivation, compile_reprogramming,
  compile_reprogramming_values, compile_week, compile_week_range, compile_year_from_week, int_le,
  maximum, minimum, numeric_comparison_operator, numeric_value_expression, value_placeholders,
  year_end_week, year_start_week,
}
use ssa_consulta_rapidacpp.Sql.Query.{
  SqlQuery, append_advanced_text_filters, append_column_filters, build_where, predicates,
  update_sorted,
}
use ssa_consulta_rapidacpp.Sql.Distinct.{
  DistinctValuesRequest, build_distinct_values, build_record_by_ssa_number,
  build_direct_derivations, build_max_value_length, ascii_code_segment_condition,
  distinct_values_clause, distinct_values_order_sql, distinct_values_where_sql, doubled_quotes,
  priority_case_sql, priority_cases, single_quoted_sql_literal,
}
use ssa_consulta_rapidacpp.Sql.Parameters.{QueryIsBalanced}
use ssa_consulta_rapidacpp.Sql.Values.{build_distinct_values-QueryIsBalanced}
use ssa_consulta_rapidacpp.Catalog.{
  add_columns, column_by_key, contains, find, general_search_keys, is_canonical_storage_key,
  is_derived_count_column, keys_matching,
}
use ssa_consulta_rapidacpp.Sql.TextFilter.{
  any_column, any_term, column_comparator, comparator_for, compile_column_search,
  compile_column_terms, compile_general_search, compile_general_term, compile_group,
  compile_quick_sector, compile_status_filters, escaped_like_literal, is_exact_number, pattern_for,
  placeholders, safe_pattern_like_pattern, safe_pattern_unsupported, terms_of,
}
use ssa_consulta_rapidacpp.Sql.{
  append_compiled, append_condition, append_sql_and_separator, decimal_with, int_to_decimal,
  quote_column_identifier, quote_table_identifier, to_decimal, uppercase_copy,
}
use ssa_consulta_rapidacpp.IsoWeek.{
  compose_iso_year_week, is_valid_composed, is_valid_filter_year, is_valid_iso_week,
  is_valid_iso_year_week, last_iso_week_of_year,
}
use ssa_consulta_rapidacpp.Calendar.{
  day_number, days_before_month, days_before_year, is_leap, iso_weekday,
}
use ssa_consulta_rapidacpp.Text.Trim.{trim}
use ssa_consulta_rapidacpp.Assoc.{has_key, lookup}
use ssa_consulta_rapidacpp.Search.{
  drop_last, parse_mode, parse_parts, parse_sign, parse_term, parse_terms,
}
use ssa_consulta_rapidacpp.Text.Commas.{comma_parts}
use ssa_consulta_rapidacpp.Text.Case.{uppercase}
use ssa_consulta_rapidacpp.DisplayOrder.{uses_priority_value_order}

abbrev no_advanced : AdvancedFilterSpec
no_advanced = record {
  week_column_key = "semana_cadastro";
  text_filters = [];
  year = none;
  week = none;
  issue_year = none;
  execution_year = none;
  reprogramming_values = [];
  reprogramming_comparison = equals;
  issue_week_start = none;
  issue_week_end = none;
  execution_week_start = none;
  execution_week_end = none;
  derivation_mode = all_rows;
  only_reprogrammed = false;
}

abbrev values_request : DistinctValuesRequest
values_request = record {
  column_key = "situacao";
  column_filters = [];
  filter = record {
    general_terms = [];
    column_terms = [];
    quick_sector = some (codes "IEE3");
    exclude_sca_ses_ste = false;
    advanced = no_advanced;
  };
  limit = 500;
}

abbrev values_text : Option SqlQuery → Option (Text × List Text)
values_text none = none
values_text (some q) = some (q.sql, q.bindings)

values_built :
    values_text (build_distinct_values (codes "ssas") values_request)
    ≡ some (
      codes
          "SELECT TRIM(COALESCE(\"situacao\", '')) FROM \"ssas\" WHERE TRIM(COALESCE(\"situacao\", '')) <> '' AND \"setor_executor\" LIKE ? COLLATE NOCASE ESCAPE '\\'  GROUP BY TRIM(COALESCE(\"situacao\", '')) ORDER BY TRIM(COALESCE(\"situacao\", '')) COLLATE NOCASE ASC, TRIM(COALESCE(\"situacao\", '')) ASC LIMIT ?",
      codes "%IEE3%" ∷ codes "500" ∷ [],
    )
unfolding build_distinct_values is_derived_count_column distinct_values_clause build_where
    append_compiled predicates compile_general_search compile_column_search
    append_advanced_text_filters append_column_filters compile_quick_sector quote_column_identifier
    contains find column_by_key add_columns is_canonical_storage_key has_key lookup pattern_for
    compile_status_filters compile_advanced compile_week compile_year_from_week
    compile_reprogramming_values compile_week_range compile_derivation compile_reprogramming
    quote_table_identifier distinct_values_order_sql uses_priority_value_order
    distinct_values_where_sql append_condition append_sql_and_separator escaped_like_literal
    to_decimal day_number days_before_month days_before_year is_leap iso_weekday general_search_keys
    keys_matching compose_iso_year_week is_valid_composed is_valid_filter_year is_valid_iso_week
    is_valid_iso_year_week last_iso_week_of_year drop_last parse_mode parse_parts parse_sign
    parse_term parse_terms int_le maximum minimum numeric_comparison_operator
    numeric_value_expression value_placeholders year_end_week year_start_week
    ascii_code_segment_condition doubled_quotes priority_case_sql priority_cases
    single_quoted_sql_literal update_sorted any_column any_term column_comparator comparator_for
    compile_column_terms compile_general_term compile_group is_exact_number placeholders
    safe_pattern_like_pattern safe_pattern_unsupported terms_of decimal_with int_to_decimal
    uppercase_copy uppercase comma_parts trim text_lt to_upper
values_built = refl

derivations_built :
    values_text (build_direct_derivations (codes "ssas") (codes "202400001"))
    ≡ some (
      codes
          "SELECT \"numero_ssa\", \"situacao\" FROM \"ssas\" WHERE \"derivada_de\" = ? AND \"numero_ssa\" IS NOT NULL ORDER BY \"numero_ssa\"",
      codes "202400001" ∷ [],
    )
unfolding build_direct_derivations quote_table_identifier quote_column_identifier contains find
    column_by_key add_columns is_canonical_storage_key has_key lookup
derivations_built = refl

derived_count_refused : values_text (build_max_value_length (codes "ssas") "qtd_derivadas") ≡ none
unfolding build_max_value_length is_derived_count_column
derived_count_refused = refl

build_distinct_values-QueryIsBalanced_example :
    QueryIsBalanced (build_distinct_values (codes "ssas") values_request)
    × QueryIsBalanced (build_record_by_ssa_number (codes "ssas") (codes "202400001"))
    × QueryIsBalanced (build_direct_derivations (codes "ssas") (codes "202400001"))
build_distinct_values-QueryIsBalanced_example =
    build_distinct_values-QueryIsBalanced (codes "ssas") (codes "202400001") values_request
