-- ===== src/Sql/Samples.antt =====
-- Tests of the queries, and the theorems on them at concrete requests.
use ssa_consulta_rapidacpp.Prelude.{
  ℕ, ◌≡◌, ◌<◌, ◌≤◌, ◌*◌, ◌^◌, refl, Bool, true, false, ◌&&◌, ◌||◌, [], ◌∷◌, ◌++◌, Option, none,
  some, String, arith, if◌then◌else◌, is_empty, length, ◌==◌,
}
use ssa_consulta_rapidacpp.Prelude.Int.{pos}
use ssa_consulta_rapidacpp.Text.{Text, codes, to_upper, text_lt}
use ssa_consulta_rapidacpp.Text.Case.{uppercase}
use ssa_consulta_rapidacpp.Search.{
  MatchMode, FilterTerm, drop_last, parse_mode, parse_parts, parse_sign, parse_term, parse_terms,
}
use ssa_consulta_rapidacpp.Sql.{
  to_decimal, uppercase_copy, append_compiled, append_condition, append_sql_and_separator,
  decimal_with, int_to_decimal, quote_column_identifier, quote_table_identifier,
  status_last_sort_expression,
}
use ssa_consulta_rapidacpp.Sql.Advanced.{
  AdvancedFilterSpec, root_only, equals, compile_advanced, compile_derivation,
  compile_reprogramming, compile_reprogramming_values, compile_week, compile_week_range,
  compile_year_from_week, int_le, maximum, minimum, numeric_comparison_operator,
  numeric_value_expression, value_placeholders, year_end_week, year_start_week,
}
use ssa_consulta_rapidacpp.Sql.Query.{
  SsaFilterExpression, SqlWhereClause, SsaPageRequest, SqlPageQueries, SqlQuery, build_where,
  build_select_query, build_paged_select_query, build_rows, build, append_advanced_text_filters,
  append_column_filters, build_count, derived_count_join_sql, filter_from_request, order_by_clause,
  order_by_expression, predicates, select_columns, select_expression_for_column, select_list,
  update_sorted, uses_derived_count_column, where_clause_from_request,
}
use ssa_consulta_rapidacpp.Sql.TextFilter.{
  pattern_for, is_exact_number, any_column, any_term, column_comparator, comparator_for,
  compile_column_search, compile_column_terms, compile_general_search, compile_general_term,
  compile_group, compile_quick_sector, compile_status_filters, escaped_like_literal, placeholders,
  safe_pattern_like_pattern, safe_pattern_unsupported, terms_of,
}
use ssa_consulta_rapidacpp.Number.{from_digits}
use ssa_consulta_rapidacpp.Sql.Marks.{marks}
use ssa_consulta_rapidacpp.Sql.Parameters.{build-balance}
use ssa_consulta_rapidacpp.Sql.Words.{build_where-same}
use ssa_consulta_rapidacpp.Sql.Like.{IsLike, is_wildcard, same_letter, finds, like-pattern_for}
use ssa_consulta_rapidacpp.Sql.Page.{build_paged_select_query_lem}
use ssa_consulta_rapidacpp.Catalog.{
  add_columns, column_by_key, contains, find, general_search_keys, is_canonical_storage_key,
  is_derived_count_column, keys_matching, visible_keys_or_default,
}
use ssa_consulta_rapidacpp.IsoWeek.{
  compose_iso_year_week, is_valid_composed, is_valid_filter_year, is_valid_iso_week,
  is_valid_iso_year_week, last_iso_week_of_year,
}
use ssa_consulta_rapidacpp.Calendar.{
  day_number, days_before_month, days_before_year, is_leap, iso_weekday,
}
use ssa_consulta_rapidacpp.Text.Trim.{trim}
use ssa_consulta_rapidacpp.Text.Commas.{comma_parts}
use ssa_consulta_rapidacpp.Assoc.{has_key, lookup}

abbrev advanced : AdvancedFilterSpec
advanced = record {
  week_column_key = "semana_cadastro";
  text_filters = ("descricao_ssa", codes "!bomba") ∷ [];
  year = some (pos 2024);
  week = none;
  issue_year = none;
  execution_year = none;
  reprogramming_values = pos 1 ∷ pos 3 ∷ [];
  reprogramming_comparison = equals;
  issue_week_start = some (pos 202401);
  issue_week_end = none;
  execution_week_start = none;
  execution_week_end = none;
  derivation_mode = root_only;
  only_reprogrammed = true;
}

abbrev request : SsaPageRequest
request = record {
  page_index = 2;
  page_size = 50;
  search_text = codes "100%? !vazamento";
  column_filters = ("numero_ssa", codes "=202400001") ∷ [];
  quick_sector = codes "IEE3";
  exclude_sca_ses_ste = true;
  advanced_filters = advanced;
  sort = record { column_key = "qtd_derivadas"; ascending = false; status_last = true };
  visible_columns = "numero_ssa" ∷ "situacao" ∷ [];
}

abbrev no_query : SqlQuery
no_query = record { sql = []; bindings = [] }

abbrev or_none : Option SqlPageQueries → SqlPageQueries
or_none none = record { page = no_query; count = no_query }
or_none (some queries) = queries

abbrev queries : SqlPageQueries
queries = or_none (build (codes "ssas") request false)

built : build (codes "ssas") request false ≡ some queries
unfolding build build_rows where_clause_from_request build_where append_compiled predicates
    compile_general_search parse_terms parse_parts comma_parts parse_term parse_sign trim parse_mode
    compile_general_term any_column general_search_keys keys_matching quote_column_identifier
    contains find column_by_key add_columns is_canonical_storage_key has_key lookup pattern_for
    compile_column_search filter_from_request append_advanced_text_filters update_sorted
    append_column_filters text_lt day_number days_before_month days_before_year is_leap iso_weekday
    is_derived_count_column visible_keys_or_default compose_iso_year_week is_valid_composed
    is_valid_filter_year is_valid_iso_week is_valid_iso_year_week last_iso_week_of_year drop_last
    compile_advanced compile_derivation compile_reprogramming compile_reprogramming_values
    compile_week compile_week_range compile_year_from_week int_le maximum minimum
    numeric_comparison_operator numeric_value_expression value_placeholders year_end_week
    year_start_week build_count build_paged_select_query build_select_query derived_count_join_sql
    order_by_clause order_by_expression select_columns select_expression_for_column select_list
    uses_derived_count_column any_term column_comparator comparator_for compile_column_terms
    compile_group compile_quick_sector compile_status_filters escaped_like_literal is_exact_number
    placeholders safe_pattern_like_pattern safe_pattern_unsupported terms_of append_condition
    append_sql_and_separator decimal_with int_to_decimal quote_table_identifier
    status_last_sort_expression to_decimal uppercase_copy uppercase to_upper
built = refl

placeholders_of_page : marks queries.page.sql ≡ 61
unfolding marks build build_rows where_clause_from_request build_where append_compiled predicates
    compile_general_search parse_terms parse_parts comma_parts parse_term parse_sign trim parse_mode
    compile_general_term any_column general_search_keys keys_matching quote_column_identifier
    contains find column_by_key add_columns is_canonical_storage_key has_key lookup pattern_for
    compile_column_search filter_from_request append_advanced_text_filters update_sorted
    append_column_filters day_number days_before_month days_before_year is_leap iso_weekday
    is_derived_count_column visible_keys_or_default compose_iso_year_week is_valid_composed
    is_valid_filter_year is_valid_iso_week is_valid_iso_year_week last_iso_week_of_year drop_last
    compile_advanced compile_derivation compile_reprogramming compile_reprogramming_values
    compile_week compile_week_range compile_year_from_week int_le maximum minimum
    numeric_comparison_operator numeric_value_expression value_placeholders year_end_week
    year_start_week build_count build_paged_select_query build_select_query derived_count_join_sql
    order_by_clause order_by_expression select_columns select_expression_for_column select_list
    uses_derived_count_column any_term column_comparator comparator_for compile_column_terms
    compile_group compile_quick_sector compile_status_filters escaped_like_literal is_exact_number
    placeholders safe_pattern_like_pattern safe_pattern_unsupported terms_of append_condition
    append_sql_and_separator decimal_with int_to_decimal quote_table_identifier
    status_last_sort_expression to_decimal uppercase_copy uppercase text_lt to_upper
placeholders_of_page = refl

build-balance_example :
    (marks queries.page.sql ≡ length queries.page.bindings)
    × (marks queries.count.sql ≡ length queries.count.bindings)
build-balance_example = build-balance (codes "ssas") request false queries built

abbrev term_of : MatchMode → String → FilterTerm
term_of mode word = record { text = codes word; negated = false; mode = mode }

abbrev filter_on : String → SsaFilterExpression
filter_on word = record {
  general_terms = [];
  column_terms = ("situacao", term_of MatchMode.starts_with word ∷ []) ∷ [];
  quick_sector = none;
  exclude_sca_ses_ste = true;
  advanced = advanced;
}

abbrev clause_or_none : Option SqlWhereClause → SqlWhereClause
clause_or_none none = record { sql = []; bindings = [] }
clause_or_none (some clause) = clause

abbrev plain_clause : SqlWhereClause
plain_clause =
    clause_or_none (build_where (term_of MatchMode.contains_text "bomba" ∷ []) (filter_on "STE"))

abbrev hostile_clause : SqlWhereClause
hostile_clause =
    clause_or_none (
      build_where (term_of MatchMode.contains_text "' OR 1=1; --" ∷ []) (filter_on "\" DROP TABLE"))

plain_accepted :
    build_where (term_of MatchMode.contains_text "bomba" ∷ []) (filter_on "STE") ≡ some plain_clause
unfolding build_where append_compiled predicates compile_general_search compile_general_term
    any_column general_search_keys keys_matching quote_column_identifier contains find column_by_key
    add_columns is_canonical_storage_key has_key lookup pattern_for day_number days_before_month
    days_before_year is_leap iso_weekday is_derived_count_column compose_iso_year_week
    is_valid_composed is_valid_filter_year is_valid_iso_week is_valid_iso_year_week
    last_iso_week_of_year compile_advanced compile_derivation compile_reprogramming
    compile_reprogramming_values compile_week compile_week_range compile_year_from_week int_le
    maximum minimum numeric_comparison_operator numeric_value_expression value_placeholders
    year_end_week year_start_week any_term column_comparator comparator_for compile_column_search
    compile_column_terms compile_group compile_quick_sector compile_status_filters
    escaped_like_literal is_exact_number placeholders safe_pattern_like_pattern
    safe_pattern_unsupported terms_of append_condition append_sql_and_separator decimal_with
    int_to_decimal to_decimal uppercase_copy uppercase to_upper
plain_accepted = refl

hostile_accepted :
    build_where (term_of MatchMode.contains_text "' OR 1=1; --" ∷ []) (filter_on "\" DROP TABLE")
    ≡ some hostile_clause
unfolding build_where append_compiled predicates compile_general_search compile_general_term
    any_column general_search_keys keys_matching quote_column_identifier contains find column_by_key
    add_columns is_canonical_storage_key has_key lookup pattern_for day_number days_before_month
    days_before_year is_leap iso_weekday is_derived_count_column compose_iso_year_week
    is_valid_composed is_valid_filter_year is_valid_iso_week is_valid_iso_year_week
    last_iso_week_of_year compile_advanced compile_derivation compile_reprogramming
    compile_reprogramming_values compile_week compile_week_range compile_year_from_week int_le
    maximum minimum numeric_comparison_operator numeric_value_expression value_placeholders
    year_end_week year_start_week any_term column_comparator comparator_for compile_column_search
    compile_column_terms compile_group compile_quick_sector compile_status_filters
    escaped_like_literal is_exact_number placeholders safe_pattern_like_pattern
    safe_pattern_unsupported terms_of append_condition append_sql_and_separator decimal_with
    int_to_decimal to_decimal uppercase_copy uppercase to_upper
hostile_accepted = refl

exact_1 : is_exact_number (codes "bomba") ≡ is_exact_number (codes "' OR 1=1; --")
unfolding is_exact_number
exact_1 = refl

exact_2 : is_exact_number (codes "STE") ≡ is_exact_number (codes "\" DROP TABLE")
unfolding is_exact_number
exact_2 = refl

build_where-same_example : plain_clause.sql ≡ hostile_clause.sql
build_where-same_example =
    build_where-same (term_of MatchMode.contains_text "bomba" ∷ [])
      (term_of MatchMode.contains_text "' OR 1=1; --" ∷ []) (filter_on "STE")
      (filter_on "\" DROP TABLE") plain_clause hostile_clause ((refl, refl, refl, exact_1), tt)
      ((refl, ((refl, refl, refl, exact_2), tt), tt)) tt refl refl plain_accepted hostile_accepted

abbrev page_clause : SqlWhereClause
page_clause = record { sql = []; bindings = [] }

abbrev text_or_none : Option Text → Text
text_or_none none = []
text_or_none (some t) = t

abbrev selection : Text
selection = text_or_none (build_select_query request (codes "ssas") [] false)

selected_lem : build_select_query request (codes "ssas") [] false ≡ some selection
unfolding build_select_query select_columns visible_keys_or_default contains find column_by_key
    add_columns is_canonical_storage_key has_key lookup select_list select_expression_for_column
    quote_column_identifier quote_table_identifier uses_derived_count_column is_derived_count_column
    derived_count_join_sql order_by_clause order_by_expression status_last_sort_expression
    uppercase_copy uppercase to_upper
selected_lem = refl

build_paged_select_query_lem_example :
    (request.page_index * request.page_size < 2 ^ 64
      → build_paged_select_query request (codes "ssas") page_clause false
          ≡ some (record {
            sql = selection ++ codes " LIMIT ? OFFSET ?";
            bindings = [] ++ (to_decimal 50 ∷ to_decimal (2 * 50) ∷ []);
          })
        × (from_digits (to_decimal 50) ≡ some 50)
        × (from_digits (to_decimal (2 * 50)) ≡ some (2 * 50)))
    × (2 ^ 64 ≤ request.page_index * request.page_size
        → build_paged_select_query request (codes "ssas") page_clause false ≡ none)
build_paged_select_query_lem_example =
    build_paged_select_query_lem request (codes "ssas") page_clause false selection selected_lem
      (omega arith) (omega arith)

-- A LIKE operator written out.
abbrev any_suffix : (Text → Bool) → Text → Bool
any_suffix matches [] = matches []
any_suffix matches (c ∷ t) = matches (c ∷ t) || any_suffix matches t

abbrev after_letter : ℕ → (Text → Bool) → Text → Bool
after_letter d matches [] = false
after_letter d matches (c ∷ t) = same_letter d c && matches t

abbrev after_any : (Text → Bool) → Text → Bool
after_any matches [] = false
after_any matches (c ∷ t) = matches t

unfoldable like_from : Text → Bool → Text → Bool
like_from [] escaped = is_empty
like_from (d ∷ p) escaped =
    let plain = like_from p false in
    let behind_escape = like_from p true in
    if escaped
    then after_letter d plain
    else if d == b'%'
    then any_suffix plain
    else if d == b'_'
    then after_any plain
    else if d == b'\\'
    then behind_escape
    else after_letter d plain

abbrev sample_like : Text → Text → Bool
sample_like pattern value = like_from pattern false value

sample_plain :
    (d : ℕ) (p t : Text)
    → is_wildcard d ≡ false
    → sample_like (d ∷ p) t ≡ after_letter d (like_from p false) t
unfolding like_from
sample_plain d p t h =
    let a : (d == b'%') ≡ false = ground arith in
    let b : (d == b'_') ≡ false = ground arith in
    let c : (d == b'\\') ≡ false = ground arith in rw (a, b, c) refl

sample_like-IsLike : IsLike sample_like
unfolding like_from
sample_like-IsLike = record {
  end_end = refl;
  end_more = λ c t. refl;
  percent_end = λ p. refl;
  percent_more = λ p c t. refl;
  escape_end = λ d p. refl;
  escape_more = λ d p c t. refl;
  plain_end = λ d p h. sample_plain d p [] h;
  plain_more = λ d p c t h. sample_plain d p (c ∷ t) h;
}

abbrev found_pattern : Text
found_pattern = text_or_none (pattern_for MatchMode.contains_text (uppercase_copy (codes "100%")))

found_pattern_lem :
    pattern_for MatchMode.contains_text (uppercase_copy (codes "100%")) ≡ some found_pattern
unfolding pattern_for
found_pattern_lem = refl

like-pattern_for_example :
    sample_like found_pattern (codes "Valor 100% pago")
    ≡ finds MatchMode.contains_text (uppercase (codes "100%")) (uppercase (codes "Valor 100% pago"))
like-pattern_for_example =
    like-pattern_for sample_like sample_like-IsLike MatchMode.contains_text (codes "100%")
      (codes "Valor 100% pago") found_pattern refl found_pattern_lem
