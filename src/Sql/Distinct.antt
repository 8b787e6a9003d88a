-- ===== src/Sql/Distinct.antt =====
-- The other queries of src/query/SqlQueryBuilder.cpp: one record, the direct derivations of a record, the
-- values of a column and their greatest length. Where the code throws, the result is none.
use ssa_consulta_rapidacpp.Prelude.{
  ℕ, suc, ◌+◌, Bool, List, [], ◌∷◌, ◌++◌, Option, none, some, String, if◌then◌else◌, is_empty,
  length, ◌==◌,
}
use ssa_consulta_rapidacpp.Text.{Text, codes}
use ssa_consulta_rapidacpp.Catalog.{find, is_derived_count_column}
use ssa_consulta_rapidacpp.DisplayOrder.{ordered_priority_values, uses_priority_value_order}
use ssa_consulta_rapidacpp.Sql.{quote_column_identifier, quote_table_identifier, to_decimal}
use ssa_consulta_rapidacpp.Sql.Advanced.{is_integer_column, trimmed_column}
use ssa_consulta_rapidacpp.Sql.Query.{
  SsaFilterExpression, SqlWhereClause, SqlQuery, build_where, append_column_filters,
  append_advanced_text_filters, and_then,
}

-- The flag orderByFrequency, which no query reads, is left out.
pub record DistinctValuesRequest : Type 0 where
  pub column_key : String
  pub column_filters : List (String × Text)
  pub filter : SsaFilterExpression
  pub limit : ℕ

unfoldable pub distinct_values_where_sql : Text → Text → Text
distinct_values_where_sql projection conditions =
    projection
    ++ (codes " <> ''" ++ (if is_empty conditions then [] else codes " AND " ++ conditions))

unfoldable pub doubled_quotes : Text → Text
doubled_quotes [] = []
doubled_quotes (c ∷ value) =
    let rest = doubled_quotes value in if c == b'\'' then c ∷ c ∷ rest else c ∷ rest

unfoldable pub single_quoted_sql_literal : Text → Text
single_quoted_sql_literal value = codes "'" ++ (doubled_quotes value ++ codes "'")

abbrev pub next_char : Text → ℕ → Text
next_char expression n =
    codes "SUBSTR(UPPER(" ++ (expression ++ (codes "), " ++ (to_decimal n ++ codes ", 1)")))

unfoldable pub ascii_code_segment_condition : Text → Text → Text
ascii_code_segment_condition expression code =
    let next = next_char expression (length code + 1) in
    codes "UPPER("
    ++ (expression
        ++ (codes ") = "
            ++ (single_quoted_sql_literal code
                ++ (codes " OR (UPPER("
                    ++ (expression
                        ++ (codes ") LIKE "
                            ++ (single_quoted_sql_literal (code ++ codes "%")
                                ++ (codes " AND NOT ("
                                    ++ (next
                                        ++ (codes " BETWEEN 'A' AND 'Z') AND NOT ("
                                            ++ (next ++ codes " BETWEEN '0' AND '9'))")))))))))))

unfoldable pub priority_cases : Text → ℕ → List Text → Text
priority_cases expression index [] = []
priority_cases expression index (code ∷ rest) =
    codes " WHEN "
    ++ (ascii_code_segment_condition expression code
        ++ (codes " THEN " ++ (to_decimal index ++ priority_cases expression (suc index) rest)))

unfoldable pub priority_case_sql : Text → Text
priority_case_sql expression =
    codes "CASE" ++ (priority_cases expression 0 ordered_priority_values ++ codes " ELSE 100 END")

abbrev pub no_case_order : Text → Text
no_case_order column = column ++ (codes " COLLATE NOCASE ASC, " ++ (column ++ codes " ASC"))

abbrev pub priority_order : Text → Option Text → Option Text → Option Text
priority_order column none issuer = none
priority_order column (some executor) none = none
priority_order column (some executor) (some issuer) = some (
    codes " ORDER BY "
    ++ (priority_case_sql column
        ++ (codes " ASC, MIN("
            ++ (priority_case_sql (trimmed_column executor)
                ++ (codes ") ASC, MIN("
                    ++ (priority_case_sql (trimmed_column issuer)
                        ++ (codes ") ASC, " ++ no_case_order column)))))))

unfoldable pub distinct_values_order_sql : Text → String → Bool → Option Text
distinct_values_order_sql column key numeric =
    if numeric
    then some (
        codes " ORDER BY CAST(" ++ (column ++ (codes " AS INTEGER) ASC, " ++ no_case_order column)))
    else if uses_priority_value_order key
    then priority_order column (quote_column_identifier "setor_executor")
        (quote_column_identifier "setor_emissor")
    else some (codes " ORDER BY " ++ no_case_order column)

unfoldable pub distinct_values_clause : DistinctValuesRequest → Option SqlWhereClause
distinct_values_clause request =
    let filter = request.filter in
    build_where filter.general_terms (record filter {
      column_terms =
          append_advanced_text_filters
            (append_column_filters filter.column_terms request.column_filters)
            filter.advanced.text_filters;
    })

abbrev pub distinct_values_sql : String → Text → Text → Text → Option Text
distinct_values_sql key table projection conditions =
    and_then (distinct_values_order_sql projection key (is_integer_column (find key))) (λ order.
      some (
        codes "SELECT "
        ++ (projection
            ++ (codes " FROM "
                ++ (table
                    ++ (codes " WHERE "
                        ++ (distinct_values_where_sql projection conditions
                            ++ (codes " GROUP BY "
                                ++ (projection ++ (order ++ codes " LIMIT ?"))))))))))

abbrev pub with_bindings : List Text → Option Text → Option SqlQuery
with_bindings bindings none = none
with_bindings bindings (some sql) = some (record { sql = sql; bindings = bindings })

abbrev pub distinct_values_under :
    Text → DistinctValuesRequest → Option SqlWhereClause → Option SqlQuery
distinct_values_under name request none = none
distinct_values_under name request (some clause) =
    with_bindings (clause.bindings ++ to_decimal request.limit ∷ []) (
      and_then (quote_column_identifier request.column_key) (λ column.
        and_then (quote_table_identifier name) (λ table.
          distinct_values_sql request.column_key table (trimmed_column column) clause.sql)))

unfoldable pub build_distinct_values : Text → DistinctValuesRequest → Option SqlQuery
build_distinct_values name request =
    if is_derived_count_column request.column_key
    then none
    else distinct_values_under name request (distinct_values_clause request)

unfoldable pub build_record_by_ssa_number : Text → Text → Option SqlQuery
build_record_by_ssa_number name number = with_bindings (number ∷ []) (
    and_then (quote_table_identifier name) (λ table.
      and_then (quote_column_identifier "numero_ssa") (λ column.
        and_then (quote_column_identifier "id") (λ id. some (
          codes "SELECT * FROM "
          ++ (table
              ++ (codes " WHERE "
                  ++ (column ++ (codes " = ? ORDER BY " ++ (id ++ codes " ASC LIMIT 1"))))))))))

unfoldable pub build_direct_derivations : Text → Text → Option SqlQuery
build_direct_derivations name number = with_bindings (number ∷ []) (
    and_then (quote_table_identifier name) (λ table.
      and_then (quote_column_identifier "numero_ssa") (λ column.
        and_then (quote_column_identifier "situacao") (λ status.
          and_then (quote_column_identifier "derivada_de") (λ parent. some (
            codes "SELECT "
            ++ (column
                ++ (codes ", "
                    ++ (status
                        ++ (codes " FROM "
                            ++ (table
                                ++ (codes " WHERE "
                                    ++ (parent
                                        ++ (codes " = ? AND "
                                            ++ (column
                                                ++ (codes " IS NOT NULL ORDER BY "
                                                    ++ column))))))))))))))))

abbrev pub max_length_of : Text → String → Option Text
max_length_of name key = and_then (quote_column_identifier key) (λ column.
    and_then (quote_table_identifier name) (λ table.
      some (codes "SELECT MAX(LENGTH(" ++ (trimmed_column column ++ (codes ")) FROM " ++ table)))))

unfoldable pub build_max_value_length : Text → String → Option SqlQuery
build_max_value_length name key =
    if is_derived_count_column key then none else with_bindings [] (max_length_of name key)
