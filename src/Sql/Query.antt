-- ===== src/Sql/Query.antt =====
-- The queries of a page of the list: src/query/SqlPredicateBuilder.cpp and src/query/SqlQueryBuilder.cpp,
-- with the request types of src/domain/SsaTypes.h. A std::map is a list of pairs in the order of its
-- keys. Where the code throws, the result is none.
use text.Mathlib.Text.{◌==◌ as str_eq}
use ssa_consulta_rapidacpp.Prelude.{
  ℕ, ◌-◌, ◌*◌, ◌/◌, ◌%◌, ◌^◌, Bool, false, not, ◌||◌, List, [], ◌∷◌, ◌++◌, Option, none, some,
  String, if◌then◌else◌, is_empty, any, ltb, ◌==◌,
}
use ssa_consulta_rapidacpp.Text.{Text, codes, text_lt}
use ssa_consulta_rapidacpp.Catalog.{contains, is_derived_count_column, visible_keys_or_default}
use ssa_consulta_rapidacpp.Search.{FilterTerm, parse_terms}
use ssa_consulta_rapidacpp.Sql.{
  quote_column_identifier, quote_table_identifier, status_last_sort_expression, to_decimal,
  Compiled, Where, no_where, append_compiled,
}
use ssa_consulta_rapidacpp.Sql.TextFilter.{
  compile_general_search, compile_column_search, compile_quick_sector, compile_status_filters,
}
use ssa_consulta_rapidacpp.Sql.Advanced.{AdvancedFilterSpec, compile_advanced}

pub record SsaFilterExpression : Type 0 where
  pub general_terms : List FilterTerm
  pub column_terms : List (String × List FilterTerm)
  pub quick_sector : Option Text
  pub exclude_sca_ses_ste : Bool
  pub advanced : AdvancedFilterSpec

pub record SqlWhereClause : Type 0 where
  pub sql : Text
  pub bindings : List Text

-- The conditions in the order in which SqlPredicateBuilder::build appends them.
unfoldable pub predicates : List FilterTerm → SsaFilterExpression → List Compiled
predicates required_terms filter =
    compile_general_search required_terms
    ++ (compile_column_search filter.column_terms
        ++ (compile_quick_sector filter.quick_sector
            ∷ (compile_status_filters filter.exclude_sca_ses_ste
                ∷ compile_advanced filter.advanced)))

abbrev pub clause_of : Option Where → Option SqlWhereClause
clause_of none = none
clause_of (some w) = some (record { sql = w.stream; bindings = w.bindings })

unfoldable pub build_where : List FilterTerm → SsaFilterExpression → Option SqlWhereClause
build_where required_terms filter =
    clause_of (append_compiled no_where (predicates required_terms filter))

pub record SortSpec : Type 0 where
  pub column_key : String
  pub ascending : Bool
  pub status_last : Bool

pub record SsaPageRequest : Type 0 where
  pub page_index : ℕ
  pub page_size : ℕ
  pub search_text : Text
  pub column_filters : List (String × Text)
  pub quick_sector : Text
  pub exclude_sca_ses_ste : Bool
  pub advanced_filters : AdvancedFilterSpec
  pub sort : SortSpec
  pub visible_columns : List String

-- std::map::operator[]: the value of the key is changed where the key stands, or stands new in order.
unfoldable pub update_sorted :
    String
    → (List FilterTerm → List FilterTerm)
    → List (String × List FilterTerm)
    → List (String × List FilterTerm)
update_sorted key change [] = (key, change []) ∷ []
update_sorted key change ((k, v) ∷ rest) =
    if str_eq k key
    then (k, change v) ∷ rest
    else if text_lt (codes key) (codes k)
    then (key, change []) ∷ (k, v) ∷ rest
    else (k, v) ∷ update_sorted key change rest

unfoldable pub append_column_filters :
    List (String × List FilterTerm) → List (String × Text) → List (String × List FilterTerm)
append_column_filters terms [] = terms
append_column_filters terms ((key, value) ∷ filters) =
    append_column_filters (update_sorted key (λ old. parse_terms value) terms) filters

unfoldable pub append_advanced_text_filters :
    List (String × List FilterTerm) → List (String × Text) → List (String × List FilterTerm)
append_advanced_text_filters terms [] = terms
append_advanced_text_filters terms ((key, value) ∷ filters) =
    append_advanced_text_filters (update_sorted key (λ old. old ++ parse_terms value) terms) filters

unfoldable pub filter_from_request : SsaPageRequest → List FilterTerm → SsaFilterExpression
filter_from_request request required_terms = record {
  general_terms = required_terms;
  column_terms =
      append_advanced_text_filters (append_column_filters [] request.column_filters)
        request.advanced_filters.text_filters;
  quick_sector = if is_empty request.quick_sector then none else some request.quick_sector;
  exclude_sca_ses_ste = request.exclude_sca_ses_ste;
  advanced = request.advanced_filters;
}

unfoldable pub where_clause_from_request : SsaPageRequest → Option SqlWhereClause
where_clause_from_request request =
    let required_terms = parse_terms request.search_text in
    build_where required_terms (filter_from_request request required_terms)

unfoldable pub select_columns : SsaPageRequest → Option (List String)
select_columns request = visible_keys_or_default request.visible_columns

unfoldable pub uses_derived_count_column : List String → SsaPageRequest → Bool
uses_derived_count_column columns request =
    any is_derived_count_column columns || is_derived_count_column request.sort.column_key

abbrev pub derived_count_projection : Text
derived_count_projection = codes "COALESCE(\"derived_counts\".\"qtd_derivadas\", 0)"

abbrev pub normalized_derivation : Text
normalized_derivation = codes "TRIM(COALESCE(\"derivada_de\", ''))"

abbrev pub parent_condition : Text → Text
parent_condition table =
    codes "\"derived_counts\".\"parent_ssa\" = TRIM(COALESCE("
    ++ (table ++ codes ".\"numero_ssa\", ''))")

abbrev pub joined : Option Text → Option Text → Bool → Option Text
joined none summary use_summary = none
joined (some table) none use_summary =
    if use_summary
    then none
    else some (
        codes " LEFT JOIN (SELECT "
        ++ (normalized_derivation
            ++ (codes " AS \"parent_ssa\", COUNT(*) AS \"qtd_derivadas\" FROM "
                ++ (table
                    ++ (codes " WHERE "
                        ++ (normalized_derivation
                            ++ (codes " <> '' GROUP BY "
                                ++ (normalized_derivation
                                    ++ (codes ") AS \"derived_counts\" ON "
                                        ++ parent_condition table)))))))))
joined (some table) (some summary) use_summary =
    if use_summary
    then some (
        codes " LEFT JOIN "
        ++ (summary ++ (codes " AS \"derived_counts\" ON " ++ parent_condition table)))
    else some (
        codes " LEFT JOIN (SELECT "
        ++ (normalized_derivation
            ++ (codes " AS \"parent_ssa\", COUNT(*) AS \"qtd_derivadas\" FROM "
                ++ (table
                    ++ (codes " WHERE "
                        ++ (normalized_derivation
                            ++ (codes " <> '' GROUP BY "
                                ++ (normalized_derivation
                                    ++ (codes ") AS \"derived_counts\" ON "
                                        ++ parent_condition table)))))))))

unfoldable pub derived_count_join_sql : Text → Bool → Option Text
derived_count_join_sql table_name use_summary =
    joined (quote_table_identifier table_name)
      (quote_table_identifier (table_name ++ codes "_derived_counts")) use_summary

abbrev pub and_then : Option Text → (Text → Option Text) → Option Text
and_then none f = none
and_then (some t) f = f t

unfoldable pub select_expression_for_column : String → Option Text
select_expression_for_column key = and_then (quote_column_identifier key) (λ column. some (
    if is_derived_count_column key
    then derived_count_projection ++ (codes " AS " ++ column)
    else column))

unfoldable pub select_list : List String → Option Text
select_list [] = some []
select_list (key ∷ []) = select_expression_for_column key
select_list (key ∷ next ∷ keys) =
    and_then (select_expression_for_column key)
      (λ first. and_then (select_list (next ∷ keys)) (λ rest. some (first ++ (codes ", " ++ rest))))

unfoldable pub order_by_expression : String → Option Text
order_by_expression key =
    if is_derived_count_column key
    then some derived_count_projection
    else quote_column_identifier key

abbrev pub sort_key : SortSpec → String
sort_key sort = if str_eq sort.column_key "" then "numero_ssa" else sort.column_key

abbrev pub sort_ascending : SortSpec → Bool
sort_ascending sort = if str_eq sort.column_key "" then false else sort.ascending

unfoldable pub order_by_clause : SortSpec → Option Text
order_by_clause sort =
    and_then
      (if sort.status_last
        then and_then status_last_sort_expression (λ status. some (status ++ codes " ASC, "))
        else some [])
      (λ first.
        if not (contains (sort_key sort))
        then none
        else and_then (order_by_expression (sort_key sort)) (λ column.
          some
            (first ++ (column ++ (if sort_ascending sort then codes " ASC" else codes " DESC")))))

pub record SqlQuery : Type 0 where
  pub sql : Text
  pub bindings : List Text

abbrev pub where_sql : Text → Text
where_sql sql = if is_empty sql then [] else codes " WHERE " ++ sql

abbrev pub selected : Option (List String) → SsaPageRequest → Text → Text → Bool → Option Text
selected none request table_name conditions use_summary = none
selected (some columns) request table_name conditions use_summary =
    and_then (select_list columns) (λ list. and_then (quote_table_identifier table_name) (λ table.
      and_then
        (if uses_derived_count_column columns request
          then derived_count_join_sql table_name use_summary
          else some [])
        (λ join. and_then (order_by_clause request.sort) (λ order. some (
          codes "SELECT "
          ++ (list
              ++ (codes " FROM "
                  ++ (table
                      ++ (join ++ (where_sql conditions ++ (codes " ORDER BY " ++ order)))))))))))

unfoldable pub build_select_query : SsaPageRequest → Text → Text → Bool → Option Text
build_select_query request table_name conditions use_summary =
    selected (select_columns request) request table_name conditions use_summary

abbrev pub max_size : ℕ
max_size = 2 ^ 64 - 1

abbrev pub paged : SsaPageRequest → List Text → Option Text → Option SqlQuery
paged request bindings none = none
paged request bindings (some sql) =
    if request.page_size == 0
    then some (record { sql = sql; bindings = bindings })
    else if ltb (max_size / request.page_size) request.page_index
    then none
    else some (record {
      sql = sql ++ codes " LIMIT ? OFFSET ?";
      bindings =
          bindings
          ++ (to_decimal request.page_size
              ∷ to_decimal (request.page_index * request.page_size % 2 ^ 64)
              ∷ []);
    })

unfoldable pub build_paged_select_query :
    SsaPageRequest → Text → SqlWhereClause → Bool → Option SqlQuery
build_paged_select_query request table_name clause use_summary =
    paged request clause.bindings (build_select_query request table_name clause.sql use_summary)

abbrev pub with_clause : SsaPageRequest → Text → Bool → Option SqlWhereClause → Option SqlQuery
with_clause request table_name use_summary none = none
with_clause request table_name use_summary (some clause) =
    build_paged_select_query request table_name clause use_summary

unfoldable pub build_rows : Text → SsaPageRequest → Bool → Option SqlQuery
build_rows table_name request use_summary =
    with_clause request table_name use_summary (where_clause_from_request request)

abbrev pub counted : Option Text → Option SqlWhereClause → Option SqlQuery
counted none clause = none
counted (some table) none = none
counted (some table) (some clause) = some (record {
  sql = codes "SELECT COUNT(*) FROM " ++ (table ++ where_sql clause.sql);
  bindings = clause.bindings;
})

unfoldable pub build_count : Text → SsaPageRequest → Option SqlQuery
build_count table_name request =
    counted (quote_table_identifier table_name) (where_clause_from_request request)

pub record SqlPageQueries : Type 0 where
  pub page : SqlQuery
  pub count : SqlQuery

abbrev pub both : Option SqlQuery → Option SqlQuery → Option SqlPageQueries
both none count = none
both (some page) none = none
both (some page) (some count) = some (record { page = page; count = count })

unfoldable pub build : Text → SsaPageRequest → Bool → Option SqlPageQueries
build table_name request use_summary =
    both (build_rows table_name request use_summary) (build_count table_name request)
