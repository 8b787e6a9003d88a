-- ===== src/Sql/Values.antt =====
-- Placeholders and values of the queries for one record and for the values of a column,
-- src/query/SqlQueryBuilder.cpp.
mod Samples
use ssa_consulta_rapidacpp.Prelude.{
  ℕ, zero, suc, ◌+◌, ◌/◌, ◌≡◌, refl, subst, Bool, true, false, List, [], ◌∷◌, ◌++◌, Option, none,
  some, String, arith, inl, inr, Bool-cases, if_either, if◌then◌else◌, is_empty, length,
  length-append, Option-cases, All, ltb, ◌==◌,
}
use ssa_consulta_rapidacpp.Text.{Text, codes}
use ssa_consulta_rapidacpp.Number.{digit}
use ssa_consulta_rapidacpp.Catalog.{find, is_derived_count_column}
use ssa_consulta_rapidacpp.DisplayOrder.{ordered_priority_values, uses_priority_value_order}
use ssa_consulta_rapidacpp.Sql.{
  quote_column_identifier, quote_table_identifier, decimal_with, to_decimal,
}
use ssa_consulta_rapidacpp.Sql.Advanced.{is_integer_column, trimmed_column}
use ssa_consulta_rapidacpp.Sql.Query.{SqlWhereClause, SqlQuery, and_then}
use ssa_consulta_rapidacpp.Sql.Marks.{marks, marks-append, Unmarked, quoted-Unmarked}
use ssa_consulta_rapidacpp.Sql.Pieces.{build_where-balance, table-Unmarked}
use ssa_consulta_rapidacpp.Sql.Parameters.{HasMarks, and_then-HasMarks, QueryIsBalanced}
use ssa_consulta_rapidacpp.Sql.Distinct.{
  DistinctValuesRequest, distinct_values_where_sql, doubled_quotes, single_quoted_sql_literal,
  next_char, ascii_code_segment_condition, priority_cases, priority_case_sql, no_case_order,
  priority_order, distinct_values_order_sql, distinct_values_clause, distinct_values_sql,
  with_bindings, distinct_values_under, build_distinct_values, build_record_by_ssa_number,
  build_direct_derivations,
}

marks-digit : (n : ℕ) → marks (digit n ∷ []) ≡ 0
unfolding marks
marks-digit n = ground arith

marks-decimal_with : (places n : ℕ) → marks (decimal_with places n) ≡ 0
unfolding decimal_with marks
marks-decimal_with zero n = refl
marks-decimal_with (suc places) n =
    if_either (λ (t : Text). marks t ≡ 0) (ltb n 10) (digit n ∷ [])
      (decimal_with places (n / 10) ++ digit n ∷ []) (λ e. marks-digit n)
      (λ e.
        rw
          (
            marks-append (decimal_with places (n / 10)) (digit n ∷ []),
            marks-decimal_with places (n / 10),
            marks-digit n,
          )
          refl)

marks-to_decimal : (n : ℕ) → marks (to_decimal n) ≡ 0
unfolding to_decimal
marks-to_decimal n = marks-decimal_with 20 n

marks-doubled_quotes : (value : Text) → marks (doubled_quotes value) ≡ marks value
unfolding marks doubled_quotes
marks-doubled_quotes [] = refl
marks-doubled_quotes (c ∷ value) = ground (arith, marks-doubled_quotes value)

marks-literal : (value : Text) → marks (single_quoted_sql_literal value) ≡ marks value
unfolding single_quoted_sql_literal marks
marks-literal value = simp (marks-append, marks-doubled_quotes) (omega arith)

module _ (expression : Text) (bare : marks expression ≡ 0) where
  condition-unmarked :
      (code : Text) → marks code ≡ 0 → marks (ascii_code_segment_condition expression code) ≡ 0
  unfolding ascii_code_segment_condition marks
  condition-unmarked code h = simp (marks-append, marks-literal, marks-to_decimal, bare, h) refl

  priority_cases-unmarked :
      (index : ℕ) (values : List Text)
      → All (λ (t : Text). marks t ≡ 0) values
      → marks (priority_cases expression index values) ≡ 0
  unfolding priority_cases marks
  priority_cases-unmarked index [] h = refl
  priority_cases-unmarked index (code ∷ rest) (h, k) =
      simp
        (
          marks-append,
          marks-to_decimal,
          condition-unmarked code h,
          priority_cases-unmarked (suc index) rest k,
        )
        refl

  priority_case_sql-unmarked : marks (priority_case_sql expression) ≡ 0
  unfolding priority_case_sql marks
  priority_case_sql-unmarked =
      simp
        (
          marks-append,
          priority_cases-unmarked 0 ordered_priority_values
              (refl, (refl, (refl, (refl, (refl, (refl, (refl, (refl, tt)))))))),
        )
        refl

trimmed_column-unmarked : (column : Text) → marks column ≡ 0 → marks (trimmed_column column) ≡ 0
unfolding marks
trimmed_column-unmarked column h = simp (marks-append, h) refl

priority_order-Unmarked :
    (column : Text) (executor issuer : Option Text)
    → marks column ≡ 0
    → Unmarked executor
    → Unmarked issuer
    → Unmarked (priority_order column executor issuer)
unfolding marks
priority_order-Unmarked column none issuer h a b = tt
priority_order-Unmarked column (some executor) none h a b = tt
priority_order-Unmarked column (some executor) (some issuer) h a b =
    simp
      (
        marks-append,
        priority_case_sql-unmarked column h,
        priority_case_sql-unmarked (trimmed_column executor) (trimmed_column-unmarked executor a),
        priority_case_sql-unmarked (trimmed_column issuer) (trimmed_column-unmarked issuer b),
        h,
      )
      refl

order-Unmarked :
    (column : Text) (key : String) (numeric : Bool)
    → marks column ≡ 0
    → Unmarked (distinct_values_order_sql column key numeric)
unfolding distinct_values_order_sql marks
order-Unmarked column key numeric h =
    if_either Unmarked numeric _ _ (λ e. simp (marks-append, h) refl)
      (λ e.
        if_either Unmarked (uses_priority_value_order key) _ _
          (λ f.
            priority_order-Unmarked column (quote_column_identifier "setor_executor")
              (quote_column_identifier "setor_emissor") h (quoted-Unmarked "setor_executor")
              (quoted-Unmarked "setor_emissor"))
          (λ f. simp (marks-append, h) refl))

where-marks :
    (projection conditions : Text)
    → marks projection ≡ 0
    → marks (distinct_values_where_sql projection conditions) ≡ marks conditions
unfolding distinct_values_where_sql marks
where-marks projection [] h = simp (marks-append, h) refl
where-marks projection (c ∷ conditions) h = simp (marks-append, h) (omega arith)

sql-HasMarks :
    (key : String) (table projection conditions : Text)
    → marks table ≡ 0
    → marks projection ≡ 0
    → HasMarks (suc (marks conditions)) (distinct_values_sql key table projection conditions)
unfolding marks
sql-HasMarks key table projection conditions h k =
    and_then-HasMarks (suc (marks conditions))
      (distinct_values_order_sql projection key (is_integer_column (find key))) _
      (order-Unmarked projection key (is_integer_column (find key)) k)
      (λ (order : Text) (o : marks order ≡ 0).
        simp (marks-append, where-marks projection conditions k, h, k, o) (omega arith))

with_bindings-QueryIsBalanced :
    (bindings : List Text) (o : Option Text)
    → HasMarks (length bindings) o
    → QueryIsBalanced (with_bindings bindings o)
with_bindings-QueryIsBalanced bindings none h = tt
with_bindings-QueryIsBalanced bindings (some sql) h = h

under-QueryIsBalanced :
    (name : Text) (request : DistinctValuesRequest) (o : Option SqlWhereClause)
    → distinct_values_clause request ≡ o
    → QueryIsBalanced (distinct_values_under name request o)
unfolding distinct_values_clause
under-QueryIsBalanced name request none e = tt
under-QueryIsBalanced name request (some clause) e =
    let n = length (clause.bindings ++ to_decimal request.limit ∷ []) in
    let count : suc (marks clause.sql) ≡ n = omega (
      arith,
      build_where-balance _ _ clause e,
      length-append clause.bindings (to_decimal request.limit ∷ []),
    ) in
    with_bindings-QueryIsBalanced (clause.bindings ++ to_decimal request.limit ∷ []) _ (
      and_then-HasMarks n (quote_column_identifier request.column_key) _
        (quoted-Unmarked request.column_key)
        (λ (column : Text) (c : marks column ≡ 0).
          and_then-HasMarks n (quote_table_identifier name) _ (table-Unmarked name)
            (λ (table : Text) (t : marks table ≡ 0).
              subst
                (λ (k : ℕ).
                  HasMarks k (
                    distinct_values_sql request.column_key table (trimmed_column column)
                      clause.sql))
                count
                (sql-HasMarks request.column_key table (trimmed_column column) clause.sql t
                  (trimmed_column-unmarked column c)))))

distinct_values-QueryIsBalanced :
    (name : Text) (request : DistinctValuesRequest)
    → QueryIsBalanced (build_distinct_values name request)
unfolding build_distinct_values
distinct_values-QueryIsBalanced name request =
    if_either QueryIsBalanced (is_derived_count_column request.column_key) none _ (λ e. tt)
      (λ e. under-QueryIsBalanced name request (distinct_values_clause request) refl)

record-QueryIsBalanced :
    (name number : Text) → QueryIsBalanced (build_record_by_ssa_number name number)
unfolding build_record_by_ssa_number marks
record-QueryIsBalanced name number = with_bindings-QueryIsBalanced (number ∷ []) _ (
    and_then-HasMarks 1 (quote_table_identifier name) _ (table-Unmarked name)
      (λ (t : Text) (a : marks t ≡ 0).
        and_then-HasMarks 1 (quote_column_identifier "numero_ssa") _ (quoted-Unmarked "numero_ssa")
          (λ (n : Text) (b : marks n ≡ 0).
            and_then-HasMarks 1 (quote_column_identifier "id") _ (quoted-Unmarked "id")
              (λ (i : Text) (c : marks i ≡ 0). simp (marks-append, a, b, c) refl))))

derivations-QueryIsBalanced :
    (name number : Text) → QueryIsBalanced (build_direct_derivations name number)
unfolding build_direct_derivations marks
derivations-QueryIsBalanced name number = with_bindings-QueryIsBalanced (number ∷ []) _ (
    and_then-HasMarks 1 (quote_table_identifier name) _ (table-Unmarked name)
      (λ (t : Text) (a : marks t ≡ 0).
        and_then-HasMarks 1 (quote_column_identifier "numero_ssa") _ (quoted-Unmarked "numero_ssa")
          (λ (n : Text) (b : marks n ≡ 0).
            and_then-HasMarks 1 (quote_column_identifier "situacao") _ (quoted-Unmarked "situacao")
              (λ (s : Text) (c : marks s ≡ 0).
                and_then-HasMarks 1 (quote_column_identifier "derivada_de") _
                  (quoted-Unmarked "derivada_de")
                  (λ (p : Text) (d : marks p ≡ 0). simp (marks-append, a, b, c, d) refl)))))

-- The queries for the values of a column, for one record and for the direct derivations of a record hold
-- as many placeholders as values, where they are built: the conditions of the list, the order of the
-- values and the number that is searched for add none of their own.
pub build_distinct_values-QueryIsBalanced :
    (name number : Text) (request : DistinctValuesRequest)
    → QueryIsBalanced (build_distinct_values name request)
      × QueryIsBalanced (build_record_by_ssa_number name number)
      × QueryIsBalanced (build_direct_derivations name number)
build_distinct_values-QueryIsBalanced name number request = (
  distinct_values-QueryIsBalanced name request,
  record-QueryIsBalanced name number,
  derivations-QueryIsBalanced name number,
)
