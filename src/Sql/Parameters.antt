-- ===== src/Sql/Parameters.antt =====
-- Every query that src/query/SqlQueryBuilder.cpp builds has one value for each placeholder.
use ssa_consulta_rapidacpp.Prelude.{
  ℕ, ◌*◌, ◌/◌, ◌%◌, ◌^◌, ◌≡◌, refl, sym, subst, Bool, true, false, List, [], ◌∷◌, Option, none,
  some, String, arith, inl, inr, Bool-cases, if◌then◌else◌, length, length-append, ltb, ◌==◌,
  Option-cases,
}
use ssa_consulta_rapidacpp.Text.{Text}
use ssa_consulta_rapidacpp.Sql.{quote_table_identifier, to_decimal}
use ssa_consulta_rapidacpp.Sql.Query.{
  SqlWhereClause, SsaPageRequest, where_clause_from_request, select_columns,
  uses_derived_count_column, derived_count_join_sql, and_then, select_list, order_by_clause,
  SqlQuery, where_sql, selected, build_select_query, max_size, paged, build_paged_select_query,
  build_rows, counted, build_count, SqlPageQueries, both, build,
}
use ssa_consulta_rapidacpp.Sql.Marks.{marks, marks-append, Unmarked}
use ssa_consulta_rapidacpp.Sql.Pieces.{
  build_where-balance, table-Unmarked, derived_join-Unmarked, select_list-Unmarked,
  order_by_clause-Unmarked,
}

where_sql-marks : (sql : Text) → marks (where_sql sql) ≡ marks sql
unfolding marks
where_sql-marks [] = refl
where_sql-marks (c ∷ sql) = refl

abbrev pub HasMarks : ℕ → Option Text → Type 0
HasMarks n none = Unit
HasMarks n (some t) = marks t ≡ n

pub and_then-HasMarks :
    (n : ℕ) (o : Option Text) (f : Text → Option Text)
    → Unmarked o
    → ((t : Text) → marks t ≡ 0 → HasMarks n (f t))
    → HasMarks n (and_then o f)
and_then-HasMarks n none f u h = tt
and_then-HasMarks n (some t) f u h = h t u

optional_join-Unmarked :
    (used : Bool) (name : Text) (use_summary : Bool)
    → Unmarked (if used then derived_count_join_sql name use_summary else some [])
unfolding marks
optional_join-Unmarked true name use_summary = derived_join-Unmarked name use_summary
optional_join-Unmarked false name use_summary = refl

selected-HasMarks :
    (keys : Option (List String)) (request : SsaPageRequest) (name conditions : Text)
    (use_summary : Bool)
    → HasMarks (marks conditions) (selected keys request name conditions use_summary)
unfolding marks
selected-HasMarks none request name conditions use_summary = tt
selected-HasMarks (some keys) request name conditions use_summary =
    and_then-HasMarks (marks conditions) (select_list keys) _ (select_list-Unmarked keys)
      (λ (list : Text) (a : marks list ≡ 0).
        and_then-HasMarks (marks conditions) (quote_table_identifier name) _ (table-Unmarked name)
          (λ (table : Text) (b : marks table ≡ 0).
            and_then-HasMarks (marks conditions) _ _
              (optional_join-Unmarked (uses_derived_count_column keys request) name use_summary)
              (λ (join : Text) (c : marks join ≡ 0).
                and_then-HasMarks (marks conditions) (order_by_clause request.sort) _
                  (order_by_clause-Unmarked request.sort)
                  (λ (order : Text) (d : marks order ≡ 0).
                    simp (marks-append, where_sql-marks, a, b, c, d) (omega arith)))))

abbrev pub QueryIsBalanced : Option SqlQuery → Type 0
QueryIsBalanced none = Unit
QueryIsBalanced (some q) = marks q.sql ≡ length q.bindings

paged-QueryIsBalanced :
    (request : SsaPageRequest) (bindings : List Text) (o : Option Text)
    → HasMarks (length bindings) o
    → QueryIsBalanced (paged request bindings o)
unfolding marks
paged-QueryIsBalanced request bindings none h = tt
paged-QueryIsBalanced request bindings (some sql) h = elim (Bool-cases (request.page_size == 0)) [
  | inl e ↦ rw e h
  | inr e ↦ rw e (elim (Bool-cases (ltb (max_size / request.page_size) request.page_index)) [
    | inl f ↦ rw f tt
    | inr f ↦ rw f (
        simp (marks-append, h)
          (sym (
            length-append bindings (
              to_decimal request.page_size
              ∷ to_decimal (request.page_index * request.page_size % 2 ^ 64)
              ∷ []))))
  ])
]

rows-QueryIsBalanced :
    (name : Text) (request : SsaPageRequest) (use_summary : Bool)
    → QueryIsBalanced (build_rows name request use_summary)
unfolding build_rows build_paged_select_query build_select_query where_clause_from_request
rows-QueryIsBalanced name request use_summary =
    elim (Option-cases (where_clause_from_request request)) [
      | inl e ↦ rw e tt
      | inr (clause, e) ↦
          let b : marks clause.sql ≡ length clause.bindings = build_where-balance _ _ clause e in
          rw e (
            paged-QueryIsBalanced request clause.bindings _ (
              subst
                (λ (n : ℕ).
                  HasMarks n
                    (selected (select_columns request) request name clause.sql use_summary))
                b (selected-HasMarks (select_columns request) request name clause.sql use_summary)))
    ]

counted-QueryIsBalanced :
    (table : Option Text) (request : SsaPageRequest) (clause : Option SqlWhereClause)
    → Unmarked table
    → where_clause_from_request request ≡ clause
    → QueryIsBalanced (counted table clause)
unfolding where_clause_from_request marks
counted-QueryIsBalanced none request clause u e = tt
counted-QueryIsBalanced (some table) request none u e = tt
counted-QueryIsBalanced (some table) request (some clause) u e =
    simp (marks-append, where_sql-marks, u, build_where-balance _ _ clause e) (omega arith)

both-balance :
    (page count : Option SqlQuery) (queries : SqlPageQueries)
    → both page count ≡ some queries
    → QueryIsBalanced page
    → QueryIsBalanced count
    → (marks queries.page.sql ≡ length queries.page.bindings)
      × (marks queries.count.sql ≡ length queries.count.bindings)
both-balance none count queries e p c = cc
both-balance (some page) none queries e p c = cc
both-balance (some page) (some count) queries e p c = ground arith

-- Both queries of a page, whatever the search text, the filters, the sort and the columns are, hold as
-- many placeholders as they have values to bind: no value is left over and no placeholder stays empty.
pub build-balance :
    (name : Text) (request : SsaPageRequest) (use_summary : Bool) (queries : SqlPageQueries)
    → build name request use_summary ≡ some queries
    → (marks queries.page.sql ≡ length queries.page.bindings)
      × (marks queries.count.sql ≡ length queries.count.bindings)
unfolding build build_count
build-balance name request use_summary queries e =
    both-balance (build_rows name request use_summary) (build_count name request) queries e
      (rows-QueryIsBalanced name request use_summary)
      (counted-QueryIsBalanced (quote_table_identifier name) request
        (where_clause_from_request request) (table-Unmarked name) refl)
