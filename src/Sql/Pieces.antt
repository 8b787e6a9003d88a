-- ===== src/Sql/Pieces.antt =====
-- Placeholders and values of the parts of a query: the condition list of
-- src/query/SqlPredicateBuilder.cpp, and the columns, tables and order of src/query/SqlQueryBuilder.cpp.
use ssa_consulta_rapidacpp.Prelude.{
  All, ◌≡◌, refl, Bool, true, false, not, ◌&&◌, List, [], ◌∷◌, ◌++◌, Option, none, some, String,
  arith, inl, inr, Bool-cases, if◌then◌else◌, is_empty, all, length, length-append, Option-cases,
}
use ssa_consulta_rapidacpp.Text.{Text, codes}
use ssa_consulta_rapidacpp.Text.Case.{uppercase}
use ssa_consulta_rapidacpp.Catalog.{contains, is_derived_count_column}
use ssa_consulta_rapidacpp.Sql.{
  uppercase_copy, quote_column_identifier, quote_table_identifier, is_identifier_byte, Fragment,
  Where, no_where, append_sql_and_separator, Compiled, rejected, nothing, condition,
  append_condition, append_compiled, status_last_sort_expression, with_status,
}
use ssa_consulta_rapidacpp.Search.{FilterTerm}
use ssa_consulta_rapidacpp.Sql.TextFilter.{
  compile_general_search, compile_column_search, compile_quick_sector, compile_status_filters,
}
use ssa_consulta_rapidacpp.Sql.Advanced.{compile_advanced}
use ssa_consulta_rapidacpp.Sql.Query.{
  SsaFilterExpression, SqlWhereClause, predicates, build_where, SortSpec, joined,
  derived_count_join_sql, and_then, select_expression_for_column, select_list, order_by_expression,
  sort_key, sort_ascending, order_by_clause,
}
use ssa_consulta_rapidacpp.Sql.Marks.{
  marks, marks-append, Unmarked, quoted-Unmarked, IsBalanced, All-append, general_search-IsBalanced,
  column_search-IsBalanced, quick_sector-IsBalanced, status_filters-IsBalanced,
}
use ssa_consulta_rapidacpp.Sql.Balance.{advanced-IsBalanced}

predicates-IsBalanced :
    (terms : List FilterTerm) (filter : SsaFilterExpression)
    → All IsBalanced (predicates terms filter)
unfolding predicates
predicates-IsBalanced terms filter =
    All-append IsBalanced (compile_general_search terms)
      (compile_column_search filter.column_terms
        ++ (compile_quick_sector filter.quick_sector
            ∷ (compile_status_filters filter.exclude_sca_ses_ste
                ∷ compile_advanced filter.advanced)))
      (general_search-IsBalanced terms)
      (All-append IsBalanced (compile_column_search filter.column_terms)
        (compile_quick_sector filter.quick_sector
          ∷ (compile_status_filters filter.exclude_sca_ses_ste ∷ compile_advanced filter.advanced))
        (column_search-IsBalanced filter.column_terms)
        (
          quick_sector-IsBalanced filter.quick_sector,
          (
            status_filters-IsBalanced filter.exclude_sca_ses_ste,
            advanced-IsBalanced filter.advanced,
          ),
        ))

append_condition-balance :
    (w : Where) (f : Fragment)
    → marks w.stream ≡ length w.bindings
    → marks f.sql ≡ length f.bindings
    → marks (append_condition w f).stream ≡ length (append_condition w f).bindings
unfolding append_condition append_sql_and_separator marks
append_condition-balance w f h k = elim (Bool-cases w.has_condition) [
  | inl e ↦ rw e (simp (marks-append, h, k) (omega (arith, length-append w.bindings f.bindings)))
  | inr e ↦ rw e (simp (marks-append, h, k) (omega (arith, length-append w.bindings f.bindings)))
]

append_compiled-balance :
    (w r : Where) (cs : List Compiled)
    → append_compiled w cs ≡ some r
    → All IsBalanced cs
    → marks w.stream ≡ length w.bindings
    → marks r.stream ≡ length r.bindings
unfolding append_compiled
append_compiled-balance w r [] e b h = ground arith
append_compiled-balance w r (rejected ∷ cs) e b h = cc
append_compiled-balance w r (nothing ∷ cs) e (b, bs) h = append_compiled-balance w r cs e bs h
append_compiled-balance w r (condition f ∷ cs) e (b, bs) h =
    append_compiled-balance (append_condition w f) r cs e bs (append_condition-balance w f h b)

pub build_where-balance :
    (terms : List FilterTerm) (filter : SsaFilterExpression) (clause : SqlWhereClause)
    → build_where terms filter ≡ some clause
    → marks clause.sql ≡ length clause.bindings
unfolding build_where marks
build_where-balance terms filter clause e =
    elim (Option-cases (append_compiled no_where (predicates terms filter))) [
      | inl n ↦ ground arith
      | inr (w, k) ↦
          let h : marks w.stream ≡ length w.bindings =
            append_compiled-balance no_where w (predicates terms filter) k
              (predicates-IsBalanced terms filter) refl in
          ground arith
    ]

identifier-unmarked : (name : Text) → all is_identifier_byte name ≡ true → marks name ≡ 0
unfolding marks
identifier-unmarked [] h = refl
identifier-unmarked (c ∷ name) h = ground (arith, identifier-unmarked name)

pub table-Unmarked : (name : Text) → Unmarked (quote_table_identifier name)
unfolding quote_table_identifier marks
table-Unmarked name = elim (Bool-cases (not (is_empty name) && all is_identifier_byte name)) [
  | inl e ↦
      let bare : marks name ≡ 0 = identifier-unmarked name (ground arith) in
      rw e (simp (marks-append, bare) refl)
  | inr e ↦ rw e tt
]

join-Unmarked :
    (table summary : Option Text) (use_summary : Bool)
    → Unmarked table
    → Unmarked summary
    → Unmarked (joined table summary use_summary)
unfolding marks
join-Unmarked none summary use_summary u v = tt
join-Unmarked (some table) none true u v = tt
join-Unmarked (some table) none false u v = simp (marks-append, u) refl
join-Unmarked (some table) (some summary) true u v = simp (marks-append, u, v) refl
join-Unmarked (some table) (some summary) false u v = simp (marks-append, u) refl

pub derived_join-Unmarked :
    (name : Text) (use_summary : Bool) → Unmarked (derived_count_join_sql name use_summary)
unfolding derived_count_join_sql
derived_join-Unmarked name use_summary =
    join-Unmarked (quote_table_identifier name)
      (quote_table_identifier (name ++ codes "_derived_counts")) use_summary (table-Unmarked name)
      (table-Unmarked (name ++ codes "_derived_counts"))

and_then-Unmarked :
    (o : Option Text) (f : Text → Option Text)
    → Unmarked o
    → ((t : Text) → marks t ≡ 0 → Unmarked (f t))
    → Unmarked (and_then o f)
and_then-Unmarked none f u h = tt
and_then-Unmarked (some t) f u h = h t u

select_expression-Unmarked : (key : String) → Unmarked (select_expression_for_column key)
unfolding select_expression_for_column marks
select_expression-Unmarked key =
    and_then-Unmarked (quote_column_identifier key) _ (quoted-Unmarked key)
      (λ (column : Text) (u : marks column ≡ 0). elim (Bool-cases (is_derived_count_column key)) [
        | inl e ↦ rw e (simp (marks-append, u) refl)
        | inr e ↦ rw e u
      ])

pub select_list-Unmarked : (keys : List String) → Unmarked (select_list keys)
unfolding select_list marks
select_list-Unmarked [] = refl
select_list-Unmarked (key ∷ []) = select_expression-Unmarked key
select_list-Unmarked (key ∷ next ∷ keys) =
    and_then-Unmarked (select_expression_for_column key) _ (select_expression-Unmarked key)
      (λ (first : Text) (u : marks first ≡ 0).
        and_then-Unmarked (select_list (next ∷ keys)) _ (select_list-Unmarked (next ∷ keys))
          (λ (rest : Text) (v : marks rest ≡ 0). simp (marks-append, u, v) refl))

order_by_expression-Unmarked : (key : String) → Unmarked (order_by_expression key)
unfolding order_by_expression marks
order_by_expression-Unmarked key = elim (Bool-cases (is_derived_count_column key)) [
  | inl e ↦ rw e refl
  | inr e ↦ rw e (quoted-Unmarked key)
]

with_status-Unmarked : (column : Option Text) → Unmarked column → Unmarked (with_status column)
unfolding marks uppercase_copy uppercase
with_status-Unmarked none u = tt
with_status-Unmarked (some column) u = simp (marks-append, u) refl

status_first-Unmarked :
    (last : Bool)
    → Unmarked (
        if last
        then and_then status_last_sort_expression (λ status. some (status ++ codes " ASC, "))
        else some [])
unfolding status_last_sort_expression marks
status_first-Unmarked false = refl
status_first-Unmarked true =
    and_then-Unmarked (with_status (quote_column_identifier "situacao")) _
      (with_status-Unmarked (quote_column_identifier "situacao") (quoted-Unmarked "situacao"))
      (λ (t : Text) (u : marks t ≡ 0). simp (marks-append, u) refl)

direction-marks : (ascending : Bool) → marks (if ascending then codes " ASC" else codes " DESC") ≡ 0
unfolding marks
direction-marks true = refl
direction-marks false = refl

pub order_by_clause-Unmarked : (sort : SortSpec) → Unmarked (order_by_clause sort)
unfolding order_by_clause
order_by_clause-Unmarked sort =
    and_then-Unmarked _ _ (status_first-Unmarked sort.status_last)
      (λ (first : Text) (u : marks first ≡ 0). elim (Bool-cases (contains (sort_key sort))) [
        | inl e ↦ rw e (
            and_then-Unmarked (order_by_expression (sort_key sort)) _
              (order_by_expression-Unmarked (sort_key sort))
              (λ (column : Text) (v : marks column ≡ 0).
                simp (marks-append, u, v, direction-marks (sort_ascending sort)) refl))
        | inr e ↦ rw e tt
      ])
