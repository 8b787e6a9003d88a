-- ===== src/Sql/Words.antt =====
-- The text of a whole condition list does not depend on the words: src/query/SqlPredicateBuilder.cpp.
use ssa_consulta_rapidacpp.Prelude.{
  ◌≡◌, refl, subst, Bool, true, false, List, [], ◌∷◌, Option, none, some, String, arith, inl, inr,
  Bool-cases, is_empty,
}
use ssa_consulta_rapidacpp.Text.{Text, codes}
use ssa_consulta_rapidacpp.Catalog.{is_derived_count_column}
use ssa_consulta_rapidacpp.Sql.{
  quote_column_identifier, Fragment, Where, no_where, Compiled, rejected, nothing, condition,
  append_condition, append_compiled,
}
use ssa_consulta_rapidacpp.Search.{FilterTerm}
use ssa_consulta_rapidacpp.Sql.TextFilter.{
  plain, terms_of, compile_column_terms, compile_general_search, compile_column_search,
  compile_quick_sector, compile_status_filters,
}
use ssa_consulta_rapidacpp.Sql.Advanced.{AdvancedFilterSpec, compile_advanced}
use ssa_consulta_rapidacpp.Sql.Query.{
  SsaFilterExpression, SqlWhereClause, predicates, clause_of, build_where,
}
use ssa_consulta_rapidacpp.Sql.Shape.{
  SameSql, SameCondition, SameConditions, condition_refl, conditions_refl, conditions-append,
  term_fragment-same, if-same, general_search-same, terms_of-same, group-same, SameShapes,
  SameColumns, SameSector,
}

column_terms-same :
    (key : String) (xs ys : List FilterTerm)
    → SameShapes xs ys
    → SameConditions (compile_column_terms key xs) (compile_column_terms key ys)
unfolding compile_column_terms
column_terms-same key xs ys h = elim (Bool-cases (is_derived_count_column key)) [
  | inl e ↦ rw e (tt, tt)
  | inr e ↦ rw e (
    group-same key (codes "(") (terms_of false xs) (terms_of false ys)
        (terms_of-same false xs ys h),
    (
      group-same key (codes "NOT (") (terms_of true xs) (terms_of true ys)
          (terms_of-same true xs ys h),
      tt,
    ),
  )
]

column_search-same :
    (xs ys : List (String × List FilterTerm))
    → SameColumns xs ys
    → SameConditions (compile_column_search xs) (compile_column_search ys)
unfolding compile_column_search
column_search-same [] (_ ∷ ls) h = elim h [ ]
column_search-same ((k, xs) ∷ ks) [] h = elim h [ ]
column_search-same [] [] h = tt
column_search-same ((k, xs) ∷ ks) ((l, ys) ∷ ls) (e, h, t) =
    conditions-append (compile_column_terms k xs) (compile_column_terms l ys)
      (compile_column_search ks) (compile_column_search ls)
      (subst
        (λ (l : String). SameConditions (compile_column_terms k xs) (compile_column_terms l ys)) e
        (column_terms-same k xs ys h))
      (column_search-same ks ls t)

plain-same : (o r : Option Fragment) → SameSql o r → SameCondition (plain o) (plain r)
plain-same none r h = tt
plain-same (some f) none h = tt
plain-same (some f) (some g) h = h

quick_sector-same :
    (s t : Option Text)
    → SameSector s t
    → SameCondition (compile_quick_sector s) (compile_quick_sector t)
unfolding compile_quick_sector
quick_sector-same none (some t) h = elim h [ ]
quick_sector-same (some s) none h = elim h [ ]
quick_sector-same none none h = tt
quick_sector-same (some s) (some t) h =
    if-same (is_empty s) (is_empty t) _ _ h
      (plain-same _ _ (term_fragment-same (quote_column_identifier "setor_executor") _ _ _ _ refl))

append_compiled-same :
    (w v r q : Where) (cs ds : List Compiled)
    → append_compiled w cs ≡ some r
    → append_compiled v ds ≡ some q
    → SameConditions cs ds
    → w.stream ≡ v.stream
    → w.has_condition ≡ v.has_condition
    → r.stream ≡ q.stream
unfolding append_compiled append_condition
append_compiled-same w v r q [] (_ ∷ ds) e f h s b = elim h [ ]
append_compiled-same w v r q (nothing ∷ cs) [] e f h s b = elim h [ ]
append_compiled-same w v r q (nothing ∷ cs) (condition y ∷ ds) e f h s b = elim h.0 [ ]
append_compiled-same w v r q (condition x ∷ cs) [] e f h s b = elim h [ ]
append_compiled-same w v r q (condition x ∷ cs) (nothing ∷ ds) e f h s b = elim h.0 [ ]
append_compiled-same w v r q [] [] e f h s b = ground arith
append_compiled-same w v r q (rejected ∷ cs) ds e f h s b = cc
append_compiled-same w v r q (nothing ∷ cs) (rejected ∷ ds) e f h s b = cc
append_compiled-same w v r q (nothing ∷ cs) (nothing ∷ ds) e f (p, h) s b =
    append_compiled-same w v r q cs ds e f h s b
append_compiled-same w v r q (condition x ∷ cs) (rejected ∷ ds) e f h s b = cc
append_compiled-same w v r q (condition x ∷ cs) (condition y ∷ ds) e f (p, h) s b =
    append_compiled-same (append_condition w x) (append_condition v y) r q cs ds e f h
      (simp (s, b, p) refl) refl

predicates-same :
    (xs ys : List FilterTerm) (f g : SsaFilterExpression)
    → SameShapes xs ys
    → SameColumns f.column_terms g.column_terms
    → SameSector f.quick_sector g.quick_sector
    → f.exclude_sca_ses_ste ≡ g.exclude_sca_ses_ste
    → f.advanced ≡ g.advanced
    → SameConditions (predicates xs f) (predicates ys g)
unfolding predicates
predicates-same xs ys f g h k l x y =
    conditions-append (compile_general_search xs) (compile_general_search ys) _ _
      (general_search-same xs ys h)
      (conditions-append (compile_column_search f.column_terms)
        (compile_column_search g.column_terms) _ _
        (column_search-same f.column_terms g.column_terms k)
        (
          quick_sector-same f.quick_sector g.quick_sector l,
          (
            subst
                (λ (b : Bool).
                  SameCondition (compile_status_filters f.exclude_sca_ses_ste)
                    (compile_status_filters b))
                x (condition_refl (compile_status_filters f.exclude_sca_ses_ste)),
            subst
                (λ (a : AdvancedFilterSpec).
                  SameConditions (compile_advanced f.advanced) (compile_advanced a))
                y (conditions_refl (compile_advanced f.advanced)),
          ),
        ))

clauses-same :
    (u v : Option Where) (cs ds : List Compiled) (c d : SqlWhereClause)
    → SameConditions cs ds
    → append_compiled no_where cs ≡ u
    → append_compiled no_where ds ≡ v
    → clause_of u ≡ some c
    → clause_of v ≡ some d
    → c.sql ≡ d.sql
clauses-same none v cs ds c d h e f p q = cc
clauses-same (some u) none cs ds c d h e f p q = cc
clauses-same (some u) (some v) cs ds c d h e f p q =
    let s : u.stream ≡ v.stream =
      append_compiled-same no_where no_where u v cs ds e f h refl refl in
    ground arith

-- The words that are searched for are never part of the text of the conditions: two searches that are
-- accepted, whose terms differ only in their words (not in the mode, the sign, in being empty or in
-- being a nine-digit number), give the same text, whatever bytes the words hold.
pub build_where-same :
    (xs ys : List FilterTerm) (f g : SsaFilterExpression) (c d : SqlWhereClause)
    → SameShapes xs ys
    → SameColumns f.column_terms g.column_terms
    → SameSector f.quick_sector g.quick_sector
    → f.exclude_sca_ses_ste ≡ g.exclude_sca_ses_ste
    → f.advanced ≡ g.advanced
    → build_where xs f ≡ some c
    → build_where ys g ≡ some d
    → c.sql ≡ d.sql
unfolding build_where
build_where-same xs ys f g c d h k l x y p q =
    clauses-same (append_compiled no_where (predicates xs f))
      (append_compiled no_where (predicates ys g)) (predicates xs f) (predicates ys g) c d
      (predicates-same xs ys f g h k l x y) refl refl p q
