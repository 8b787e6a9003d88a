-- ===== src/Sql/Shape.antt =====
-- The text of the conditions does not depend on the words that are searched for: src/query.
use ssa_consulta_rapidacpp.Prelude.{
  ◌≡◌, refl, ap, ap₂, Bool, true, false, not, ◌||◌, List, [], ◌∷◌, ◌++◌, Option, none, some, String,
  arith, if◌then◌else◌, is_empty,
}
use ssa_consulta_rapidacpp.Text.{Text, codes}
use ssa_consulta_rapidacpp.Catalog.{general_search_keys}
use ssa_consulta_rapidacpp.Sql.{
  uppercase_copy, quote_column_identifier, Fragment, Compiled, rejected, nothing, condition,
}
use ssa_consulta_rapidacpp.Search.{FilterTerm}
use ssa_consulta_rapidacpp.Sql.TextFilter.{
  any_column, any_term, column_term, term_fragment, join_fragments, grouped, terms_of, same_sign,
  comparator_for, column_comparator, pattern_for, is_exact_number, compile_general_term,
  compile_group, compile_general_search,
}

-- Terms that differ at most in the words that they look for.
abbrev pub SameShape : FilterTerm → FilterTerm → Type 0
SameShape a b =
    (a.mode ≡ b.mode)
    × (a.negated ≡ b.negated)
    × (is_empty a.text ≡ is_empty b.text)
    × (is_exact_number a.text ≡ is_exact_number b.text)

abbrev pub SameShapes : List FilterTerm → List FilterTerm → Type 0
SameShapes [] [] = Unit
SameShapes (a ∷ xs) (b ∷ ys) = SameShape a b × SameShapes xs ys
SameShapes _ _ = ⊥

abbrev pub SameColumns : List (String × List FilterTerm) → List (String × List FilterTerm) → Type 0
SameColumns [] [] = Unit
SameColumns ((k, xs) ∷ ks) ((l, ys) ∷ ls) = (k ≡ l) × SameShapes xs ys × SameColumns ks ls
SameColumns _ _ = ⊥

abbrev pub SameSector : Option Text → Option Text → Type 0
SameSector none none = Unit
SameSector (some s) (some t) = is_empty s ≡ is_empty t
SameSector _ _ = ⊥

abbrev pub SameSql : Option Fragment → Option Fragment → Type 0
SameSql (some f) (some g) = f.sql ≡ g.sql
SameSql (some f) none = Unit
SameSql none o = Unit

-- Neither is rejected: then both append nothing, or the same text.
abbrev pub SameCondition : Compiled → Compiled → Type 0
SameCondition rejected d = Unit
SameCondition nothing rejected = Unit
SameCondition nothing nothing = Unit
SameCondition nothing (condition g) = ⊥
SameCondition (condition f) rejected = Unit
SameCondition (condition f) nothing = ⊥
SameCondition (condition f) (condition g) = f.sql ≡ g.sql

abbrev pub SameConditions : List Compiled → List Compiled → Type 0
SameConditions [] [] = Unit
SameConditions (c ∷ cs) (d ∷ ds) = SameCondition c d × SameConditions cs ds
SameConditions _ _ = ⊥

pub condition_refl : (c : Compiled) → SameCondition c c
condition_refl rejected = tt
condition_refl nothing = tt
condition_refl (condition f) = refl

pub conditions_refl : (cs : List Compiled) → SameConditions cs cs
conditions_refl [] = tt
conditions_refl (c ∷ cs) = (condition_refl c, conditions_refl cs)

pub conditions-append :
    (xs ys cs ds : List Compiled)
    → SameConditions xs ys
    → SameConditions cs ds
    → SameConditions (xs ++ cs) (ys ++ ds)
conditions-append [] (b ∷ ys) cs ds h k = elim h [ ]
conditions-append (a ∷ xs) [] cs ds h k = elim h [ ]
conditions-append [] [] cs ds h k = k
conditions-append (a ∷ xs) (b ∷ ys) cs ds (p, h) k = (p, conditions-append xs ys cs ds h k)

pub term_fragment-same :
    (column p q : Option Text) (c d : Text)
    → c ≡ d
    → SameSql (term_fragment column c p) (term_fragment column d q)
term_fragment-same none p q c d e = tt
term_fragment-same (some column) none q c d e = tt
term_fragment-same (some column) (some p) none c d e = tt
term_fragment-same (some column) (some p) (some q) c d e = ap (λ (t : Text). column ++ t) e

join_fragments-same :
    (a b x y : Option Fragment)
    → SameSql a b
    → SameSql x y
    → SameSql (join_fragments a x) (join_fragments b y)
join_fragments-same none b x y h k = tt
join_fragments-same (some f) b none y h k = tt
join_fragments-same (some f) none (some g) y h k = tt
join_fragments-same (some f) (some f') (some g) none h k = tt
join_fragments-same (some f) (some f') (some g) (some g') h k =
    ap₂ (λ (s t : Text). s ++ (codes " OR " ++ t)) h k

any_column-same :
    (c d : Text) (p q : Option Text) (keys : List String)
    → c ≡ d
    → SameSql (any_column c p keys) (any_column d q keys)
unfolding any_column
any_column-same c d p q [] e = refl
any_column-same c d p q (key ∷ []) e = term_fragment-same (quote_column_identifier key) p q c d e
any_column-same c d p q (key ∷ next ∷ keys) e =
    join_fragments-same (term_fragment (quote_column_identifier key) c p)
      (term_fragment (quote_column_identifier key) d q) (any_column c p (next ∷ keys))
      (any_column d q (next ∷ keys)) (term_fragment-same (quote_column_identifier key) p q c d e)
      (any_column-same c d p q (next ∷ keys) e)

grouped-same :
    (s t : Text) (o r : Option Fragment)
    → s ≡ t
    → SameSql o r
    → SameCondition (grouped s o) (grouped t r)
grouped-same s t none r e h = tt
grouped-same s t (some f) none e h = tt
grouped-same s t (some f) (some g) e h = ap₂ (λ (x y : Text). x ++ (y ++ codes ")")) e h

pub if-same :
    (b c : Bool) (x y : Compiled)
    → b ≡ c
    → SameCondition x y
    → SameCondition (if b then nothing else x) (if c then nothing else y)
if-same true true x y e h = tt
if-same true false x y e h = cc
if-same false true x y e h = cc
if-same false false x y e h = h

abbrev opening_of : Bool → Text
opening_of negated = if negated then codes "NOT (" else codes "("

general_term-same :
    (keys : List String) (a b : FilterTerm)
    → SameShape a b
    → SameCondition (compile_general_term keys a) (compile_general_term keys b)
unfolding compile_general_term
general_term-same keys a b (m, n, e, x) = if-same (is_empty a.text) (is_empty b.text) _ _ e (
    grouped-same (opening_of a.negated) (opening_of b.negated)
      (any_column (comparator_for a.mode) (pattern_for a.mode (uppercase_copy a.text)) keys)
      (any_column (comparator_for b.mode) (pattern_for b.mode (uppercase_copy b.text)) keys)
      (ap opening_of n) (any_column-same _ _ _ _ keys (ap comparator_for m)))

pub general_search-same :
    (xs ys : List FilterTerm)
    → SameShapes xs ys
    → SameConditions (compile_general_search xs) (compile_general_search ys)
unfolding compile_general_search
general_search-same [] (b ∷ ys) h = elim h [ ]
general_search-same (a ∷ xs) [] h = elim h [ ]
general_search-same [] [] h = tt
general_search-same (a ∷ xs) (b ∷ ys) (p, h) =
    (general_term-same general_search_keys a b p, general_search-same xs ys h)

kept-same :
    (a b : FilterTerm) (xs ys : List FilterTerm) (s t : Bool)
    → s ≡ t
    → SameShape a b
    → SameShapes xs ys
    → SameShapes (if s then xs else a ∷ xs) (if t then ys else b ∷ ys)
kept-same a b xs ys true true e p h = h
kept-same a b xs ys true false e p h = absurd (ground arith)
kept-same a b xs ys false true e p h = absurd (ground arith)
kept-same a b xs ys false false e p h = (p, h)

pub terms_of-same :
    (negated : Bool) (xs ys : List FilterTerm)
    → SameShapes xs ys
    → SameShapes (terms_of negated xs) (terms_of negated ys)
unfolding terms_of
terms_of-same negated [] (b ∷ ys) h = elim h [ ]
terms_of-same negated (a ∷ xs) [] h = elim h [ ]
terms_of-same negated [] [] h = tt
terms_of-same negated (a ∷ xs) (b ∷ ys) ((m, n, e, x), h) =
    kept-same a b (terms_of negated xs) (terms_of negated ys)
      (is_empty a.text || not (same_sign negated a.negated))
      (is_empty b.text || not (same_sign negated b.negated)) (simp (e, n) refl) (m, n, e, x)
      (terms_of-same negated xs ys h)

column_comparator-same :
    (key : String) (a b : FilterTerm)
    → SameShape a b
    → column_comparator key a ≡ column_comparator key b
unfolding column_comparator
column_comparator-same key a b (m, n, e, x) = simp (m, x) refl

column_term-same :
    (key : String) (a b : FilterTerm)
    → SameShape a b
    → SameSql (column_term key a) (column_term key b)
column_term-same key a b h =
    term_fragment-same (quote_column_identifier key) _ _ _ _ (column_comparator-same key a b h)

any_term-same :
    (key : String) (a b : FilterTerm) (xs ys : List FilterTerm)
    → SameShape a b
    → SameShapes xs ys
    → SameSql (any_term key a xs) (any_term key b ys)
unfolding any_term
any_term-same key a b [] (d ∷ ys) p h = elim h [ ]
any_term-same key a b (c ∷ xs) [] p h = elim h [ ]
any_term-same key a b [] [] p h = column_term-same key a b p
any_term-same key a b (c ∷ xs) (d ∷ ys) p (q, h) =
    join_fragments-same (column_term key a) (column_term key b) (any_term key c xs)
      (any_term key d ys) (column_term-same key a b p) (any_term-same key c d xs ys q h)

pub group-same :
    (key : String) (opening : Text) (xs ys : List FilterTerm)
    → SameShapes xs ys
    → SameCondition (compile_group key opening xs) (compile_group key opening ys)
unfolding compile_group
group-same key opening [] (b ∷ ys) h = elim h [ ]
group-same key opening (a ∷ xs) [] h = elim h [ ]
group-same key opening [] [] h = tt
group-same key opening (a ∷ xs) (b ∷ ys) (p, h) =
    grouped-same opening opening (any_term key a xs) (any_term key b ys) refl
      (any_term-same key a b xs ys p h)
