-- ===== src/Sql/Marks.antt =====
-- The placeholders of the queries of src/query and the values bound to them.
use text.Mathlib.Text.{◌==◌ as str_eq}
use text.Mathlib.TextEquality.{eq_iff}
use ssa_consulta_rapidacpp.Prelude.{
  ℕ, suc, All, subst, ◌+◌, ◌≡◌, refl, ap, ◌∙◌, Bool, true, false, ◌&&◌, List, [], ◌∷◌, ◌++◌, Option,
  none, some, String, arith, inl, inr, Bool-cases, if◌then◌else◌, is_empty, all, length,
  length-append, ◌==◌, Option-cases,
}
use ssa_consulta_rapidacpp.Text.{Text, codes}
use ssa_consulta_rapidacpp.Catalog.{find, contains, is_derived_count_column, general_search_keys}
use ssa_consulta_rapidacpp.Catalog.Columns.{
  ColumnDef, columns, status_column_key, excluded_status_codes,
}
use ssa_consulta_rapidacpp.Catalog.Finding.{first_with, find_lem}
use ssa_consulta_rapidacpp.Sql.{
  uppercase_copy, quote_column_identifier, Fragment, Compiled, rejected, nothing, condition,
}
use ssa_consulta_rapidacpp.Search.{MatchMode, FilterTerm}
use ssa_consulta_rapidacpp.Sql.TextFilter.{
  comparator_for, column_comparator, any_column, join_fragments, grouped, term_fragment,
  is_exact_number, is_equals, pattern_for, compile_general_term, compile_general_search, terms_of,
  column_term, any_term, compile_group, compile_column_terms, compile_column_search, plain,
  compile_quick_sector, placeholders, excluding, compile_status_filters,
}

-- The placeholders of a text.
unfoldable pub marks : Text → ℕ
marks [] = 0
marks (c ∷ text) = let rest = marks text in if c == b'?' then suc rest else rest

pub marks-append : (s t : Text) → marks (s ++ t) ≡ marks s + marks t
unfolding marks
marks-append [] t = omega arith
marks-append (c ∷ s) t = ground (arith, marks-append s t)

abbrev unmarked_key : ColumnDef → Bool
unmarked_key column = marks (codes column.key) == 0

columns_unmarked : all unmarked_key columns ≡ true
unfolding marks
columns_unmarked = refl

first_with-unmarked :
    (key : String) (defs : List ColumnDef) (column : ColumnDef)
    → all unmarked_key defs ≡ true
    → first_with key defs ≡ some column
    → marks (codes key) ≡ 0
unfolding first_with
first_with-unmarked key [] column a h = cc
first_with-unmarked key (def ∷ defs) column a h = elim (Bool-cases (str_eq def.key key)) [
  | inl same ↦
      let e : def.key ≡ key = (eq_iff def.key key).0 same in
      subst (λ (k : String). marks (codes k) ≡ 0) e (ground arith)
  | inr other ↦ first_with-unmarked key defs column (ground arith) (ground arith)
]

contains-unmarked : (key : String) → contains key ≡ true → marks (codes key) ≡ 0
unfolding contains
contains-unmarked key h = elim (Option-cases (first_with key columns)) [
  | inl e ↦ let f : find key ≡ some none = find_lem key ∙ ap some e in ground (arith, f)
  | inr (column, e) ↦ first_with-unmarked key columns column columns_unmarked e
]

pub quote_column_identifier-unmarked :
    (key : String) (column : Text) → quote_column_identifier key ≡ some column → marks column ≡ 0
unfolding quote_column_identifier marks
quote_column_identifier-unmarked key column h = elim (Bool-cases (contains key)) [
  | inl e ↦
      let bare : marks (codes key) ≡ 0 = contains-unmarked key e in
      let f : codes "\"" ++ (codes key ++ codes "\"") ≡ column = ground arith in
      subst (λ (t : Text). marks t ≡ 0) f (simp (marks-append, bare) refl)
  | inr e ↦ ground arith
]

abbrev pub Unmarked : Option Text → Type 0
Unmarked none = Unit
Unmarked (some t) = marks t ≡ 0

pub quoted-Unmarked : (key : String) → Unmarked (quote_column_identifier key)
quoted-Unmarked key = elim (Option-cases (quote_column_identifier key)) [
  | inl e ↦ rw e tt
  | inr (column, e) ↦ rw e (quote_column_identifier-unmarked key column e)
]

-- As many placeholders as values.
abbrev pub IsBalanced : Compiled → Type 0
IsBalanced rejected = Unit
IsBalanced nothing = Unit
IsBalanced (condition f) = marks f.sql ≡ length f.bindings

abbrev HasBalance : Option Fragment → Type 0
HasBalance none = Unit
HasBalance (some f) = marks f.sql ≡ length f.bindings

term_fragment-HasBalance :
    (column pattern : Option Text) (comparator : Text)
    → Unmarked column
    → marks comparator ≡ 1
    → HasBalance (term_fragment column comparator pattern)
term_fragment-HasBalance none pattern comparator u h = tt
term_fragment-HasBalance (some column) none comparator u h = tt
term_fragment-HasBalance (some column) (some pattern) comparator u h =
    simp (marks-append, u, h) refl

join_fragments-HasBalance :
    (o r : Option Fragment) → HasBalance o → HasBalance r → HasBalance (join_fragments o r)
unfolding marks
join_fragments-HasBalance none r h k = tt
join_fragments-HasBalance (some f) none h k = tt
join_fragments-HasBalance (some f) (some g) h k =
    simp (marks-append, h, k) (omega (arith, length-append f.bindings g.bindings))

any_column-HasBalance :
    (comparator : Text) (pattern : Option Text) (keys : List String)
    → marks comparator ≡ 1
    → HasBalance (any_column comparator pattern keys)
unfolding any_column marks
any_column-HasBalance comparator pattern [] h = refl
any_column-HasBalance comparator pattern (key ∷ []) h =
    term_fragment-HasBalance (quote_column_identifier key) pattern comparator (quoted-Unmarked key)
      h
any_column-HasBalance comparator pattern (key ∷ next ∷ keys) h =
    join_fragments-HasBalance (term_fragment (quote_column_identifier key) comparator pattern)
      (any_column comparator pattern (next ∷ keys))
      (term_fragment-HasBalance (quote_column_identifier key) pattern comparator
        (quoted-Unmarked key) h)
      (any_column-HasBalance comparator pattern (next ∷ keys) h)

grouped-IsBalanced :
    (opening : Text) (o : Option Fragment)
    → marks opening ≡ 0
    → HasBalance o
    → IsBalanced (grouped opening o)
unfolding marks
grouped-IsBalanced opening none h k = tt
grouped-IsBalanced opening (some f) h k = simp (marks-append, h, k) (omega arith)

comparator_for-marks : (mode : MatchMode) → marks (comparator_for mode) ≡ 1
unfolding comparator_for marks
comparator_for-marks MatchMode.equals_text = refl
comparator_for-marks MatchMode.contains_text = refl
comparator_for-marks MatchMode.starts_with = refl
comparator_for-marks MatchMode.ends_with = refl
comparator_for-marks MatchMode.safe_pattern = refl

column_comparator-marks :
    (key : String) (term : FilterTerm) → marks (column_comparator key term) ≡ 1
unfolding column_comparator marks
column_comparator-marks key term =
    elim (Bool-cases
      (str_eq key "numero_ssa" && is_equals term.mode && is_exact_number term.text)) [
        | inl e ↦ rw e refl
        | inr e ↦ rw e (comparator_for-marks term.mode)
      ]

opening-marks : (negated : Bool) → marks (if negated then codes "NOT (" else codes "(") ≡ 0
unfolding marks
opening-marks true = refl
opening-marks false = refl

general_term-IsBalanced :
    (columns : List String) (term : FilterTerm) → IsBalanced (compile_general_term columns term)
unfolding compile_general_term
general_term-IsBalanced columns term = elim (Bool-cases (is_empty term.text)) [
  | inl e ↦ rw e tt
  | inr e ↦ rw e (
      grouped-IsBalanced (if term.negated then codes "NOT (" else codes "(")
        (any_column (comparator_for term.mode) (pattern_for term.mode (uppercase_copy term.text))
          columns)
        (opening-marks term.negated)
        (any_column-HasBalance (comparator_for term.mode)
          (pattern_for term.mode (uppercase_copy term.text)) columns
          (comparator_for-marks term.mode)))
]

pub general_search-IsBalanced :
    (terms : List FilterTerm) → All IsBalanced (compile_general_search terms)
unfolding compile_general_search
general_search-IsBalanced [] = tt
general_search-IsBalanced (term ∷ terms) =
    (general_term-IsBalanced general_search_keys term, general_search-IsBalanced terms)

column_term-HasBalance : (key : String) (term : FilterTerm) → HasBalance (column_term key term)
column_term-HasBalance key term =
    term_fragment-HasBalance (quote_column_identifier key)
      (pattern_for term.mode (uppercase_copy term.text)) (column_comparator key term)
      (quoted-Unmarked key) (column_comparator-marks key term)

any_term-HasBalance :
    (key : String) (term : FilterTerm) (terms : List FilterTerm)
    → HasBalance (any_term key term terms)
unfolding any_term
any_term-HasBalance key term [] = column_term-HasBalance key term
any_term-HasBalance key term (next ∷ terms) =
    join_fragments-HasBalance (column_term key term) (any_term key next terms)
      (column_term-HasBalance key term) (any_term-HasBalance key next terms)

group-IsBalanced :
    (key : String) (opening : Text) (terms : List FilterTerm)
    → marks opening ≡ 0
    → IsBalanced (compile_group key opening terms)
unfolding compile_group
group-IsBalanced key opening [] h = tt
group-IsBalanced key opening (term ∷ terms) h =
    grouped-IsBalanced opening (any_term key term terms) h (any_term-HasBalance key term terms)

pub All-append {ℓ κ} :
    {A : Type ℓ} (P : A → Type κ) (xs ys : List A) → All P xs → All P ys → All P (xs ++ ys)
All-append P [] ys h k = k
All-append P (x ∷ xs) ys (p, h) k = (p, All-append P xs ys h k)

column_terms-IsBalanced :
    (key : String) (terms : List FilterTerm) → All IsBalanced (compile_column_terms key terms)
unfolding compile_column_terms marks
column_terms-IsBalanced key terms = elim (Bool-cases (is_derived_count_column key)) [
  | inl e ↦ rw e (tt, tt)
  | inr e ↦ rw e (
    group-IsBalanced key (codes "(") (terms_of false terms) refl,
    (group-IsBalanced key (codes "NOT (") (terms_of true terms) refl, tt),
  )
]

pub column_search-IsBalanced :
    (columns : List (String × List FilterTerm)) → All IsBalanced (compile_column_search columns)
unfolding compile_column_search
column_search-IsBalanced [] = tt
column_search-IsBalanced ((key, terms) ∷ columns) =
    All-append IsBalanced (compile_column_terms key terms) (compile_column_search columns)
      (column_terms-IsBalanced key terms) (column_search-IsBalanced columns)

plain-IsBalanced : (o : Option Fragment) → HasBalance o → IsBalanced (plain o)
plain-IsBalanced none h = tt
plain-IsBalanced (some f) h = h

pub quick_sector-IsBalanced : (sector : Option Text) → IsBalanced (compile_quick_sector sector)
unfolding compile_quick_sector
quick_sector-IsBalanced none = tt
quick_sector-IsBalanced (some sector) = elim (Bool-cases (is_empty sector)) [
  | inl e ↦ rw e tt
  | inr e ↦ rw e (
      plain-IsBalanced
        (term_fragment (quote_column_identifier "setor_executor")
          (comparator_for MatchMode.contains_text)
          (pattern_for MatchMode.contains_text (uppercase_copy sector)))
        (term_fragment-HasBalance (quote_column_identifier "setor_executor")
          (pattern_for MatchMode.contains_text (uppercase_copy sector))
          (comparator_for MatchMode.contains_text) (quoted-Unmarked "setor_executor")
          (comparator_for-marks MatchMode.contains_text)))
]

placeholders-balance :
    (codes' : List String) → marks (placeholders codes').sql ≡ length (placeholders codes').bindings
unfolding placeholders marks
placeholders-balance [] = refl
placeholders-balance (code ∷ []) = refl
placeholders-balance (code ∷ next ∷ rest) = ap suc (placeholders-balance (next ∷ rest))

excluding-IsBalanced :
    (column : Option Text) (f : Fragment)
    → Unmarked column
    → marks f.sql ≡ length f.bindings
    → IsBalanced (excluding column f)
unfolding marks
excluding-IsBalanced none f u h = tt
excluding-IsBalanced (some column) f u h = simp (marks-append, u, h) (omega arith)

pub status_filters-IsBalanced : (exclude : Bool) → IsBalanced (compile_status_filters exclude)
unfolding compile_status_filters
status_filters-IsBalanced true =
    excluding-IsBalanced (quote_column_identifier status_column_key)
      (placeholders excluded_status_codes) (quoted-Unmarked status_column_key)
      (placeholders-balance excluded_status_codes)
status_filters-IsBalanced false = tt
