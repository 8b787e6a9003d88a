-- ===== src/PageQuery/Request.antt =====
-- Equality of requests: the operators == of src/domain/SsaTypes.h.
use text.Mathlib.Text.{◌==◌ as str_eq}
use text.Mathlib.TextEquality.{eq_iff}
use ssa_consulta_rapidacpp.Prelude.{
  ◌≡◌, refl, subst, ◌↔◌, Bool, true, false, ◌&&◌, List, [], ◌∷◌, Option, none, some, String, arith,
  ◌==◌,
}
use ssa_consulta_rapidacpp.Prelude.Int.{ℤ, pos, negsuc, eq_ℤ}
use ssa_consulta_rapidacpp.Text.{Text, text_eq}
use ssa_consulta_rapidacpp.Text.Equality.{text_eq_iff}
use ssa_consulta_rapidacpp.Sql.Advanced.{
  AdvancedFilterSpec, NumericComparisonMode, equals, less_or_equal, greater_or_equal,
  DerivationFilterMode, all_rows, root_only, derived_only,
}
use ssa_consulta_rapidacpp.Sql.Query.{SsaPageRequest, SortSpec}

module _ {ℓ} {A : Type ℓ} (same : A → A → Bool) where
  unfoldable pub list_eq : List A → List A → Bool
  list_eq [] [] = true
  list_eq [] (y ∷ ys) = false
  list_eq (x ∷ xs) [] = false
  list_eq (x ∷ xs) (y ∷ ys) = same x y && list_eq xs ys

  unfoldable pub option_eq : Option A → Option A → Bool
  option_eq none none = true
  option_eq none (some y) = false
  option_eq (some x) none = false
  option_eq (some x) (some y) = same x y

  list_eq_iff :
      ((x y : A) → (same x y ≡ true) ↔ (x ≡ y))
      → (xs ys : List A) → (list_eq xs ys ≡ true) ↔ (xs ≡ ys)
  unfolding list_eq
  list_eq_iff h [] [] = ground arith
  list_eq_iff h [] (y ∷ ys) = ground arith
  list_eq_iff h (x ∷ xs) [] = ground arith
  list_eq_iff h (x ∷ xs) (y ∷ ys) = ground (arith, h x y, list_eq_iff h xs ys)

  pub option_eq_iff :
      ((x y : A) → (same x y ≡ true) ↔ (x ≡ y))
      → (o r : Option A) → (option_eq o r ≡ true) ↔ (o ≡ r)
  unfolding option_eq
  option_eq_iff h none none = ground arith
  option_eq_iff h none (some y) = ground arith
  option_eq_iff h (some x) none = ground arith
  option_eq_iff h (some x) (some y) = ground (arith, h x y)

abbrev pub bool_eq : Bool → Bool → Bool
bool_eq true true = true
bool_eq false false = true
bool_eq true false = false
bool_eq false true = false

abbrev pub comparison_eq : NumericComparisonMode → NumericComparisonMode → Bool
comparison_eq equals equals = true
comparison_eq less_or_equal less_or_equal = true
comparison_eq greater_or_equal greater_or_equal = true
comparison_eq _ _ = false

abbrev pub derivation_eq : DerivationFilterMode → DerivationFilterMode → Bool
derivation_eq all_rows all_rows = true
derivation_eq root_only root_only = true
derivation_eq derived_only derived_only = true
derivation_eq _ _ = false

abbrev pub entry_eq : String × Text → String × Text → Bool
entry_eq (k, v) (l, w) = str_eq k l && text_eq v w

bool_eq_iff : (a b : Bool) → (bool_eq a b ≡ true) ↔ (a ≡ b)
bool_eq_iff true true = ground arith
bool_eq_iff true false = ground arith
bool_eq_iff false true = ground arith
bool_eq_iff false false = ground arith

int_eq_iff : (a b : ℤ) → (eq_ℤ a b ≡ true) ↔ (a ≡ b)
int_eq_iff (pos a) (pos b) = ground (arith)
int_eq_iff (pos a) (negsuc b) = ground arith
int_eq_iff (negsuc a) (pos b) = ground arith
int_eq_iff (negsuc a) (negsuc b) = ground arith

comparison_eq_iff : (a b : NumericComparisonMode) → (comparison_eq a b ≡ true) ↔ (a ≡ b)
comparison_eq_iff a b = ground arith

derivation_eq_iff : (a b : DerivationFilterMode) → (derivation_eq a b ≡ true) ↔ (a ≡ b)
derivation_eq_iff a b = ground arith

entry_eq_iff : (a b : String × Text) → (entry_eq a b ≡ true) ↔ (a ≡ b)
entry_eq_iff (k, v) (l, w) = ground (arith, eq_iff k l, text_eq_iff v w)

unfoldable pub advanced_eq : AdvancedFilterSpec → AdvancedFilterSpec → Bool
advanced_eq a b =
    str_eq a.week_column_key b.week_column_key
    && list_eq entry_eq a.text_filters b.text_filters
    && option_eq eq_ℤ a.year b.year
    && option_eq eq_ℤ a.week b.week
    && option_eq eq_ℤ a.issue_year b.issue_year
    && option_eq eq_ℤ a.execution_year b.execution_year
    && list_eq eq_ℤ a.reprogramming_values b.reprogramming_values
    && comparison_eq a.reprogramming_comparison b.reprogramming_comparison
    && option_eq eq_ℤ a.issue_week_start b.issue_week_start
    && option_eq eq_ℤ a.issue_week_end b.issue_week_end
    && option_eq eq_ℤ a.execution_week_start b.execution_week_start
    && option_eq eq_ℤ a.execution_week_end b.execution_week_end
    && derivation_eq a.derivation_mode b.derivation_mode
    && bool_eq a.only_reprogrammed b.only_reprogrammed

advanced_eq_self : (a : AdvancedFilterSpec) → advanced_eq a a ≡ true
unfolding advanced_eq
advanced_eq_self a = ground (
  arith,
  (eq_iff a.week_column_key a.week_column_key).1 refl,
  (list_eq_iff entry_eq entry_eq_iff a.text_filters a.text_filters).1 refl,
  (option_eq_iff eq_ℤ int_eq_iff a.year a.year).1 refl,
  (option_eq_iff eq_ℤ int_eq_iff a.week a.week).1 refl,
  (option_eq_iff eq_ℤ int_eq_iff a.issue_year a.issue_year).1 refl,
  (option_eq_iff eq_ℤ int_eq_iff a.execution_year a.execution_year).1 refl,
  (list_eq_iff eq_ℤ int_eq_iff a.reprogramming_values a.reprogramming_values).1 refl,
  (comparison_eq_iff a.reprogramming_comparison a.reprogramming_comparison).1 refl,
  (option_eq_iff eq_ℤ int_eq_iff a.issue_week_start a.issue_week_start).1 refl,
  (option_eq_iff eq_ℤ int_eq_iff a.issue_week_end a.issue_week_end).1 refl,
  (option_eq_iff eq_ℤ int_eq_iff a.execution_week_start a.execution_week_start).1 refl,
  (option_eq_iff eq_ℤ int_eq_iff a.execution_week_end a.execution_week_end).1 refl,
  (derivation_eq_iff a.derivation_mode a.derivation_mode).1 refl,
  (bool_eq_iff a.only_reprogrammed a.only_reprogrammed).1 refl,
)

advanced_eq-parts :
    (a b : AdvancedFilterSpec)
    → advanced_eq a b ≡ true
    → (str_eq a.week_column_key b.week_column_key ≡ true)
      × (list_eq entry_eq a.text_filters b.text_filters ≡ true)
      × (option_eq eq_ℤ a.year b.year ≡ true)
      × (option_eq eq_ℤ a.week b.week ≡ true)
      × (option_eq eq_ℤ a.issue_year b.issue_year ≡ true)
      × (option_eq eq_ℤ a.execution_year b.execution_year ≡ true)
      × (list_eq eq_ℤ a.reprogramming_values b.reprogramming_values ≡ true)
      × (comparison_eq a.reprogramming_comparison b.reprogramming_comparison ≡ true)
      × (option_eq eq_ℤ a.issue_week_start b.issue_week_start ≡ true)
      × (option_eq eq_ℤ a.issue_week_end b.issue_week_end ≡ true)
      × (option_eq eq_ℤ a.execution_week_start b.execution_week_start ≡ true)
      × (option_eq eq_ℤ a.execution_week_end b.execution_week_end ≡ true)
      × (derivation_eq a.derivation_mode b.derivation_mode ≡ true)
      × (bool_eq a.only_reprogrammed b.only_reprogrammed ≡ true)
unfolding advanced_eq
advanced_eq-parts a b h = ground arith

advanced_eq→eq : (a b : AdvancedFilterSpec) → advanced_eq a b ≡ true → a ≡ b
advanced_eq→eq a b h =
    let parts = advanced_eq-parts a b h in
    let e0 : a.week_column_key ≡ b.week_column_key =
      (eq_iff a.week_column_key b.week_column_key).0 parts.0 in
    let e1 : a.text_filters ≡ b.text_filters =
      (list_eq_iff entry_eq entry_eq_iff a.text_filters b.text_filters).0 parts.1 in
    let e2 : a.year ≡ b.year = (option_eq_iff eq_ℤ int_eq_iff a.year b.year).0 parts.2 in
    let e3 : a.week ≡ b.week = (option_eq_iff eq_ℤ int_eq_iff a.week b.week).0 parts.3 in
    let e4 : a.issue_year ≡ b.issue_year =
      (option_eq_iff eq_ℤ int_eq_iff a.issue_year b.issue_year).0 parts.4 in
    let e5 : a.execution_year ≡ b.execution_year =
      (option_eq_iff eq_ℤ int_eq_iff a.execution_year b.execution_year).0 parts.5 in
    let e6 : a.reprogramming_values ≡ b.reprogramming_values =
      (list_eq_iff eq_ℤ int_eq_iff a.reprogramming_values b.reprogramming_values).0 parts.6 in
    let e7 : a.reprogramming_comparison ≡ b.reprogramming_comparison =
      (comparison_eq_iff a.reprogramming_comparison b.reprogramming_comparison).0 parts.7 in
    let e8 : a.issue_week_start ≡ b.issue_week_start =
      (option_eq_iff eq_ℤ int_eq_iff a.issue_week_start b.issue_week_start).0 parts.8 in
    let e9 : a.issue_week_end ≡ b.issue_week_end =
      (option_eq_iff eq_ℤ int_eq_iff a.issue_week_end b.issue_week_end).0 parts.9 in
    let e10 : a.execution_week_start ≡ b.execution_week_start =
      (option_eq_iff eq_ℤ int_eq_iff a.execution_week_start b.execution_week_start).0 parts.10 in
    let e11 : a.execution_week_end ≡ b.execution_week_end =
      (option_eq_iff eq_ℤ int_eq_iff a.execution_week_end b.execution_week_end).0 parts.11 in
    let e12 : a.derivation_mode ≡ b.derivation_mode =
      (derivation_eq_iff a.derivation_mode b.derivation_mode).0 parts.12 in
    let e13 : a.only_reprogrammed ≡ b.only_reprogrammed =
      (bool_eq_iff a.only_reprogrammed b.only_reprogrammed).0 parts.13 in
    cc

advanced_eq_iff : (a b : AdvancedFilterSpec) → (advanced_eq a b ≡ true) ↔ (a ≡ b)
advanced_eq_iff a b = (
  advanced_eq→eq a b,
  λ e. subst (λ (c : AdvancedFilterSpec). advanced_eq a c ≡ true) e (advanced_eq_self a),
)

unfoldable pub sort_eq : SortSpec → SortSpec → Bool
sort_eq a b =
    str_eq a.column_key b.column_key
    && bool_eq a.ascending b.ascending
    && bool_eq a.status_last b.status_last

sort_eq_iff : (a b : SortSpec) → (sort_eq a b ≡ true) ↔ (a ≡ b)
unfolding sort_eq
sort_eq_iff a b = ground (
  arith,
  eq_iff a.column_key b.column_key,
  bool_eq_iff a.ascending b.ascending,
  bool_eq_iff a.status_last b.status_last,
)

unfoldable pub request_eq : SsaPageRequest → SsaPageRequest → Bool
request_eq a b =
    a.page_index == b.page_index
    && a.page_size == b.page_size
    && text_eq a.search_text b.search_text
    && list_eq entry_eq a.column_filters b.column_filters
    && text_eq a.quick_sector b.quick_sector
    && bool_eq a.exclude_sca_ses_ste b.exclude_sca_ses_ste
    && advanced_eq a.advanced_filters b.advanced_filters
    && sort_eq a.sort b.sort
    && list_eq str_eq a.visible_columns b.visible_columns

-- The test on requests decides their equality, all of their filters included.
pub request_eq_iff : (a b : SsaPageRequest) → (request_eq a b ≡ true) ↔ (a ≡ b)
unfolding request_eq
request_eq_iff a b = ground (
  arith,
  text_eq_iff a.search_text b.search_text,
  list_eq_iff entry_eq entry_eq_iff a.column_filters b.column_filters,
  text_eq_iff a.quick_sector b.quick_sector,
  bool_eq_iff a.exclude_sca_ses_ste b.exclude_sca_ses_ste,
  advanced_eq_iff a.advanced_filters b.advanced_filters,
  sort_eq_iff a.sort b.sort,
  list_eq_iff str_eq eq_iff a.visible_columns b.visible_columns,
)
