-- ===== src/Preferences/Meaning.antt =====
-- What the filters ask for before and after they are normalized,
-- src/presentation/FilterPreferencesNormalizer.cpp.
use text.Mathlib.Text.{◌==◌ as str_eq}
use text.Mathlib.TextEquality.{eq_iff}
use ssa_consulta_rapidacpp.Prelude.{
  ◌≡◌, refl, ap, sym, ◌∙◌, ◌⊎◌, inl, inr, Bool, true, false, not, ◌&&◌, ◌||◌, [], ◌∷◌, none, String,
  arith, if_either, Bool-cases, Option-cases, if◌then◌else◌, is_empty,
}
use ssa_consulta_rapidacpp.Text.{Text, codes, text_eq}
use ssa_consulta_rapidacpp.Text.Commas.{no_comma}
use ssa_consulta_rapidacpp.Text.Trim.{trim, trim-nil}
use ssa_consulta_rapidacpp.Assoc.{Assoc, string_eq, lookup, has_key, lookup-insert}
use ssa_consulta_rapidacpp.FilterToken.{TextFilterOperator, parse_text_filter_tokens}
use ssa_consulta_rapidacpp.FilterToken.Meaning.{operator_of}
use ssa_consulta_rapidacpp.FilterToken.NoCommas.{operator_of-rejoined}
use ssa_consulta_rapidacpp.Catalog.Orders.{asked, contains_excluded_status_code_lem}
use ssa_consulta_rapidacpp.Preferences.{
  FilterPreferencesSnapshot, or_blank, with_sector, normalize_quick_sector, erase_key,
  erase_keys_of, normalize_column_overlap, includes_excluded_status, normalize_status_exclusion,
  normalize_filter_preferences,
}
use ssa_consulta_rapidacpp.Preferences.Normal.{quick_sector-none, normalize_idem}

-- The filter text of a key asks for a code when the operator that the code ends up with is equals.
abbrev pub asked_under : String → Assoc String Text → Text → Bool
asked_under key filters code = asked (or_blank (lookup key filters)) code

abbrev pub asks_for_excluded : Assoc String Text → Bool
asks_for_excluded filters =
    asked_under "situacao" filters (codes "SCA")
    || (asked_under "situacao" filters (codes "SES")
        || asked_under "situacao" filters (codes "STE"))

pub record IsNormalOf (f n : FilterPreferencesSnapshot) : Type 0 where
  pub no_sector : is_empty n.quick_sector ≡ true
  pub executor :
      (code : Text)
      → asked_under "setor_executor" n.advanced_text_filters code ≡ (
          not (is_empty (trim f.quick_sector)) && text_eq (trim f.quick_sector) code
          || asked_under "setor_executor" f.advanced_text_filters code)
  pub others :
      (key : String)
      → (str_eq "setor_executor" key ≡ true)
        ⊎ (lookup key n.advanced_text_filters ≡ lookup key f.advanced_text_filters)
  pub columns :
      (key : String)
      → lookup key n.column_filters
        ≡ (if has_key key n.advanced_text_filters then none else lookup key f.column_filters)
  pub status : n.exclude_sca_ses_ste ≡ (
      f.exclude_sca_ses_ste
      && not (asks_for_excluded n.advanced_text_filters || asks_for_excluded n.column_filters))

asked-nil : (code : Text) → asked [] code ≡ false
unfolding operator_of parse_text_filter_tokens
asked-nil code = refl

includes-asks : (m : Assoc String Text) → includes_excluded_status m ≡ asks_for_excluded m
unfolding includes_excluded_status
includes-asks m = elim (Option-cases (lookup "situacao" m)) [
  | inl e ↦
      rw e (rw (asked-nil (codes "SCA"), asked-nil (codes "SES"), asked-nil (codes "STE")) refl)
  | inr (expression, e) ↦ rw e (contains_excluded_status_code_lem expression)
]

asked-with_sector :
    (sector expression code : Text)
    → no_comma sector ≡ true
    → asked (with_sector sector expression) code
      ≡ (not (is_empty (trim sector)) && text_eq (trim sector) code || asked expression code)
unfolding with_sector
asked-with_sector sector expression code h =
    rw (operator_of-rejoined expression sector code TextFilterOperator.equals h)
      (elim (Bool-cases (not (is_empty (trim sector)) && text_eq (trim sector) code)) [
        | inl e ↦ rw e refl
        | inr e ↦ rw e refl
      ])

executor-asked :
    (f : FilterPreferencesSnapshot) (code : Text)
    → no_comma f.quick_sector ≡ true
    → asked_under "setor_executor" (normalize_quick_sector f).advanced_text_filters code ≡ (
        not (is_empty (trim f.quick_sector)) && text_eq (trim f.quick_sector) code
        || asked_under "setor_executor" f.advanced_text_filters code)
unfolding normalize_quick_sector
executor-asked f code h = elim (Bool-cases (is_empty f.quick_sector)) [
  | inl e ↦
      let nothing : f.quick_sector ≡ [] = ground (arith, e) in
      let trimmed : trim f.quick_sector ≡ [] = ap trim nothing ∙ trim-nil in rw (e, trimmed) refl
  | inr e ↦
      rw
        (
          e,
          lookup-insert "setor_executor" "setor_executor"
              (with_sector f.quick_sector
                (or_blank (lookup "setor_executor" f.advanced_text_filters)))
              f.advanced_text_filters,
        )
        (asked-with_sector f.quick_sector
          (or_blank (lookup "setor_executor" f.advanced_text_filters)) code h)
]

others-kept :
    (f : FilterPreferencesSnapshot) (key : String)
    → (str_eq "setor_executor" key ≡ true)
      ⊎ (lookup key (normalize_quick_sector f).advanced_text_filters
          ≡ lookup key f.advanced_text_filters)
unfolding normalize_quick_sector
others-kept f key = elim (Bool-cases (str_eq "setor_executor" key)) [
  | inl e ↦ inl e
  | inr e ↦ inr (
      if_either
        (λ (n : FilterPreferencesSnapshot).
          lookup key n.advanced_text_filters ≡ lookup key f.advanced_text_filters)
        (is_empty f.quick_sector) f _ (λ d. refl)
        (λ d. lookup-insert "setor_executor" key _ f.advanced_text_filters ∙ rw e refl))
]

lookup-erase_key :
    (k key : String) (m : Assoc String Text)
    → lookup k (erase_key key m) ≡ (if str_eq key k then none else lookup k m)
unfolding lookup erase_key
lookup-erase_key k key [] = ground arith
lookup-erase_key k key ((j, v) ∷ m) =
    ground (arith, eq_iff j key, eq_iff j k, eq_iff key k, lookup-erase_key k key m)

lookup-erase_keys_of :
    (k : String) (shadowing m : Assoc String Text)
    → lookup k (erase_keys_of shadowing m) ≡ (if has_key k shadowing then none else lookup k m)
unfolding has_key erase_keys_of
lookup-erase_keys_of k [] m = refl
lookup-erase_keys_of k ((key, v) ∷ shadowing) m =
    ground (arith, lookup-erase_key k key m, lookup-erase_keys_of k shadowing (erase_key key m))

status-cleared :
    (f : FilterPreferencesSnapshot)
    → (normalize_status_exclusion f).exclude_sca_ses_ste ≡ (
        f.exclude_sca_ses_ste
        && not (asks_for_excluded f.advanced_text_filters || asks_for_excluded f.column_filters))
unfolding normalize_status_exclusion
status-cleared f =
    rw (sym (includes-asks f.advanced_text_filters), sym (includes-asks f.column_filters))
      (ground arith)

sector-keeps :
    (f : FilterPreferencesSnapshot)
    → ((normalize_quick_sector f).column_filters ≡ f.column_filters)
      × ((normalize_quick_sector f).exclude_sca_ses_ste ≡ f.exclude_sca_ses_ste)
unfolding normalize_quick_sector
sector-keeps f =
    if_either
      (λ (n : FilterPreferencesSnapshot).
        (n.column_filters ≡ f.column_filters) × (n.exclude_sca_ses_ste ≡ f.exclude_sca_ses_ste))
      (is_empty f.quick_sector) f _ (λ e. (refl, refl)) (λ e. (refl, refl))

abbrev SameFilters : FilterPreferencesSnapshot → FilterPreferencesSnapshot → Type 0
SameFilters f n =
    (n.quick_sector ≡ f.quick_sector)
    × (n.advanced_text_filters ≡ f.advanced_text_filters)
    × (n.column_filters ≡ f.column_filters)

exclusion-keeps : (f : FilterPreferencesSnapshot) → SameFilters f (normalize_status_exclusion f)
unfolding normalize_status_exclusion
exclusion-keeps f =
    if_either (SameFilters f) (not f.exclude_sca_ses_ste) f _ (λ e. (refl, refl, refl))
      (λ e. if_either (SameFilters f) _ f _ (λ d. (refl, refl, refl)) (λ d. (refl, refl, refl)))

normalize-IsNormalOf :
    (f : FilterPreferencesSnapshot)
    → no_comma f.quick_sector ≡ true
    → IsNormalOf f (normalize_filter_preferences f)
unfolding normalize_filter_preferences normalize_column_overlap
normalize-IsNormalOf f h =
    let q = normalize_quick_sector f in
    let g = normalize_column_overlap q in
    let (sector, advanced, columns) = exclusion-keeps g in
    let (same, excluded) = sector-keeps f in
    record {
      no_sector = ap is_empty sector ∙ quick_sector-none f;
      executor = λ code.
          ap (λ (m : Assoc String Text). asked_under "setor_executor" m code) advanced
          ∙ executor-asked f code h;
      others = λ key. elim (others-kept f key) [
        | inl e ↦ inl e
        | inr e ↦ inr (ap (lookup key) advanced ∙ e)
      ];
      columns = λ key.
          rw
            (
              columns,
              advanced,
              lookup-erase_keys_of key q.advanced_text_filters q.column_filters,
              same,
            )
            refl;
      status = status-cleared g ∙ rw (columns, advanced, excluded) refl;
    }

-- Normalizing filters, whose quick sector holds no comma, moves the quick sector to the filter of the
-- executor, which asks for it and for what it asked for before; leaves every other advanced filter; erases
-- exactly the column filters of keys with an advanced filter; and keeps the exclusion exactly when no
-- filter of the status ends up asking for SCA, SES or STE in this spelling. Doing it again changes nothing.
pub normalize_filter_preferences_lem :
    (f : FilterPreferencesSnapshot)
    → no_comma f.quick_sector ≡ true
    → IsNormalOf f (normalize_filter_preferences f)
      × (normalize_filter_preferences (normalize_filter_preferences f)
          ≡ normalize_filter_preferences f)
normalize_filter_preferences_lem f h = (normalize-IsNormalOf f h, normalize_idem f)
