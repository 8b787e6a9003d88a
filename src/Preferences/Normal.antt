-- ===== src/Preferences/Normal.antt =====
-- What normalized filters are, src/presentation/FilterPreferencesNormalizer.cpp.
use text.Mathlib.Text.{◌==◌ as str_eq}
use text.Mathlib.TextEquality.{eq_iff}
use ssa_consulta_rapidacpp.Prelude.{
  ◌≡◌, refl, ap, ◌∙◌, true, false, not, ◌&&◌, ◌||◌, [], ◌∷◌, String, arith, if_either, inl, inr,
  Bool-cases, is_empty,
}
use ssa_consulta_rapidacpp.Text.{Text}
use ssa_consulta_rapidacpp.Assoc.{Assoc, string_eq, has_key}
use ssa_consulta_rapidacpp.Preferences.{
  FilterPreferencesSnapshot, normalize_quick_sector, erase_key, erase_keys_of,
  normalize_column_overlap, includes_excluded_status, normalize_status_exclusion,
  normalize_filter_preferences,
}

-- No quick sector, no column with filters of both kinds, and a status is not asked for and excluded.
pub record IsNormalized (filters : FilterPreferencesSnapshot) : Type 0 where
  pub no_sector : is_empty filters.quick_sector ≡ true
  pub disjoint :
      (key : String)
      → (has_key key filters.advanced_text_filters && has_key key filters.column_filters) ≡ false
  pub status :
      (filters.exclude_sca_ses_ste
        && (includes_excluded_status filters.advanced_text_filters
            || includes_excluded_status filters.column_filters))
      ≡ false

has_key-erase_key :
    (j key : String) (m : Assoc String Text)
    → has_key j (erase_key key m) ≡ (not (str_eq j key) && has_key j m)
unfolding has_key erase_key
has_key-erase_key j key [] = ground arith
has_key-erase_key j key ((k, v) ∷ m) =
    ground (arith, eq_iff k key, eq_iff k j, eq_iff j key, has_key-erase_key j key m)

has_key-erase_keys_of :
    (j : String) (shadowing m : Assoc String Text)
    → has_key j (erase_keys_of shadowing m) ≡ (not (has_key j shadowing) && has_key j m)
unfolding has_key erase_keys_of
has_key-erase_keys_of j [] m = refl
has_key-erase_keys_of j ((key, v) ∷ shadowing) m = ground (
  arith,
  eq_iff key j,
  eq_iff j key,
  has_key-erase_key j key m,
  has_key-erase_keys_of j shadowing (erase_key key m),
)

erase_key-absent :
    (key : String) (m : Assoc String Text) → has_key key m ≡ false → erase_key key m ≡ m
unfolding has_key erase_key
erase_key-absent key [] h = refl
erase_key-absent key ((k, v) ∷ m) h =
    let a : str_eq k key ≡ false = ground arith in
    let b : has_key key m ≡ false = ground arith in
    rw a (ap (λ (t : Assoc String Text). (k, v) ∷ t) (erase_key-absent key m b))

erase_keys_of-disjoint :
    (shadowing m : Assoc String Text)
    → ((key : String) → (has_key key shadowing && has_key key m) ≡ false)
    → erase_keys_of shadowing m ≡ m
unfolding has_key erase_keys_of
erase_keys_of-disjoint [] m h = refl
erase_keys_of-disjoint ((key, v) ∷ shadowing) m h =
    let absent : has_key key m ≡ false = ground (arith, h key, eq_iff key key) in
    rw (erase_key-absent key m absent)
      (erase_keys_of-disjoint shadowing m (λ j. ground (arith, h j)))

pub quick_sector-none :
    (f : FilterPreferencesSnapshot) → is_empty (normalize_quick_sector f).quick_sector ≡ true
unfolding normalize_quick_sector
quick_sector-none f = elim (Bool-cases (is_empty f.quick_sector)) [
  | inl e ↦ rw e e
  | inr e ↦ rw e refl
]

overlap-disjoint :
    (f : FilterPreferencesSnapshot) (key : String)
    → (has_key key (normalize_column_overlap f).advanced_text_filters
        && has_key key (normalize_column_overlap f).column_filters)
      ≡ false
unfolding normalize_column_overlap
overlap-disjoint f key =
    ground (arith, has_key-erase_keys_of key f.advanced_text_filters f.column_filters)

exclusion-IsNormalized :
    (f : FilterPreferencesSnapshot)
    → is_empty f.quick_sector ≡ true
    → ((key : String)
        → (has_key key f.advanced_text_filters && has_key key f.column_filters) ≡ false)
    → IsNormalized (normalize_status_exclusion f)
unfolding normalize_status_exclusion
exclusion-IsNormalized f h k =
    if_either IsNormalized (not f.exclude_sca_ses_ste) f _
      (λ e. record { no_sector = h; disjoint = k; status = ground arith })
      (λ e.
        if_either IsNormalized
          (not (includes_excluded_status f.advanced_text_filters)
            && not (includes_excluded_status f.column_filters))
          f _ (λ d. record { no_sector = h; disjoint = k; status = ground arith })
          (λ d. record { no_sector = h; disjoint = k; status = refl }))

normalize-IsNormalized :
    (f : FilterPreferencesSnapshot) → IsNormalized (normalize_filter_preferences f)
unfolding normalize_filter_preferences normalize_column_overlap
normalize-IsNormalized f =
    exclusion-IsNormalized (normalize_column_overlap (normalize_quick_sector f))
      (quick_sector-none f) (overlap-disjoint (normalize_quick_sector f))

normalize-stays :
    (f : FilterPreferencesSnapshot) → IsNormalized f → normalize_filter_preferences f ≡ f
unfolding normalize_filter_preferences normalize_column_overlap normalize_quick_sector
    normalize_status_exclusion
normalize-stays f h =
    let step : normalize_column_overlap f ≡ f =
      ap (λ (m : Assoc String Text). record f { column_filters = m })
        (erase_keys_of-disjoint f.advanced_text_filters f.column_filters h.disjoint) in
    let kept : normalize_status_exclusion f ≡ f =
      if_either (λ (g : FilterPreferencesSnapshot). g ≡ f) (not f.exclude_sca_ses_ste) f _
        (λ e. refl)
        (λ e.
          if_either (λ (g : FilterPreferencesSnapshot). g ≡ f)
            (not (includes_excluded_status f.advanced_text_filters)
              && not (includes_excluded_status f.column_filters))
            f _ (λ d. refl) (λ d. absurd (ground (arith, h.status)))) in
    rw h.no_sector (ap normalize_status_exclusion step ∙ kept)

pub normalize_idem :
    (f : FilterPreferencesSnapshot)
    → normalize_filter_preferences (normalize_filter_preferences f) ≡ normalize_filter_preferences f
normalize_idem f = normalize-stays (normalize_filter_preferences f) (normalize-IsNormalized f)
