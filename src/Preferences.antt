-- ===== src/Preferences.antt =====
-- Saved filters: src/presentation/FilterPreferencesNormalizer.cpp, with the snapshot of
-- src/ports/IUserPreferencesStore.h. A std::map is a list of pairs; nothing here reads its order.
pub mod Normal
pub mod Meaning
mod Samples
use text.Mathlib.Text.{◌==◌ as str_eq}
use ssa_consulta_rapidacpp.Prelude.{
  Bool, true, false, not, ◌&&◌, ◌||◌, List, [], ◌∷◌, Option, none, some, String, if◌then◌else◌,
  is_empty,
}
use ssa_consulta_rapidacpp.Text.{Text}
use ssa_consulta_rapidacpp.Assoc.{Assoc, string_eq, lookup, insert, has_key}
use ssa_consulta_rapidacpp.FilterToken.{
  TextFilterOperator, parse_text_filter_tokens, add_text_filter_value, join_text_filter_tokens,
}
use ssa_consulta_rapidacpp.Catalog.{contains_excluded_status_code}
use ssa_consulta_rapidacpp.Catalog.Columns.{status_column_key}

pub record FilterPreferencesSnapshot : Type 0 where
  pub search_text : Text
  pub quick_sector : Text
  pub column_filters : Assoc String Text
  pub advanced_text_filters : Assoc String Text
  pub advanced_week_column_key : Text
  pub advanced_year : Text
  pub advanced_week : Text
  pub issue_year : Text
  pub execution_year : Text
  pub reprogramming_mode : Text
  pub reprogramming_values : Text
  pub issue_week_start : Text
  pub issue_week_end : Text
  pub execution_week_start : Text
  pub execution_week_end : Text
  pub derivation_mode : Text
  pub exclude_sca_ses_ste : Bool
  pub only_reprogrammed : Bool

pub record SavedFilterSnapshot : Type 0 where
  pub name : Text
  pub filters : FilterPreferencesSnapshot

abbrev pub or_blank : Option Text → Text
or_blank none = []
or_blank (some text) = text

-- The expression with the sector added to it.
unfoldable pub with_sector : Text → Text → Text
with_sector sector expression =
    join_text_filter_tokens
      (add_text_filter_value (parse_text_filter_tokens expression) sector
        TextFilterOperator.equals).0

unfoldable pub normalize_quick_sector : FilterPreferencesSnapshot → FilterPreferencesSnapshot
normalize_quick_sector filters = if is_empty filters.quick_sector then filters else record filters {
  advanced_text_filters =
      insert "setor_executor"
        (with_sector filters.quick_sector
          (or_blank (lookup "setor_executor" filters.advanced_text_filters)))
        filters.advanced_text_filters;
  quick_sector = [];
}

-- std::map::erase of a key.
unfoldable pub erase_key : String → Assoc String Text → Assoc String Text
erase_key key [] = []
erase_key key ((k, v) ∷ rest) =
    let erased = erase_key key rest in if str_eq k key then erased else (k, v) ∷ erased

unfoldable pub erase_keys_of : Assoc String Text → Assoc String Text → Assoc String Text
erase_keys_of [] values = values
erase_keys_of ((key, v) ∷ shadowing) values = erase_keys_of shadowing (erase_key key values)

unfoldable pub normalize_column_overlap : FilterPreferencesSnapshot → FilterPreferencesSnapshot
normalize_column_overlap filters = record filters {
  column_filters = erase_keys_of filters.advanced_text_filters filters.column_filters;
}

abbrev pub holds_excluded : Option Text → Bool
holds_excluded none = false
holds_excluded (some expression) = contains_excluded_status_code expression

unfoldable pub includes_excluded_status : Assoc String Text → Bool
includes_excluded_status text_filters = holds_excluded (lookup status_column_key text_filters)

unfoldable pub normalize_status_exclusion : FilterPreferencesSnapshot → FilterPreferencesSnapshot
normalize_status_exclusion filters =
    if not filters.exclude_sca_ses_ste
    then filters
    else if not (includes_excluded_status filters.advanced_text_filters)
        && not (includes_excluded_status filters.column_filters)
    then filters
    else record filters { exclude_sca_ses_ste = false }

unfoldable pub normalize_filter_preferences : FilterPreferencesSnapshot → FilterPreferencesSnapshot
normalize_filter_preferences filters =
    normalize_status_exclusion (normalize_column_overlap (normalize_quick_sector filters))

unfoldable pub normalize_saved_filter_preferences :
    List SavedFilterSnapshot → List SavedFilterSnapshot
normalize_saved_filter_preferences [] = []
normalize_saved_filter_preferences (saved ∷ rest) =
    record saved { filters = normalize_filter_preferences saved.filters }
    ∷ normalize_saved_filter_preferences rest
