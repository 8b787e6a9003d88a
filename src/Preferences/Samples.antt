-- ===== src/Preferences/Samples.antt =====
-- Saved filters at a concrete snapshot.
use ssa_consulta_rapidacpp.Prelude.{◌≡◌, refl, true, false, [], ◌∷◌}
use ssa_consulta_rapidacpp.Text.{codes, text_eq}
use ssa_consulta_rapidacpp.Preferences.{
  FilterPreferencesSnapshot, normalize_filter_preferences, erase_key, erase_keys_of,
  includes_excluded_status, normalize_column_overlap, normalize_quick_sector,
  normalize_status_exclusion, with_sector,
}
use ssa_consulta_rapidacpp.Preferences.Meaning.{IsNormalOf, normalize_filter_preferences_lem}
use ssa_consulta_rapidacpp.FilterToken.{
  add_parts, add_text_filter_value, append_or_replace_at, append_or_replace_by_value,
  drop_empty_last, drop_equals_prefix, join_from, join_text_filter_tokens, operator_is,
  parse_text_filter_tokens, parse_token, parse_trimmed, serialize_token, set_operator, token_prefix,
}
use ssa_consulta_rapidacpp.Assoc.{insert, lookup}
use ssa_consulta_rapidacpp.Text.Trim.{trim}
use ssa_consulta_rapidacpp.Text.Commas.{comma_parts}
use ssa_consulta_rapidacpp.Catalog.{contains_excluded_status_code, is_excluded, some_excluded}

abbrev filters : FilterPreferencesSnapshot
filters = record {
  search_text = [];
  quick_sector = codes "IEE3";
  column_filters = ("setor_executor", codes "MEL1") ∷ ("situacao", codes "STE") ∷ [];
  advanced_text_filters = ("setor_executor", codes "MEL2") ∷ [];
  advanced_week_column_key = codes "semana_programada";
  advanced_year = [];
  advanced_week = [];
  issue_year = [];
  execution_year = [];
  reprogramming_mode = codes "eq";
  reprogramming_values = [];
  issue_week_start = [];
  issue_week_end = [];
  execution_week_start = [];
  execution_week_end = [];
  derivation_mode = codes "all";
  exclude_sca_ses_ste = true;
  only_reprogrammed = false;
}

sector_added :
    (normalize_filter_preferences filters).advanced_text_filters
    ≡ ("setor_executor", codes "=MEL2,=IEE3") ∷ []
unfolding normalize_filter_preferences normalize_status_exclusion normalize_column_overlap
    normalize_quick_sector includes_excluded_status lookup insert erase_keys_of erase_key
    contains_excluded_status_code some_excluded parse_text_filter_tokens trim is_excluded text_eq
    with_sector join_text_filter_tokens add_parts add_text_filter_value append_or_replace_at
    append_or_replace_by_value drop_empty_last drop_equals_prefix join_from operator_is parse_token
    parse_trimmed serialize_token set_operator token_prefix comma_parts
sector_added = refl

overlap_erased :
    (normalize_filter_preferences filters).column_filters ≡ ("situacao", codes "STE") ∷ []
unfolding normalize_filter_preferences normalize_status_exclusion normalize_column_overlap
    normalize_quick_sector includes_excluded_status lookup insert erase_keys_of erase_key
    contains_excluded_status_code some_excluded parse_text_filter_tokens trim is_excluded text_eq
overlap_erased = refl

exclusion_cleared : (normalize_filter_preferences filters).exclude_sca_ses_ste ≡ false
unfolding normalize_filter_preferences normalize_status_exclusion normalize_column_overlap
    normalize_quick_sector includes_excluded_status lookup insert erase_keys_of erase_key
    contains_excluded_status_code some_excluded parse_text_filter_tokens trim is_excluded text_eq
exclusion_cleared = refl

normalize_filter_preferences_lem_example :
    IsNormalOf filters (normalize_filter_preferences filters)
    × (normalize_filter_preferences (normalize_filter_preferences filters)
        ≡ normalize_filter_preferences filters)
normalize_filter_preferences_lem_example = normalize_filter_preferences_lem filters refl
