-- ===== src/Catalog/Samples.antt =====
-- Keys and expressions, and the theorems about the catalog at these inputs.
use ssa_consulta_rapidacpp.Prelude.{◌≡◌, refl, true, [], ◌∷◌, some, String, List}
use ssa_consulta_rapidacpp.Text.{Text, codes, text_eq}
use ssa_consulta_rapidacpp.Catalog.{
  find, contains, visible_keys_or_default, add_columns, column_by_key, is_canonical_storage_key,
  contains_excluded_status_code, is_excluded, some_excluded,
}
use ssa_consulta_rapidacpp.Assoc.{has_key, lookup}
use ssa_consulta_rapidacpp.FilterToken.{parse_text_filter_tokens}
use ssa_consulta_rapidacpp.Text.Trim.{trim}

abbrev chosen : List String
chosen = "numero_ssa" ∷ "anomalia" ∷ []

chosen_shown : visible_keys_or_default chosen ≡ some chosen
unfolding visible_keys_or_default contains find column_by_key add_columns is_canonical_storage_key
    has_key lookup
chosen_shown = refl

abbrev expression : Text
expression = codes "SCA, APV, !SCA, STE"

status_excluded : contains_excluded_status_code expression ≡ true
unfolding contains_excluded_status_code some_excluded parse_text_filter_tokens trim text_eq
    is_excluded
status_excluded = refl
