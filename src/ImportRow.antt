-- ===== src/ImportRow.antt =====
-- The rows of an import, in src/domain/SsaImportPolicy.cpp: a row is a map from column keys to
-- texts; the fields that the policy treats alike; normalizing numbers; validating a row; and the
-- snapshot key by which the age of a row is judged.
pub mod Validation
pub mod Usable
pub mod Samples
use ssa_consulta_rapidacpp.Prelude.{
  ℕ, Bool, true, false, not, ◌&&◌, ◌||◌, List, [], ◌∷◌, ◌++◌, Option, none, some, String, leb, ltb,
  ◌==◌, if◌then◌else◌, length, take, drop, all, is_empty,
}
use text.Mathlib.Text.{◌==◌ as str_eq}
use ssa_consulta_rapidacpp.Text.{
  Text, codes, text_eq, starts_with, contains_text, is_space, is_digit,
}
use ssa_consulta_rapidacpp.Text.Trim.{trim}
use ssa_consulta_rapidacpp.Text.Case.{uppercase, lowercase}
use ssa_consulta_rapidacpp.Assoc.{Assoc, string_eq, lookup}
use ssa_consulta_rapidacpp.IsoWeek.{parse_iso_year_week}
use ssa_consulta_rapidacpp.Timestamp.{
  SnapshotTimestamp, at, parse_exact_timestamp, snapshot_key_for_field,
}
use ssa_consulta_rapidacpp.Timestamp.Filename.{snapshot_key_for_filename}

-- SsaImportPolicy::Values, a std::unordered_map: keys occur once, in some order.
abbrev pub Values : Type 0
Values = Assoc String Text

abbrev trimmed_or_empty : Option Text → Text
trimmed_or_empty none = []
trimmed_or_empty (some v) = trim v

-- valueFor: the trimmed value of a key, empty where the key is missing.
unfoldable pub value_for : Values → String → Text
value_for values key = trimmed_or_empty (lookup key values)

-- std::ranges::find over an array of keys.
unfoldable pub one_of : List String → String → Bool
one_of [] key = false
one_of (k ∷ ks) key = str_eq k key || one_of ks key

-- code, or code and a blank and more
abbrev is_code : Text → Text → Bool
is_code code normalized = text_eq normalized code || starts_with (code ++ b' ' ∷ []) normalized

unfoldable pub is_date_exempt_status : Text → Bool
is_date_exempt_status status =
    let normalized = uppercase (trim status) in
    is_code (codes "SCC") normalized
    || is_code (codes "ADI") normalized
    || is_code (codes "ASE") normalized

unfoldable pub is_terminal_status : Text → Bool
is_terminal_status status =
    let normalized = uppercase (trim status) in
    is_code (codes "STE") normalized || is_code (codes "SCA") normalized

unfoldable pub is_metadata_field : String → Bool
is_metadata_field key =
    one_of
      ("arquivo_origem" ∷ "data_planilha" ∷ "data_criacao_arquivo" ∷ "data_arquivo_origem" ∷ []) key

unfoldable pub is_date_field : String → Bool
is_date_field key =
    one_of
      ("data_planilha" ∷ "data_criacao_arquivo" ∷ "data_arquivo_origem" ∷ "prazo_limite"
        ∷ "data_limite" ∷ "data_inicio_programada" ∷ "data_programacao" ∷ "data_inicio_reprogramada"
        ∷ [])
      key
    || str_eq key "data_reprogramacao"

unfoldable pub is_valid_week : Text → Bool
is_valid_week value = elim (parse_iso_year_week (trim value)) [
  | none ↦ false
  | some week ↦ leb 198001 week && leb week 205053
]

abbrev pub indicators : List String
indicators =
    "prazo_limite" ∷ "status_execucao_prazo" ∷ "tempo_disponivel" ∷ "data_limite" ∷ "tempo_excedido"
    ∷ "desde" ∷ "desde_1" ∷ "desde_2" ∷ "ate" ∷ "ate_1" ∷ "ate_2" ∷ "tempo_total"
    ∷ "total_tempo_tpe_planejado" ∷ "total_tempo_tex_planejado" ∷ "total_tempo_tpo_planejado"
    ∷ "total_horas_programadas" ∷ "total_tempo_tpe_executada" ∷ "total_tempo_tex_executada"
    ∷ "total_tempo_tpo_executada" ∷ "semana_executada" ∷ "num_reprogramacoes"
    ∷ "total_de_reprogramacoes" ∷ "execucao_parcial" ∷ "parciais" ∷ "situacao_da_parcial"
    ∷ "anomalia" ∷ "registros_espera" ∷ "situacao_espera" ∷ "num_reprobaciones" ∷ "numero_desvios"
    ∷ "situacao_de_desvio" ∷ "justificativa" ∷ "data_inicio_programada" ∷ "data_programacao"
    ∷ "data_reprogramacao" ∷ "semana_programada" ∷ "responsavel_programacao"
    ∷ "responsavel_execucao" ∷ "execucao_simples" ∷ "descricao_execucao" ∷ []

unfoldable pub is_indicator_field : String → Bool
is_indicator_field key =
    one_of indicators key
    || (str_eq key "data_inicio_reprogramada"
        || str_eq key "situacao_reprogramacao"
        || str_eq key "executado"
        || str_eq key "concluido")

unfoldable pub is_transient_field : String → Bool
is_transient_field key = str_eq key "data_criacao_arquivo"

-- The fields of snapshotKey in the order in which they are tried.
unfoldable pub first_snapshot : Values → List String → Option Text
first_snapshot values [] = snapshot_key_for_field (value_for values "data_cadastro")
first_snapshot values (key ∷ keys) =
    let rest = first_snapshot values keys in
    let value = value_for values key in
    if is_empty value
    then rest
    else elim (snapshot_key_for_field value) [ none ↦ rest | some k ↦ some k ]

unfoldable pub snapshot_key : Values → Option Text
snapshot_key values =
    let from_fields =
      first_snapshot values
        ("data_planilha" ∷ "data_criacao_arquivo" ∷ "data_arquivo_origem" ∷ []) in
    let filename = value_for values "arquivo_origem" in
    if is_empty filename
    then from_fields
    else elim (snapshot_key_for_filename filename) [ none ↦ from_fields | some k ↦ some k ]

-- text.ends_with(".0") and text.resize(size - 2)
unfoldable pub drop_point_zero : Text → Text
drop_point_zero [] = []
drop_point_zero (c ∷ s) = if text_eq (c ∷ s) (codes ".0") then [] else c ∷ drop_point_zero s

-- std::remove_if with std::isspace
unfoldable pub remove_spaces : Text → Text
remove_spaces [] = []
remove_spaces (c ∷ s) = let rest = remove_spaces s in if is_space c then rest else c ∷ rest

-- A ten byte text with a dash behind its fourth byte loses the dash.
unfoldable pub drop_year_dash : Text → Text
drop_year_dash text =
    if length text == 10 && at text 4 == b'-' then take 4 text ++ drop 5 text else text

unfoldable pub normalize_number : Text → Text
normalize_number value =
    let text = drop_year_dash (remove_spaces (drop_point_zero (trim value))) in
    if not (length text == 9) || not (all is_digit text) then [] else text

pub data RowValidationIssue : Type 0 where
  no_issue invalid_number missing_description missing_date missing_week invalid_date :
      RowValidationIssue

pub data SourceProfile : Type 0 where
  geral executadas derivadas_relacionadas desvios : SourceProfile

unfoldable pub classify_source_profile : Text → SourceProfile
classify_source_profile filename =
    let normalized = lowercase filename in
    if contains_text (codes "executad") normalized
    then executadas
    else if contains_text (codes "derivad") normalized
        || contains_text (codes "relacion") normalized
    then derivadas_relacionadas
    else if contains_text (codes "desvio") normalized
    then desvios
    else geral

abbrev is_timestamp : Text → Bool
is_timestamp value = elim (parse_exact_timestamp value) [ none ↦ false | some _ ↦ true ]

-- The loop over the row's entries: the date fields that hold something must hold a timestamp.
unfoldable pub date_fields_issue : Values → Values → RowValidationIssue
date_fields_issue row [] = no_issue
date_fields_issue row ((key, value) ∷ entries) =
    let rest = date_fields_issue row entries in
    if is_date_field key && not (is_empty (value_for row key)) && not (is_timestamp value)
    then invalid_date
    else rest

unfoldable pub validate_row : Values → RowValidationIssue
validate_row row =
    let date = value_for row "data_cadastro" in
    let issue_week = value_for row "semana_cadastro" in
    let fields_issue = date_fields_issue row row in
    if is_empty (normalize_number (value_for row "numero_ssa"))
    then invalid_number
    else if is_empty (value_for row "descricao_ssa")
    then missing_description
    else if not (is_empty issue_week) && not (is_valid_week issue_week)
    then missing_week
    else if is_empty date
    then (if not (is_date_exempt_status (value_for row "situacao"))
        then missing_date
        else if is_empty issue_week
        then missing_week
        else fields_issue)
    else if not (is_timestamp date)
    then invalid_date
    else fields_issue

unfoldable pub is_valid_row : Values → Bool
is_valid_row row = elim (validate_row row) [ no_issue ↦ true | _ ↦ false ]
