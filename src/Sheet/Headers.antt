-- ===== src/Sheet/Headers.antt =====
-- Headers: src/infra/import/SsaSpreadsheetHeaderCatalog.cpp, and snapshotHeaderKind, positionalFamily
-- and the tests on a header row of src/infra/import/SsaSpreadsheetMapper.cpp.
use text.Mathlib.Text.{◌==◌ as str_eq}
use ssa_consulta_rapidacpp.Prelude.{
  ℕ, Bool, true, false, not, ◌&&◌, ◌||◌, List, [], ◌∷◌, Option, none, some, String, if◌then◌else◌,
  any, all, ◌==◌, map,
}
use ssa_consulta_rapidacpp.Text.{Text, codes, text_eq, contains_text}
use ssa_consulta_rapidacpp.Text.Trim.{trim}
use ssa_consulta_rapidacpp.Text.Case.{lowercase}
use ssa_consulta_rapidacpp.Assoc.{Assoc, text_Eq, lookup}
use ssa_consulta_rapidacpp.Catalog.{is_canonical_storage_key, contains}
use ssa_consulta_rapidacpp.Catalog.Columns.{ColumnDef, columns, required_schema_columns}
use ssa_consulta_rapidacpp.Sheet.{Qt, folded_text}
use ssa_consulta_rapidacpp.Sheet.Aliases.{normalized_aliases}

-- The loop of normalizedHeader.
unfoldable pub header_characters : Qt → Bool → List ℕ → List ℕ
header_characters qt previous_space [] = []
header_characters qt previous_space (c ∷ cs) =
    let rest = header_characters qt (if qt.is_mark c then previous_space else qt.is_space c) cs in
    if qt.is_mark c
    then rest
    else if qt.is_space c
    then (if previous_space then rest else 32 ∷ rest)
    else qt.to_lower c ∷ rest

unfoldable pub normalized_header : Qt → Text → Text
normalized_header qt value =
    qt.to_std_string (qt.trimmed (header_characters qt false (qt.decomposed value)))

-- The column whose key is the text.
unfoldable pub key_of_text : Text → List ColumnDef → Option String
key_of_text text [] = none
key_of_text text (column ∷ rest) =
    let other = key_of_text text rest in
    if text_eq (codes column.key) text && contains column.key then some column.key else other

abbrev pub has_destination : String → Bool
has_destination canonical =
    str_eq canonical "sn" || is_canonical_storage_key canonical && contains canonical

abbrev pub same_or_new : String → Option String → Bool
same_or_new canonical none = true
same_or_new canonical (some found) = str_eq found canonical

abbrev pub keep_first : Text → String → Option String → Assoc Text String → Assoc Text String
keep_first header canonical none values = (header, canonical) ∷ values
keep_first header canonical (some found) values = values

-- The loop of headerAliases; none where the code throws std::logic_error.
unfoldable pub add_aliases :
    Qt → Assoc Text String → List (Text × String) → Option (Assoc Text String)
add_aliases qt values [] = some values
add_aliases qt values ((header, canonical) ∷ rest) =
    let key = normalized_header qt header in
    let found = lookup key values in
    let added = add_aliases qt (keep_first key canonical found values) rest in
    if has_destination canonical && same_or_new canonical found then added else none

unfoldable pub header_aliases : Qt → Option (Assoc Text String)
header_aliases qt = add_aliases qt [] normalized_aliases

abbrev pub known_alias : Option String → Option String
known_alias none = none
known_alias (some canonical) =
    if str_eq canonical "sn" || contains canonical then some canonical else none

abbrev pub alias_in : Text → Option (Assoc Text String) → Option (Option String)
alias_in normalized none = none
alias_in normalized (some aliases) = some (known_alias (lookup normalized aliases))

abbrev pub column_or_alias : Qt → Text → Option String → Option (Option String)
column_or_alias qt normalized none = alias_in normalized (header_aliases qt)
column_or_alias qt normalized (some key) = some (some key)

unfoldable pub canonical_column_for_header : Qt → Text → Option (Option String)
canonical_column_for_header qt header =
    let normalized = normalized_header qt header in
    column_or_alias qt normalized (key_of_text normalized columns)

pub data SnapshotHeaderKind : Type 0 where
  other : SnapshotHeaderKind
  issue : SnapshotHeaderKind
  emission : SnapshotHeaderKind

unfoldable pub snapshot_header_kind : Text → SnapshotHeaderKind
snapshot_header_kind header =
    let normalized = map (λ (c : ℕ). if c == b'_' then b' ' else c) (lowercase (trim header)) in
    if contains_text (codes "emission") normalized
      || contains_text (codes "emissao") normalized
      || contains_text (codes "emitida") normalized
    then emission
    else if contains_text (codes "issue") normalized || contains_text (codes "cadastro") normalized
    then issue
    else other

unfoldable pub positional_family : String → List String
positional_family canonical =
    if str_eq canonical "numero_ssa"
    then "numero_ssa" ∷ "numero_ssa_relacionada_1" ∷ "numero_ssa_relacionada_2"
      ∷ "numero_ssa_relacionada_3" ∷ []
    else if str_eq canonical "setor_emissor"
    then "setor_emissor" ∷ "setor_emissor_relacionado_1" ∷ "setor_emissor_relacionado_2" ∷ []
    else if str_eq canonical "setor_executor"
    then "setor_executor" ∷ "setor_executor_relacionado_1" ∷ "setor_executor_relacionado_2" ∷ []
    else if str_eq canonical "situacao"
    then "situacao" ∷ "situacao_relacionada_1" ∷ "situacao_relacionada_2" ∷ []
    else if str_eq canonical "desde"
    then "desde" ∷ "desde_1" ∷ "desde_2" ∷ []
    else if str_eq canonical "ate"
    then "ate" ∷ "ate_1" ∷ "ate_2" ∷ []
    else if str_eq canonical "sn"
    then "sn_retirado" ∷ "sn_instalado" ∷ "sn_extra" ∷ []
    else []

abbrev pub HeaderColumns : Type 0
HeaderColumns = List (ℕ × String)

unfoldable pub has_column : String → HeaderColumns → Bool
has_column key [] = false
has_column key ((index, column) ∷ rest) = str_eq column key || has_column key rest

unfoldable pub has_required_columns : HeaderColumns → Bool
has_required_columns columns' =
    all (λ (key : String). has_column key columns') required_schema_columns

unfoldable pub is_relation_category_header : Qt → Text → Bool
is_relation_category_header qt header =
    let folded = folded_text qt header in
    text_eq folded (codes "categoria") || text_eq folded (codes "category")

unfoldable pub equals_trimmed : List Text → List String → Bool
equals_trimmed [] [] = true
equals_trimmed [] (w ∷ wanted) = false
equals_trimmed (a ∷ actual) [] = false
equals_trimmed (a ∷ actual) (w ∷ wanted) =
    text_eq (trim a) (codes w) && equals_trimmed actual wanted

unfoldable pub is_sam_api_report : List Text → Bool
is_sam_api_report header = equals_trimmed header (
    "ssa_number" ∷ "localization" ∷ "description" ∷ "issue_datetime" ∷ "emission_datetime"
    ∷ "emitter_sector" ∷ "executor_sector" ∷ "year_week" ∷ "situation_desc" ∷ "process_status"
    ∷ "detail_present" ∷ [])

unfoldable pub is_derivation_relation_report : Qt → HeaderColumns → List Text → Bool
is_derivation_relation_report qt columns' header =
    has_column "relacao" columns'
      && has_column "numero_ssa" columns'
      && has_column "numero_ssa_relacionada_1" columns'
      && has_column "numero_ssa_relacionada_2" columns'
    || has_column "numero_ssa" columns'
      && has_column "localizacao_codigo" columns'
      && has_column "setor_emissor" columns'
      && has_column "setor_executor" columns'
      && has_column "situacao" columns'
      && not (has_column "descricao_ssa" columns')
      && not (has_column "data_cadastro" columns')
      && any (is_relation_category_header qt) header
