-- ===== src/Catalog/Columns.antt =====
-- The columns of the list, in the order of the catalog: the tables of src/domain/ColumnCatalog.cpp.
use ssa_consulta_rapidacpp.Prelude.{Bool, true, false, List, [], ◌∷◌, ◌++◌, String}

pub data ColumnType : Type 0 where
  text : ColumnType
  integer : ColumnType
  date_text : ColumnType

pub record ColumnDef : Type 0 where
  pub key : String
  pub type' : ColumnType
  pub general_search : Bool

abbrev column : String → ColumnType → Bool → ColumnDef
column key type' general_search = record {
  key = key;
  type' = type';
  general_search = general_search;
}

abbrev first_columns : List ColumnDef
first_columns =
    column "id" ColumnType.integer false
    ∷ column "numero_ssa" ColumnType.text true
    ∷ column "situacao" ColumnType.text true
    ∷ column "localizacao_codigo" ColumnType.text true
    ∷ column "setor_emissor" ColumnType.text true
    ∷ column "setor_executor" ColumnType.text true
    ∷ column "qtd_derivadas" ColumnType.integer false
    ∷ column "descricao_ssa" ColumnType.text true
    ∷ column "data_cadastro" ColumnType.date_text false
    ∷ column "derivada_de" ColumnType.text true
    ∷ column "semana_cadastro" ColumnType.integer true
    ∷ column "descricao_localizacao" ColumnType.text true
    ∷ column "equipamento" ColumnType.text true
    ∷ column "descricao_execucao" ColumnType.text true
    ∷ column "solicitante" ColumnType.text true
    ∷ column "responsavel_programacao" ColumnType.text true
    ∷ column "responsavel_execucao" ColumnType.text true
    ∷ column "servico_origem" ColumnType.text true
    ∷ column "sistema_origem" ColumnType.text true
    ∷ column "arquivo_origem" ColumnType.text false
    ∷ column "data_planilha" ColumnType.date_text false
    ∷ column "grau_prioridade_emissao" ColumnType.text true
    ∷ column "grau_prioridade_planejamento" ColumnType.text true
    ∷ column "execucao_simples" ColumnType.text false
    ∷ column "semana_programada" ColumnType.integer true
    ∷ column "prazo_limite" ColumnType.date_text false
    ∷ column "status_execucao_prazo" ColumnType.text false
    ∷ column "tempo_disponivel" ColumnType.text false
    ∷ column "data_limite" ColumnType.date_text false
    ∷ []

abbrev middle_columns : List ColumnDef
middle_columns =
    column "tempo_excedido" ColumnType.text false
    ∷ column "desde" ColumnType.text false
    ∷ column "tempo_total" ColumnType.text false
    ∷ column "desde_1" ColumnType.text false
    ∷ column "total_tempo_tpe_planejado" ColumnType.text false
    ∷ column "total_tempo_tex_planejado" ColumnType.text false
    ∷ column "total_tempo_tpo_planejado" ColumnType.text false
    ∷ column "total_horas_programadas" ColumnType.text false
    ∷ column "total_tempo_tpe_executada" ColumnType.text false
    ∷ column "semana_executada" ColumnType.integer true
    ∷ column "num_reprogramacoes" ColumnType.integer false
    ∷ column "execucao_parcial" ColumnType.text true
    ∷ column "anomalia" ColumnType.text true
    ∷ column "registros_espera" ColumnType.text false
    ∷ column "num_reprobaciones" ColumnType.integer false
    ∷ column "situacao_espera" ColumnType.text true
    ∷ column "numero_desvios" ColumnType.integer true
    ∷ column "ate" ColumnType.text false
    ∷ column "justificativa" ColumnType.text true
    ∷ column "total_tempo_tex_executada" ColumnType.text false
    ∷ column "parciais" ColumnType.text true
    ∷ column "situacao_da_parcial" ColumnType.text true
    ∷ column "ate_1" ColumnType.text false
    ∷ column "ate_2" ColumnType.text false
    ∷ column "desde_2" ColumnType.text false
    ∷ column "total_tempo_tpo_executada" ColumnType.text false
    ∷ column "atividade_especial" ColumnType.text true
    ∷ column "equipamento_retirado" ColumnType.text true
    ∷ []

abbrev last_columns : List ColumnDef
last_columns =
    column "sn_retirado" ColumnType.text false
    ∷ column "destino" ColumnType.text true
    ∷ column "equipamento_instalado" ColumnType.text true
    ∷ column "sn_instalado" ColumnType.text false
    ∷ column "sn_extra" ColumnType.text false
    ∷ column "origem" ColumnType.text true
    ∷ column "desativacao_da_localizacao" ColumnType.text true
    ∷ column "instalacao_estimada" ColumnType.text true
    ∷ column "executado" ColumnType.text true
    ∷ column "concluido" ColumnType.text true
    ∷ column "data_inicio_programada" ColumnType.date_text false
    ∷ column "data_programacao" ColumnType.date_text false
    ∷ column "data_inicio_reprogramada" ColumnType.date_text false
    ∷ column "data_reprogramacao" ColumnType.date_text false
    ∷ column "situacao_reprogramacao" ColumnType.text true
    ∷ column "total_de_reprogramacoes" ColumnType.integer false
    ∷ column "situacao_de_desvio" ColumnType.text true
    ∷ column "numero_ssa_relacionada_1" ColumnType.text true
    ∷ column "numero_ssa_relacionada_2" ColumnType.text true
    ∷ column "numero_ssa_relacionada_3" ColumnType.text true
    ∷ column "setor_emissor_relacionado_1" ColumnType.text true
    ∷ column "setor_emissor_relacionado_2" ColumnType.text true
    ∷ column "setor_executor_relacionado_1" ColumnType.text true
    ∷ column "setor_executor_relacionado_2" ColumnType.text true
    ∷ column "situacao_relacionada_1" ColumnType.text true
    ∷ column "situacao_relacionada_2" ColumnType.text true
    ∷ column "relacao" ColumnType.text true
    ∷ column "data_arquivo_origem" ColumnType.date_text false
    ∷ []

abbrev pub columns : List ColumnDef
columns = first_columns ++ middle_columns ++ last_columns

abbrev pub default_visible_column_keys : List String
default_visible_column_keys =
    "numero_ssa" ∷ "situacao" ∷ "localizacao_codigo" ∷ "setor_emissor" ∷ "setor_executor"
    ∷ "qtd_derivadas" ∷ "descricao_ssa" ∷ "semana_cadastro" ∷ "solicitante" ∷ "derivada_de"
    ∷ "responsavel_programacao" ∷ "responsavel_execucao" ∷ "semana_programada" ∷ "semana_executada"
    ∷ "descricao_execucao" ∷ []

abbrev pub advanced_filter_keys : List String
advanced_filter_keys =
    "setor_emissor" ∷ "setor_executor" ∷ "situacao" ∷ "solicitante" ∷ "responsavel_programacao"
    ∷ "responsavel_execucao" ∷ "localizacao_codigo" ∷ "status_execucao_prazo" ∷ "anomalia"
    ∷ "situacao_espera" ∷ "situacao_da_parcial" ∷ []

abbrev pub required_schema_columns : List String
required_schema_columns = "numero_ssa" ∷ "descricao_ssa" ∷ "data_cadastro" ∷ []

abbrev pub week_column_keys : List String
week_column_keys = "semana_cadastro" ∷ "semana_programada" ∷ "semana_executada" ∷ []

abbrev pub status_column_key : String
status_column_key = "situacao"

abbrev pub derived_count_column_key : String
derived_count_column_key = "qtd_derivadas"

abbrev pub excluded_status_codes : List String
excluded_status_codes = "SCA" ∷ "SES" ∷ "STE" ∷ []
