-- ===== src/Sheet/Aliases.antt =====
-- The headers that a spreadsheet may use: the table of
-- src/infra/import/SsaSpreadsheetHeaderCatalog.cpp. A text is its bytes: U+00B0 is 194, 176.
use ssa_consulta_rapidacpp.Prelude.{List, [], ◌∷◌, ◌++◌, String}
use ssa_consulta_rapidacpp.Text.{Text, codes}

abbrev pub normalized_aliases : List (Text × String)
normalized_aliases =
    (codes "no ssa", "numero_ssa")
    ∷ (codes "no ssa*", "numero_ssa")
    ∷ (codes "no ssa original", "numero_ssa")
    ∷ (codes "numero ssa", "numero_ssa")
    ∷ (codes "no da ssa", "numero_ssa")
    ∷ (codes "numero da ssa", "numero_ssa")
    ∷ (codes "ssa_number", "numero_ssa")
    ∷ (codes "ssa number", "numero_ssa")
    ∷ (codes "ssanumber", "numero_ssa")
    ∷ (codes "numero de ssa", "numero_ssa")
    ∷ (codes "numero de la ssa", "numero_ssa")
    ∷ (codes "situacao", "situacao")
    ∷ (codes "status", "situacao")
    ∷ (codes "situation", "situacao")
    ∷ (codes "situation_desc", "situacao")
    ∷ (codes "situationdesc", "situacao")
    ∷ (codes "situacion", "situacao")
    ∷ (codes "estado", "situacao")
    ∷ (codes "process_status", "situacao")
    ∷ (codes "derivada de", "derivada_de")
    ∷ (codes "loc.", "localizacao_codigo")
    ∷ (codes "localizacao", "localizacao_codigo")
    ∷ (codes "cod. localizacao", "localizacao_codigo")
    ∷ (codes "codigo localizacao", "localizacao_codigo")
    ∷ (codes "localization", "localizacao_codigo")
    ∷ (codes "localizacion", "localizacao_codigo")
    ∷ (codes "ubicacion", "localizacao_codigo")
    ∷ (codes "desc. loc.", "descricao_localizacao")
    ∷ (codes "descricao da localizacao", "descricao_localizacao")
    ∷ (codes "descricao localizacao", "descricao_localizacao")
    ∷ (codes "equip.", "equipamento")
    ∷ (codes "equipamento", "equipamento")
    ∷ (codes "sem. cadastro", "semana_cadastro")
    ∷ (codes "semana cadastro", "semana_cadastro")
    ∷ (codes "semana de cadastro", "semana_cadastro")
    ∷ (codes "year_week", "semana_cadastro")
    ∷ (codes "year week", "semana_cadastro")
    ∷ (codes "ano semana", "semana_cadastro")
    ∷ (codes "ano-semana", "semana_cadastro")
    ∷ (codes "emitida em", "data_cadastro")
    ∷ (codes "data de emissao", "data_cadastro")
    ∷ (codes "data cadastro", "data_cadastro")
    ∷ (codes "data/hora de cadastro", "data_cadastro")
    ∷ (codes "issue_datetime", "data_cadastro")
    ∷ (codes "emission_datetime", "data_cadastro")
    ∷ (codes "issue datetime", "data_cadastro")
    ∷ (codes "emission datetime", "data_cadastro")
    ∷ (codes "fecha emision", "data_cadastro")
    ∷ (codes "fecha de emision", "data_cadastro")
    ∷ (codes "descricao da ssa", "descricao_ssa")
    ∷ (codes "descricao", "descricao_ssa")
    ∷ (codes "description", "descricao_ssa")
    ∷ (codes "descripcion", "descricao_ssa")
    ∷ (codes "descripcion de la ssa", "descricao_ssa")
    ∷ (codes "emissor", "setor_emissor")
    ∷ (codes "setor emissor", "setor_emissor")
    ∷ (codes "emitter_sector", "setor_emissor")
    ∷ (codes "emitter sector", "setor_emissor")
    ∷ (codes "emittersector", "setor_emissor")
    ∷ (codes "emmitersector", "setor_emissor")
    ∷ (codes "sector emisor", "setor_emissor")
    ∷ (codes "executor", "setor_executor")
    ∷ (codes "setor executor", "setor_executor")
    ∷ (codes "executor_sector", "setor_executor")
    ∷ (codes "executor sector", "setor_executor")
    ∷ (codes "executorsector", "setor_executor")
    ∷ (codes "sector ejecutor", "setor_executor")
    ∷ (codes "solicitante", "solicitante")
    ∷ (codes "serv. origem", "servico_origem")
    ∷ (codes "servico de origem", "servico_origem")
    ∷ (codes "prior. emissao", "grau_prioridade_emissao")
    ∷ (codes "prioridade emissao", "grau_prioridade_emissao")
    ∷ (codes "grau prioridade emissao", "grau_prioridade_emissao")
    ∷ (codes "grau de prioridade emissao", "grau_prioridade_emissao")
    ∷ (codes "prior. planej.", "grau_prioridade_planejamento")
    ∷ (codes "prioridade planejamento", "grau_prioridade_planejamento")
    ∷ (codes "grau prioridade planejamento", "grau_prioridade_planejamento")
    ∷ (codes "grau de prioridade planejamento", "grau_prioridade_planejamento")
    ∷ (codes "exec. simples", "execucao_simples")
    ∷ (codes "execucao simples", "execucao_simples")
    ∷ (codes "resp. prog.", "responsavel_programacao")
    ∷ (codes "responsavel programacao", "responsavel_programacao")
    ∷ (codes "responsavel na programacao", "responsavel_programacao")
    ∷ (codes "sem. prog.", "semana_programada")
    ∷ (codes "semana programada", "semana_programada")
    ∷ (codes "resp. exec.", "responsavel_execucao")
    ∷ (codes "responsavel execucao", "responsavel_execucao")
    ∷ (codes "responsavel na execucao", "responsavel_execucao")
    ∷ (codes "descricao da execucao", "descricao_execucao")
    ∷ (codes "descricao execucao", "descricao_execucao")
    ∷ (codes "execution_description", "descricao_execucao")
    ∷ (codes "execution description", "descricao_execucao")
    ∷ (codes "descripcion de la ejecucion", "descricao_execucao")
    ∷ (codes "total tempo tex executada", "total_tempo_tex_executada")
    ∷ (codes "parciais", "parciais")
    ∷ (codes "situacao da parcial", "situacao_da_parcial")
    ∷ (codes "prazo limite", "status_execucao_prazo")
    ∷ (codes "situacao do prazo", "status_execucao_prazo")
    ∷ (codes "status prazo", "status_execucao_prazo")
    ∷ (codes "tempo disp.", "tempo_disponivel")
    ∷ (codes "tempo disponivel", "tempo_disponivel")
    ∷ (codes "data limite", "data_limite")
    ∷ (codes "tempo excedido", "tempo_excedido")
    ∷ (codes "desde", "desde")
    ∷ (codes "tempo total", "tempo_total")
    ∷ (codes "desde (1)", "desde_1")
    ∷ (codes "tempo tpe plan.", "total_tempo_tpe_planejado")
    ∷ (codes "total tempo tpe planejado", "total_tempo_tpe_planejado")
    ∷ (codes "tempo tex plan.", "total_tempo_tex_planejado")
    ∷ (codes "total tempo tex planejado", "total_tempo_tex_planejado")
    ∷ (codes "tempo tpo plan.", "total_tempo_tpo_planejado")
    ∷ (codes "total tempo tpo planejado", "total_tempo_tpo_planejado")
    ∷ (codes "horas prog.", "total_horas_programadas")
    ∷ (codes "total horas programadas", "total_horas_programadas")
    ∷ (codes "total de horas programadas", "total_horas_programadas")
    ∷ (codes "total tempo tpe executada", "total_tempo_tpe_executada")
    ∷ (codes "sem. exec.", "semana_executada")
    ∷ (codes "semana executada", "semana_executada")
    ∷ (codes "no reprog.", "num_reprogramacoes")
    ∷ (codes "numero de reprogramacoes", "num_reprogramacoes")
    ∷ (codes "n" ++ (194 ∷ 176 ∷ codes " de reprogramacoes"), "num_reprogramacoes")
    ∷ (codes "reprogramacoes", "num_reprogramacoes")
    ∷ (codes "exec. parcial", "execucao_parcial")
    ∷ (codes "execucao parcial", "execucao_parcial")
    ∷ (codes "anomalia", "anomalia")
    ∷ (codes "sis. origem", "sistema_origem")
    ∷ (codes "sistema de origem", "sistema_origem")
    ∷ (codes "registros de espera", "registros_espera")
    ∷ (codes "n" ++ (194 ∷ 176 ∷ codes " de reprobaciones"), "num_reprobaciones")
    ∷ (codes "no de reprobaciones", "num_reprobaciones")
    ∷ (codes "situacao de espera", "situacao_espera")
    ∷ (codes "numero de desvios", "numero_desvios")
    ∷ (codes "no de desvios", "numero_desvios")
    ∷ (codes "desvio", "numero_desvios")
    ∷ (codes "ate", "ate")
    ∷ (codes "justificativa", "justificativa")
    ∷ (codes "justificativa sem apr", "justificativa")
    ∷ (codes "atividade especial", "atividade_especial")
    ∷ (codes "actividad especial", "atividade_especial")
    ∷ (codes "equipamento retirado", "equipamento_retirado")
    ∷ (codes "destino", "destino")
    ∷ (codes "equipamento instalado", "equipamento_instalado")
    ∷ (codes "origem", "origem")
    ∷ (codes "desativacao da localizacao", "desativacao_da_localizacao")
    ∷ (codes "instalacao estimada", "instalacao_estimada")
    ∷ (codes "executado", "executado")
    ∷ (codes "concluido", "concluido")
    ∷ (codes "total tempo tpo executada", "total_tempo_tpo_executada")
    ∷ (codes "data inicio programada", "data_inicio_programada")
    ∷ (codes "data de programacao", "data_programacao")
    ∷ (codes "data inicio reprogramada", "data_inicio_reprogramada")
    ∷ (codes "data de reprogramacao", "data_reprogramacao")
    ∷ (codes "situacao de reprogramacao", "situacao_reprogramacao")
    ∷ (codes "total de reprogramacoes", "total_de_reprogramacoes")
    ∷ (codes "situacao de desvio", "situacao_de_desvio")
    ∷ (codes "relacao", "relacao")
    ∷ (codes "sn", "sn")
    ∷ (codes "ate (1)", "ate_1")
    ∷ (codes "ate (2)", "ate_2")
    ∷ (codes "desde (2)", "desde_2")
    ∷ (codes "numero da ssa relacionada", "numero_ssa_relacionada_1")
    ∷ (codes "numero da ssa relacionada (2)", "numero_ssa_relacionada_2")
    ∷ (codes "setor emissor relacionado", "setor_emissor_relacionado_1")
    ∷ (codes "setor emissor relacionado (2)", "setor_emissor_relacionado_2")
    ∷ (codes "setor executor relacionado", "setor_executor_relacionado_1")
    ∷ (codes "setor executor relacionado (2)", "setor_executor_relacionado_2")
    ∷ (codes "situacao relacionada", "situacao_relacionada_1")
    ∷ (codes "situacao relacionada (2)", "situacao_relacionada_2")
    ∷ []
