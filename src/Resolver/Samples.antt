-- ===== src/Resolver/Samples.antt =====
-- Two files with rows of one number, one with a clash and one without a number, and the theorems
-- about the resolver at these files.
use ssa_consulta_rapidacpp.Prelude.{◌≡◌, refl, [], ◌∷◌, List, All}
use ssa_consulta_rapidacpp.Text.{codes}
use ssa_consulta_rapidacpp.ImportRow.{Values}
use ssa_consulta_rapidacpp.Resolver.{SsaImportBatch, resolve_by_ssa_number, row_value}
use ssa_consulta_rapidacpp.Resolver.Numbered.{numbered}
use ssa_consulta_rapidacpp.Resolver.Number.{IsMapped}
use ssa_consulta_rapidacpp.Resolver.Outcome.{absent, outcome, rows_of}
use ssa_consulta_rapidacpp.Resolver.Refinement.{rows_in, resolve_by_ssa_number-outcome}
use ssa_consulta_rapidacpp.Resolver.Unkeyed.{resolve_by_ssa_number-unkeyed}
use ssa_consulta_rapidacpp.Assoc.{has_key, lookup}
use ssa_consulta_rapidacpp.Text.Trim.{trim}

abbrev first_row : Values
first_row =
    ("numero_ssa", codes "202600020")
    ∷ ("situacao", codes "APV")
    ∷ ("data_planilha", codes "2026-07-14")
    ∷ []

abbrev clashing_row : Values
clashing_row =
    ("numero_ssa", codes "202600020")
    ∷ ("situacao", codes "AAD")
    ∷ ("data_planilha", codes "2026-07-14")
    ∷ []

abbrev unkeyed_row : Values
unkeyed_row = ("situacao", codes "APV") ∷ []

abbrev files : List SsaImportBatch
files =
    record { rows = first_row ∷ unkeyed_row ∷ [] }
    ∷ record { rows = clashing_row ∷ first_row ∷ [] }
    ∷ []

files-IsMapped : All IsMapped (rows_in files)
unfolding has_key row_value trim lookup
files-IsMapped = (
  ((refl, (refl, (refl, tt))), refl),
  (
    ((refl, tt), refl),
    (((refl, (refl, (refl, tt))), refl), (((refl, (refl, (refl, tt))), refl), tt)),
  ),
)

resolve_by_ssa_number-outcome_example :
    numbered (codes "202600020") (resolve_by_ssa_number files).rows
    ≡ rows_of (outcome (codes "202600020") absent (rows_in files))
resolve_by_ssa_number-outcome_example =
    resolve_by_ssa_number-outcome (codes "202600020") files refl files-IsMapped

resolve_by_ssa_number-unkeyed_example :
    numbered [] (resolve_by_ssa_number files).rows ≡ numbered [] (rows_in files)
resolve_by_ssa_number-unkeyed_example = resolve_by_ssa_number-unkeyed files files-IsMapped
