-- ===== src/Relation.antt =====
-- The numbers that a record is related to: src/domain/SsaRelationGraph.h and .cpp.
use ssa_consulta_rapidacpp.Prelude.{
  List, [], ◌∷◌, ◌++◌, Option, none, some, String, if◌then◌else◌, is_empty,
}
use ssa_consulta_rapidacpp.Text.{Text}
use ssa_consulta_rapidacpp.Csv.{SsaRecord, value_of}

pub data SsaRelationKind : Type 0 where
  current : SsaRelationKind
  derived_from : SsaRelationKind
  related : SsaRelationKind

pub record SsaRelationItem : Type 0 where
  pub kind : SsaRelationKind
  pub number : Text

unfoldable pub append_relation :
    List SsaRelationItem → SsaRelationKind → Text → List SsaRelationItem
append_relation relations kind number =
    if is_empty number then relations else relations ++ record { kind = kind; number = number } ∷ []

abbrev append_value :
    SsaRelationKind → Option (List SsaRelationItem) → Option Text → Option (List SsaRelationItem)
append_value kind none number = none
append_value kind (some relations) none = none
append_value kind (some relations) (some number) = some (append_relation relations kind number)

-- none where valueOf throws.
unfoldable pub append_keys :
    SsaRecord
    → SsaRelationKind
    → Option (List SsaRelationItem)
    → List String
    → Option (List SsaRelationItem)
append_keys r kind relations [] = relations
append_keys r kind relations (key ∷ keys) =
    append_keys r kind (append_value kind relations (value_of r key)) keys

unfoldable pub from_record : SsaRecord → Option (List SsaRelationItem)
from_record r =
    let current_item = append_keys r SsaRelationKind.current (some []) ("numero_ssa" ∷ []) in
    let parent_item =
      append_keys r SsaRelationKind.derived_from current_item ("derivada_de" ∷ []) in
    append_keys r SsaRelationKind.related parent_item
      ("numero_ssa_relacionada_1" ∷ "numero_ssa_relacionada_2" ∷ "numero_ssa_relacionada_3" ∷ [])
