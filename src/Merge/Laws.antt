-- ===== src/Merge/Laws.antt =====
-- What a merge may do to the fields of a row.
use ssa_consulta_rapidacpp.Prelude.{
  ◌≡◌, refl, ◌⊎◌, Bool, true, false, not, ◌&&◌, Option, none, some, String, arith, is_empty,
  Bool-cases, inl, inr,
}
use ssa_consulta_rapidacpp.Text.{Text, text_eq, text_lt}
use ssa_consulta_rapidacpp.Text.Trim.{trim}
use ssa_consulta_rapidacpp.Assoc.{string_eq, lookup, KeysDistinct}
use ssa_consulta_rapidacpp.ImportRow.{
  Values, value_for, is_terminal_status, is_metadata_field, is_indicator_field, snapshot_key,
}
use ssa_consulta_rapidacpp.Merge.{
  MergeContext, assign, MergeState, merge_action, merge_loop, finish_merge, merge_dated,
  merge_keyed, merge,
}
use ssa_consulta_rapidacpp.Merge.Loop.{field_after, lookup-merge_loop}

abbrev pub status : Values → Text
status values = value_for values "situacao"

abbrev pub is_terminal : Values → Bool
is_terminal values = is_terminal_status (status values)

-- The context that merge hands to its loop.
abbrev pub context_of : Values → Values → Text → Text → MergeContext
context_of e i old new = record {
  existing = e;
  older_terminal_promotion = (is_terminal i && not (is_terminal e)) && text_lt new old;
  equal_snapshot = text_eq new old;
  existing_terminal = is_terminal e;
  incoming_terminal = is_terminal i;
}

abbrev pub start : Values → MergeState
start e = record { merged = e; conflict = false }

-- A field of a merged row is the field of the existing row, or what the loop makes of it.
abbrev pub FieldOf : Values → Values → String → Option Text → Type 0
FieldOf e i k field =
    (field ≡ lookup k e)
    ⊎ ((old : Text) × (new : Text) × (field
          ≡ field_after (context_of e i old new) k (lookup k i) (lookup k e)))

finish-FieldOf :
    (e i : Values) (old new : Text) (k : String)
    → KeysDistinct i
    → FieldOf e i k
        (lookup k (finish_merge e (merge_loop (context_of e i old new) i (start e))).values)
unfolding finish_merge
finish-FieldOf e i old new k d =
    elim (Bool-cases (merge_loop (context_of e i old new) i (start e)).conflict) [
      | inl yes' ↦ rw yes' (inl refl)
      | inr no' ↦
          rw no' (inr (old, new, lookup-merge_loop (context_of e i old new) i (start e) k d))
    ]

dated-FieldOf :
    (e i : Values) (old new : Text) (k : String)
    → KeysDistinct i
    → FieldOf e i k (lookup k (merge_dated e i old new).values)
unfolding merge_dated
dated-FieldOf e i old new k d =
    elim (Bool-cases (text_lt new old && not (is_terminal i && not (is_terminal e)))) [
      | inl stale ↦ rw stale (inl refl)
      | inr fresh ↦ rw fresh (finish-FieldOf e i old new k d)
    ]

keyed-FieldOf :
    (e i : Values) (old new : Option Text) (k : String)
    → KeysDistinct i
    → FieldOf e i k (lookup k (merge_keyed e i old new).values)
unfolding merge_keyed
keyed-FieldOf e i none new k d = inl refl
keyed-FieldOf e i (some old) none k d = inl refl
keyed-FieldOf e i (some old) (some new) k d = dated-FieldOf e i old new k d

pub merge-FieldOf :
    (e i : Values) (k : String)
    → is_empty e ≡ false
    → KeysDistinct i
    → FieldOf e i k (lookup k (merge e i).values)
unfolding merge
merge-FieldOf e i k h d = rw h (keyed-FieldOf e i (snapshot_key e) (snapshot_key i) k d)

-- An assignment writes the trimmed incoming value, which is not empty.
pub assign-inv :
    (c : MergeContext) (key : String) (value v : Text)
    → merge_action c key value ≡ assign v
    → (v ≡ trim value) × (is_empty (trim value) ≡ false)
unfolding merge_action
assign-inv c key value v h = ground arith

-- A terminal row takes over only indicators and metadata.
pub frozen_action :
    (c : MergeContext) (key : String) (value v : Text)
    → c.existing_terminal ≡ true
    → is_metadata_field key ≡ false
    → is_indicator_field key ≡ false
    → merge_action c key value ≡ assign v
    → ⊥
unfolding merge_action
frozen_action c key value v t m n h = ground arith
