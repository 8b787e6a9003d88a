-- ===== src/Merge.antt =====
-- SsaImportPolicy::merge of src/domain/SsaImportPolicy.cpp: an existing row and an incoming row of
-- the same number become one row, or a conflict.
pub mod Loop
pub mod Laws
pub mod Fields
pub mod Age
pub mod Status
pub mod Repeat
pub mod Samples
use ssa_consulta_rapidacpp.Prelude.{
  ℕ, Bool, true, false, not, ◌&&◌, ◌||◌, List, [], ◌∷◌, Option, none, some, String, ◌==◌,
  if◌then◌else◌, length, is_empty,
}
use text.Mathlib.Text.{◌==◌ as str_eq}
use ssa_consulta_rapidacpp.Text.{Text, text_eq, text_lt}
use ssa_consulta_rapidacpp.Text.Trim.{trim}
use ssa_consulta_rapidacpp.Assoc.{Assoc, string_eq, lookup, insert}
use ssa_consulta_rapidacpp.ImportRow.{
  Values, value_for, is_terminal_status, is_metadata_field, is_indicator_field, is_transient_field,
  snapshot_key,
}

pub record MergeResult : Type 0 where
  pub values : Values
  pub changed : Bool
  pub conflict : Bool

-- One of the two loops of differsInPersistedValues: an entry of `left` that `right` lacks.
unfoldable pub lacks_entry : Values → Values → Bool
lacks_entry right [] = false
lacks_entry right ((key, value) ∷ left) =
    not (is_transient_field key) && not (text_eq (value_for right key) (trim value))
    || lacks_entry right left

unfoldable pub differs_in_persisted_values : Values → Values → Bool
differs_in_persisted_values left right = lacks_entry right left || lacks_entry left right

-- operator== of std::unordered_map: as many entries, and each of the one is in the other.
abbrev holds_value : Option Text → Text → Bool
holds_value none value = false
holds_value (some w) value = text_eq w value

unfoldable pub all_found : Values → Values → Bool
all_found right [] = true
all_found right ((key, value) ∷ left) = holds_value (lookup key right) value && all_found right left

unfoldable pub same_values : Values → Values → Bool
same_values left right = length left == length right && all_found right left

-- The values that the loop of merge reads and does not change.
pub record MergeContext : Type 0 where
  pub existing : Values
  pub older_terminal_promotion : Bool
  pub equal_snapshot : Bool
  pub existing_terminal : Bool
  pub incoming_terminal : Bool

-- What one round of the loop does: nothing, a mark that the rows clash, or an assignment.
pub data MergeAction : Type 0 where
  skip : MergeAction
  clash : MergeAction
  assign : Text → MergeAction

unfoldable pub merge_action : MergeContext → String → Text → MergeAction
merge_action c key value =
    let normalized = trim value in
    let current = value_for c.existing key in
    let terminal_state_promotion =
      c.equal_snapshot && str_eq key "situacao" && c.incoming_terminal && not c.existing_terminal in
    if c.older_terminal_promotion && not (str_eq key "situacao")
    then skip
    else if is_metadata_field key
    then (if not (is_empty normalized)
          && (not c.equal_snapshot || is_empty current || text_lt normalized current)
        then assign normalized
        else skip)
    else if is_empty normalized
    then skip
    else if c.equal_snapshot
        && not (is_empty current)
        && not (text_eq normalized current)
        && not terminal_state_promotion
    then clash
    else if c.existing_terminal && not (is_indicator_field key)
        || c.equal_snapshot && str_eq key "situacao" && not terminal_state_promotion
        || c.equal_snapshot && text_eq normalized current
    then skip
    else assign normalized

pub record MergeState : Type 0 where
  pub merged : Values
  pub conflict : Bool

unfoldable pub apply_action : String → MergeAction → MergeState → MergeState
apply_action key skip s = s
apply_action key clash s = record s { conflict = true }
apply_action key (assign v) s = record s { merged = insert key v s.merged }

unfoldable pub merge_loop : MergeContext → Values → MergeState → MergeState
merge_loop c [] s = s
merge_loop c ((key, value) ∷ incoming) s =
    merge_loop c incoming (apply_action key (merge_action c key value) s)

unfoldable pub finish_merge : Values → MergeState → MergeResult
finish_merge existing s =
    if s.conflict then record { values = existing; changed = false; conflict = true } else record {
      values = s.merged;
      changed = differs_in_persisted_values s.merged existing;
      conflict = false;
    }

-- merge once both snapshot keys are known.
unfoldable pub merge_dated : Values → Values → Text → Text → MergeResult
merge_dated existing incoming existing_snapshot incoming_snapshot =
    let existing_terminal = is_terminal_status (value_for existing "situacao") in
    let incoming_terminal = is_terminal_status (value_for incoming "situacao") in
    let terminal_promotion = incoming_terminal && not existing_terminal in
    let older = text_lt incoming_snapshot existing_snapshot in
    let context : MergeContext = record {
      existing = existing;
      older_terminal_promotion = terminal_promotion && older;
      equal_snapshot = text_eq incoming_snapshot existing_snapshot;
      existing_terminal = existing_terminal;
      incoming_terminal = incoming_terminal;
    } in
    if older && not terminal_promotion
    then record { values = existing; changed = false; conflict = false }
    else finish_merge existing
        (merge_loop context incoming (record { merged = existing; conflict = false }))

-- merge where both rows hold something.
unfoldable pub merge_keyed : Values → Values → Option Text → Option Text → MergeResult
merge_keyed existing incoming (some old) (some new) = merge_dated existing incoming old new
merge_keyed existing incoming none new = record {
  values = existing;
  changed = false;
  conflict = not (same_values existing incoming);
}
merge_keyed existing incoming (some old) none = record {
  values = existing;
  changed = false;
  conflict = not (same_values existing incoming);
}

unfoldable pub merge : Values → Values → MergeResult
merge existing incoming =
    if is_empty existing
    then record { values = incoming; changed = not (is_empty incoming); conflict = false }
    else merge_keyed existing incoming (snapshot_key existing) (snapshot_key incoming)
