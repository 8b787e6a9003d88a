-- ===== src/Merge/Loop.antt =====
-- What the loop of merge does to each key, and when it marks a conflict.
use ssa_consulta_rapidacpp.Prelude.{
  ◌≡◌, refl, Bool, true, false, ◌||◌, [], ◌∷◌, Option, none, some, String, arith, if◌then◌else◌,
}
use text.Mathlib.Text.{◌==◌ as str_eq}
use text.Mathlib.TextEquality.{eq_iff}
use ssa_consulta_rapidacpp.Text.{Text}
use ssa_consulta_rapidacpp.Assoc.{string_eq, lookup, KeysDistinct, lookup-insert, lookup-has_key}
use ssa_consulta_rapidacpp.ImportRow.{Values}
use ssa_consulta_rapidacpp.Merge.{
  MergeContext, MergeAction, skip, clash, assign, MergeState, merge_action, apply_action,
  merge_loop,
}

-- A field of the result: the assignment that the incoming entry of the key calls for, if any, and
-- the field before otherwise.
abbrev pub after_action : MergeAction → Option Text → Option Text
after_action (assign v) before = some v
after_action skip before = before
after_action clash before = before

abbrev pub field_after : MergeContext → String → Option Text → Option Text → Option Text
field_after c key none before = before
field_after c key (some value) before = after_action (merge_action c key value) before

lookup-apply_action :
    (key k : String) (a : MergeAction) (s : MergeState)
    → lookup k (apply_action key a s).merged
      ≡ (if str_eq key k then after_action a (lookup k s.merged) else lookup k s.merged)
unfolding apply_action
lookup-apply_action key k skip s = ground arith
lookup-apply_action key k clash s = ground arith
lookup-apply_action key k (assign v) s = lookup-insert key k v s.merged

-- The loop, key by key.
pub lookup-merge_loop :
    (c : MergeContext) (incoming : Values) (s : MergeState) (k : String)
    → KeysDistinct incoming
    → lookup k (merge_loop c incoming s).merged
      ≡ field_after c k (lookup k incoming) (lookup k s.merged)
unfolding merge_loop lookup
lookup-merge_loop c [] s k d = refl
lookup-merge_loop c ((key, value) ∷ incoming) s k d = ground (
  arith,
  eq_iff key k,
  lookup-has_key key incoming,
  lookup-apply_action key k (merge_action c key value) s,
  lookup-merge_loop c incoming (apply_action key (merge_action c key value) s) k,
)

unfoldable pub some_clash : MergeContext → Values → Bool
some_clash c [] = false
some_clash c ((key, value) ∷ incoming) = elim (merge_action c key value) [
  | clash ↦ true
  | _ ↦ some_clash c incoming
]

pub conflict-merge_loop :
    (c : MergeContext) (incoming : Values) (s : MergeState)
    → (merge_loop c incoming s).conflict ≡ (s.conflict || some_clash c incoming)
unfolding merge_loop some_clash apply_action
conflict-merge_loop c [] s = ground arith
conflict-merge_loop c ((key, value) ∷ incoming) s =
    ground (arith, conflict-merge_loop c incoming (apply_action key (merge_action c key value) s))
