-- ===== src/Merge/Status.antt =====
-- Rows of one snapshot whose status differs.
use ssa_consulta_rapidacpp.Prelude.{
  ◌≡◌, refl, ◌∙◌, true, false, [], ◌∷◌, some, String, arith, is_empty,
}
use text.Mathlib.TextEquality.{eq_iff}
use ssa_consulta_rapidacpp.Text.{Text, text_eq, text_lt, starts_with}
use ssa_consulta_rapidacpp.Text.Case.{uppercase}
use ssa_consulta_rapidacpp.Text.Equality.{text_eq_refl, text_lt_irrefl}
use ssa_consulta_rapidacpp.Text.Trim.{trim}
use ssa_consulta_rapidacpp.Assoc.{string_eq, lookup}
use ssa_consulta_rapidacpp.ImportRow.{Values, value_for, is_terminal_status, snapshot_key}
use ssa_consulta_rapidacpp.Merge.{
  MergeContext, clash, merge_action, merge_loop, finish_merge, merge,
}
use ssa_consulta_rapidacpp.Merge.Loop.{some_clash, conflict-merge_loop}
use ssa_consulta_rapidacpp.Merge.Laws.{is_terminal, status, context_of, start}
use ssa_consulta_rapidacpp.Merge.Fields.{empty_not_terminal}
use ssa_consulta_rapidacpp.Merge.Age.{merge_of_dated, dated_fresh, status_plain}

some_clash-lookup :
    (c : MergeContext) (i : Values) (k : String) (v : Text)
    → lookup k i ≡ some v
    → merge_action c k v ≡ clash
    → some_clash c i ≡ true
unfolding some_clash lookup
some_clash-lookup c [] k v h a = cc
some_clash-lookup c ((j, w) ∷ i) k v h a = ground (arith, eq_iff j k, some_clash-lookup c i k v)

terminal_nil : is_terminal_status [] ≡ false
unfolding is_terminal_status uppercase trim text_eq starts_with
terminal_nil = refl

blank_not_terminal : (s : Text) → is_terminal_status s ≡ true → is_empty s ≡ false
blank_not_terminal [] h = cc (terminal_nil)
blank_not_terminal (c ∷ s) h = refl

status_clash :
    (c : MergeContext) (v : Text)
    → c.equal_snapshot ≡ true
    → c.older_terminal_promotion ≡ false
    → c.existing_terminal ≡ true
    → is_empty (value_for c.existing "situacao") ≡ false
    → is_empty (trim v) ≡ false
    → text_eq (trim v) (value_for c.existing "situacao") ≡ false
    → merge_action c "situacao" v ≡ clash
unfolding merge_action
status_clash c v a b t n m d = ground (arith, status_plain)

finish_clash :
    (c : MergeContext) (e i : Values)
    → some_clash c i ≡ true
    → (finish_merge e (merge_loop c i (start e))).conflict ≡ true
unfolding finish_merge
finish_clash c e i h =
    let hit : (merge_loop c i (start e)).conflict ≡ true = conflict-merge_loop c i (start e) ∙ h in
    rw hit refl

-- For two rows of the same snapshot, where the existing one is in a terminal status and the incoming
-- one holds another status that is not blank, the merge is a conflict.
pub merge_terminal_first :
    (e i : Values) (key v : Text)
    → snapshot_key e ≡ some key
    → snapshot_key i ≡ some key
    → is_terminal e ≡ true
    → lookup "situacao" i ≡ some v
    → is_empty (trim v) ≡ false
    → text_eq (trim v) (status e) ≡ false
    → (merge e i).conflict ≡ true
merge_terminal_first e i key v s t term found full other =
    let c = context_of e i key key in
    let lt : text_lt key key ≡ false = text_lt_irrefl key in
    rw (merge_of_dated e i key key (empty_not_terminal e term) s t) (
      rw (dated_fresh e i key key (ground arith)) (
        finish_clash c e i (
          some_clash-lookup c i "situacao" v found (
            status_clash c v (text_eq_refl key) (ground arith) term
              (blank_not_terminal (status e) term) full other))))
