-- ===== src/Merge/Age.antt =====
-- Newer and older incoming rows.
use ssa_consulta_rapidacpp.Prelude.{
  ◌≡◌, refl, ◌∙◌, Bool, true, false, not, ◌&&◌, [], ◌∷◌, Option, none, some, String, arith,
  if◌then◌else◌, is_empty, Bool-cases, inl, inr,
}
use text.Mathlib.Text.{◌==◌ as str_eq}
use text.Mathlib.TextEquality.{eq_iff}
use ssa_consulta_rapidacpp.Text.{Text, text_eq, text_lt}
use ssa_consulta_rapidacpp.Text.Equality.{text_eq_iff, text_lt_irrefl, text_lt_trans}
use ssa_consulta_rapidacpp.Text.Trim.{trim}
use ssa_consulta_rapidacpp.Assoc.{string_eq, lookup, KeysDistinct}
use ssa_consulta_rapidacpp.ImportRow.{Values, is_metadata_field, snapshot_key, one_of}
use ssa_consulta_rapidacpp.Merge.{
  MergeContext, skip, clash, assign, merge_action, merge_loop, finish_merge, merge_dated,
  merge_keyed, merge,
}
use ssa_consulta_rapidacpp.Merge.Loop.{
  field_after, lookup-merge_loop, some_clash, conflict-merge_loop,
}
use ssa_consulta_rapidacpp.Merge.Laws.{is_terminal, context_of, start}

-- With snapshots that differ no entry clashes.
never_clash :
    (c : MergeContext) (k : String) (v : Text)
    → c.equal_snapshot ≡ false
    → merge_action c k v ≡ clash
    → ⊥
unfolding merge_action
never_clash c k v h e = ground arith

no_clash : (c : MergeContext) (i : Values) → c.equal_snapshot ≡ false → some_clash c i ≡ false
unfolding some_clash
no_clash c [] h = refl
no_clash c ((k, v) ∷ i) h = ground (arith, never_clash c k v, no_clash c i h)

text_lt→ne : (s t : Text) → text_lt s t ≡ true → text_eq s t ≡ false
text_lt→ne s t h = ground (arith, text_eq_iff s t, text_lt_irrefl t)

text_lt→not_gt : (s t : Text) → text_lt s t ≡ true → text_lt t s ≡ false
text_lt→not_gt s t h = ground (arith, text_lt_trans s t s, text_lt_irrefl s)

-- The result of a merge that runs its loop with snapshots that differ.
finish_unequal :
    (c : MergeContext) (e i : Values) (k : String)
    → c.equal_snapshot ≡ false
    → KeysDistinct i
    → ((finish_merge e (merge_loop c i (start e))).conflict ≡ false)
      × (lookup k (finish_merge e (merge_loop c i (start e))).values
          ≡ field_after c k (lookup k i) (lookup k e))
unfolding finish_merge
finish_unequal c e i k h d =
    let calm : (merge_loop c i (start e)).conflict ≡ false =
      conflict-merge_loop c i (start e) ∙ no_clash c i h in
    rw calm (refl, lookup-merge_loop c i (start e) k d)

newer_action :
    (c : MergeContext) (k : String) (v : Text)
    → c.equal_snapshot ≡ false
    → c.older_terminal_promotion ≡ false
    → c.existing_terminal ≡ false
    → merge_action c k v ≡ (if is_empty (trim v) then skip else assign (trim v))
unfolding merge_action
newer_action c k v a b t = ground arith

-- A field of a newer row: its own where it is not blank.
abbrev pub newest : Option Text → Option Text → Option Text
newest none before = before
newest (some v) before = if is_empty (trim v) then before else some (trim v)

newer_field :
    (c : MergeContext) (k : String) (found before : Option Text)
    → c.equal_snapshot ≡ false
    → c.older_terminal_promotion ≡ false
    → c.existing_terminal ≡ false
    → field_after c k found before ≡ newest found before
newer_field c k none before a b t = refl
newer_field c k (some v) before a b t = rw (newer_action c k v a b t) (ground arith)

pub merge_of_dated :
    (e i : Values) (old new : Text)
    → is_empty e ≡ false
    → snapshot_key e ≡ some old
    → snapshot_key i ≡ some new
    → merge e i ≡ merge_dated e i old new
unfolding merge merge_keyed
merge_of_dated e i old new full s t = rw (full, s, t) refl

abbrev pub is_stale : Values → Values → Text → Text → Bool
is_stale e i old new = text_lt new old && not (is_terminal i && not (is_terminal e))

pub dated_fresh :
    (e i : Values) (old new : Text)
    → is_stale e i old new ≡ false
    → merge_dated e i old new ≡ finish_merge e (merge_loop (context_of e i old new) i (start e))
unfolding merge_dated
dated_fresh e i old new h = rw h refl

pub dated_stale :
    (e i : Values) (old new : Text)
    → is_stale e i old new ≡ true
    → merge_dated e i old new ≡ record { values = e; changed = false; conflict = false }
unfolding merge_dated
dated_stale e i old new h = rw h refl

-- An incoming row with a later snapshot never conflicts with a row that is not terminal, and every
-- field of the result is the incoming one, trimmed, where that is not blank, and the existing one
-- elsewhere.
pub merge_newer :
    (e i : Values) (old new : Text) (k : String)
    → is_empty e ≡ false
    → KeysDistinct i
    → snapshot_key e ≡ some old
    → snapshot_key i ≡ some new
    → text_lt old new ≡ true
    → is_terminal e ≡ false
    → ((merge e i).conflict ≡ false)
      × (lookup k (merge e i).values ≡ newest (lookup k i) (lookup k e))
merge_newer e i old new k full d s t lt live =
    let c = context_of e i old new in
    let gt : text_lt new old ≡ false = text_lt→not_gt old new lt in
    let ne : text_eq new old ≡ false = ground (arith, text_eq_iff new old, text_lt_irrefl new) in
    let (calm, field) = finish_unequal c e i k ne d in
    rw (merge_of_dated e i old new full s t) (
      rw (dated_fresh e i old new (ground arith))
        (calm, field ∙ newer_field c k (lookup k i) (lookup k e) ne (ground arith) live))

pub status_plain : is_metadata_field "situacao" ≡ false
unfolding is_metadata_field one_of
status_plain = refl

older_action :
    (c : MergeContext) (k : String) (v : Text)
    → c.equal_snapshot ≡ false
    → c.older_terminal_promotion ≡ true
    → c.existing_terminal ≡ false
    → merge_action c k v
      ≡ (if str_eq k "situacao" && not (is_empty (trim v)) then assign (trim v) else skip)
unfolding merge_action
older_action c k v a b t = ground (arith, status_plain, eq_iff k "situacao")

older_field :
    (c : MergeContext) (k : String) (found before : Option Text)
    → c.equal_snapshot ≡ false
    → c.older_terminal_promotion ≡ true
    → c.existing_terminal ≡ false
    → field_after c k found before ≡ (if str_eq k "situacao" then newest found before else before)
older_field c k none before a b t = ground arith
older_field c k (some v) before a b t = rw (older_action c k v a b t) (ground arith)

-- An incoming row with an earlier snapshot never conflicts and changes no field but the status, and
-- the status only where the incoming one is terminal and the existing one is not.
pub merge_older :
    (e i : Values) (old new : Text) (k : String)
    → is_empty e ≡ false
    → KeysDistinct i
    → snapshot_key e ≡ some old
    → snapshot_key i ≡ some new
    → text_lt new old ≡ true
    → ((merge e i).conflict ≡ false)
      × (lookup k (merge e i).values ≡ (
          if (is_terminal i && not (is_terminal e)) && str_eq k "situacao"
          then newest (lookup k i) (lookup k e)
          else lookup k e))
merge_older e i old new k full d s t lt =
    let c = context_of e i old new in
    let ne : text_eq new old ≡ false = text_lt→ne new old lt in
    let (calm, field) = finish_unequal c e i k ne d in
    rw (merge_of_dated e i old new full s t)
      (elim (Bool-cases (is_terminal i && not (is_terminal e))) [
        | inl promotes ↦ rw (dated_fresh e i old new (ground arith)) (
          calm,
          field
              ∙ (older_field c k (lookup k i) (lookup k e) ne (ground arith) (ground arith)
                  ∙ rw promotes refl),
        )
        | inr stays ↦ rw (dated_stale e i old new (ground arith)) (refl, rw stays refl)
      ])
