-- ===== src/Merge/Repeat.antt =====
-- Merging a row with itself, and what the flag `changed` says.
use ssa_consulta_rapidacpp.Prelude.{
  ◌≡◌, refl, sym, ◌∙◌, Bool, true, false, [], ◌∷◌, Option, none, some, String, arith, Bool-cases,
  Option-cases, inl, inr,
}
use text.Mathlib.TextEquality.{eq_iff}
use ssa_consulta_rapidacpp.Text.{Text}
use ssa_consulta_rapidacpp.Text.Equality.{text_eq_iff, text_eq_refl, text_lt_irrefl}
use ssa_consulta_rapidacpp.Text.Trim.{trim}
use ssa_consulta_rapidacpp.Assoc.{string_eq, lookup, has_key, KeysDistinct}
use ssa_consulta_rapidacpp.ImportRow.{Values, value_for, is_transient_field, snapshot_key}
use ssa_consulta_rapidacpp.Merge.{
  MergeResult, MergeContext, MergeState, skip, merge_action, apply_action, merge_loop, finish_merge,
  merge_dated, merge_keyed, merge, lacks_entry, differs_in_persisted_values, all_found, same_values,
}
use ssa_consulta_rapidacpp.Merge.Laws.{context_of, start}
use ssa_consulta_rapidacpp.Merge.Age.{dated_fresh, dated_stale, is_stale}

-- Every entry of the list is found in the map.
abbrev EntriesOf : Values → Values → Type 0
EntriesOf e [] = Unit
EntriesOf e ((k, v) ∷ i) = (lookup k e ≡ some v) × EntriesOf e i

EntriesOf-cons :
    (k : String) (v : Text) (m i : Values)
    → has_key k i ≡ false
    → EntriesOf m i
    → EntriesOf ((k, v) ∷ m) i
unfolding has_key lookup
EntriesOf-cons k v m [] h a = tt
EntriesOf-cons k v m ((j, w) ∷ i) h a =
    (ground (arith, eq_iff k j, eq_iff j k), EntriesOf-cons k v m i (ground arith) a.1)

EntriesOf-self : (e : Values) → KeysDistinct e → EntriesOf e e
unfolding lookup
EntriesOf-self [] d = tt
EntriesOf-self ((k, v) ∷ m) d =
    (ground (arith, eq_iff k k), EntriesOf-cons k v m m d.0 (EntriesOf-self m d.1))

value_for-entry :
    (e : Values) (k : String) (v : Text) → lookup k e ≡ some v → value_for e k ≡ trim v
unfolding value_for
value_for-entry e k v h = rw h refl

same_action :
    (c : MergeContext) (k : String) (v : Text)
    → c.equal_snapshot ≡ true
    → c.older_terminal_promotion ≡ false
    → value_for c.existing k ≡ trim v
    → merge_action c k v ≡ skip
unfolding merge_action
same_action c k v a b e = ground (arith, text_eq_refl (trim v), text_lt_irrefl (trim v))

same_loop :
    (c : MergeContext) (i : Values) (s : MergeState)
    → c.equal_snapshot ≡ true
    → c.older_terminal_promotion ≡ false
    → EntriesOf c.existing i
    → merge_loop c i s ≡ s
unfolding merge_loop apply_action
same_loop c [] s a b h = refl
same_loop c ((k, v) ∷ i) s a b h =
    rw (same_action c k v a b (value_for-entry c.existing k v h.0)) (same_loop c i s a b h.1)

lacks_entry-same : (e i : Values) → EntriesOf e i → lacks_entry e i ≡ false
unfolding lacks_entry
lacks_entry-same e [] h = refl
lacks_entry-same e ((k, v) ∷ i) h =
    ground (arith, value_for-entry e k v, text_eq_refl (trim v), lacks_entry-same e i h.1)

all_found-same : (e i : Values) → EntriesOf e i → all_found e i ≡ true
unfolding all_found
all_found-same e [] h = refl
all_found-same e ((k, v) ∷ i) h = rw (h.0, text_eq_refl v) (all_found-same e i h.1)

same_values-same : (e : Values) → EntriesOf e e → same_values e e ≡ true
unfolding same_values
same_values-same e h = ground (arith, all_found-same e e h)

abbrev unchanged : Values → MergeResult
unchanged e = record { values = e; changed = false; conflict = false }

differs-same : (e : Values) → EntriesOf e e → differs_in_persisted_values e e ≡ false
unfolding differs_in_persisted_values
differs-same e h = ground (arith, lacks_entry-same e e h)

finish-same : (e : Values) → EntriesOf e e → finish_merge e (start e) ≡ unchanged e
unfolding finish_merge
finish-same e h = rw (differs-same e h) refl

keyed-same :
    (e : Values) (key : Option Text) → EntriesOf e e → merge_keyed e e key key ≡ unchanged e
unfolding merge_keyed
keyed-same e none h = rw (same_values-same e h) refl
keyed-same e (some key) h =
    dated_fresh e e key key (ground (arith, text_lt_irrefl key))
    ∙ (rw (same_loop (context_of e e key key) e (start e) (text_eq_refl key) (ground arith) h)
        (finish-same e h))

-- Merging a row with itself gives the same row, with no change and no conflict, with and without a
-- snapshot and in every status.
pub merge_self :
    (e : Values)
    → KeysDistinct e
    → merge e e ≡ record { values = e; changed = false; conflict = false }
unfolding merge
merge_self [] d = refl
merge_self (x ∷ e) d = keyed-same (x ∷ e) (snapshot_key (x ∷ e)) (EntriesOf-self (x ∷ e) d)

lacks_entry-lookup :
    (right left : Values) (k : String) (v : Text)
    → lacks_entry right left ≡ false
    → is_transient_field k ≡ false
    → lookup k left ≡ some v
    → value_for right k ≡ trim v
unfolding lacks_entry lookup
lacks_entry-lookup right [] k v h t f = cc
lacks_entry-lookup right ((j, w) ∷ left) k v h t f =
    ground (
      arith,
      eq_iff j k,
      text_eq_iff (value_for right j) (trim w),
      lacks_entry-lookup right left k v,
    )

value_for-missing : (e : Values) (k : String) → lookup k e ≡ none → value_for e k ≡ []
unfolding value_for
value_for-missing e k h = rw h refl

differs_sound :
    (left right : Values) (k : String)
    → differs_in_persisted_values left right ≡ false
    → is_transient_field k ≡ false
    → value_for left k ≡ value_for right k
unfolding differs_in_persisted_values
differs_sound left right k h t = elim (Option-cases (lookup k left)) [
  | inr (v, e) ↦
      value_for-entry left k v e ∙ sym (lacks_entry-lookup right left k v (ground arith) t e)
  | inl e ↦ elim (Option-cases (lookup k right)) [
    | inr (w, f) ↦
        lacks_entry-lookup left right k w (ground arith) t f ∙ sym (value_for-entry right k w f)
    | inl f ↦ value_for-missing left k e ∙ sym (value_for-missing right k f)
  ]
]

abbrev KeepsPersisted : Values → MergeResult → Type 0
KeepsPersisted e r =
    (r.conflict ≡ true → (r.values ≡ e) × (r.changed ≡ false))
    × (r.changed ≡ false
        → (k : String) → is_transient_field k ≡ false
        → value_for r.values k ≡ value_for e k)

finish-KeepsPersisted : (e : Values) (s : MergeState) → KeepsPersisted e (finish_merge e s)
unfolding finish_merge
finish-KeepsPersisted e s = elim (Bool-cases s.conflict) [
  | inl yes' ↦ rw yes' (λ _. (refl, refl), λ _ k t. refl)
  | inr no' ↦ rw no' (λ h. cc, λ h k t. differs_sound s.merged e k h t)
]

unchanged-KeepsPersisted :
    (e : Values) (b : Bool)
    → KeepsPersisted e (record { values = e; changed = false; conflict = b })
unchanged-KeepsPersisted e b = (λ _. (refl, refl), λ _ k t. refl)

dated-KeepsPersisted : (e i : Values) (old new : Text) → KeepsPersisted e (merge_dated e i old new)
dated-KeepsPersisted e i old new = elim (Bool-cases (is_stale e i old new)) [
  | inl stale ↦ rw (dated_stale e i old new stale) (unchanged-KeepsPersisted e false)
  | inr fresh ↦
      rw (dated_fresh e i old new fresh)
        (finish-KeepsPersisted e (merge_loop (context_of e i old new) i (start e)))
]

keyed-KeepsPersisted :
    (e i : Values) (old new : Option Text) → KeepsPersisted e (merge_keyed e i old new)
unfolding merge_keyed
keyed-KeepsPersisted e i none new = unchanged-KeepsPersisted e _
keyed-KeepsPersisted e i (some old) none = unchanged-KeepsPersisted e _
keyed-KeepsPersisted e i (some old) (some new) = dated-KeepsPersisted e i old new

merge-KeepsPersisted : (e i : Values) → KeepsPersisted e (merge e i)
unfolding merge
merge-KeepsPersisted [] [] = (λ h. cc, λ h k t. refl)
merge-KeepsPersisted [] (x ∷ i) = (λ h. cc, λ h. cc)
merge-KeepsPersisted (x ∷ e) i =
    keyed-KeepsPersisted (x ∷ e) i (snapshot_key (x ∷ e)) (snapshot_key i)

-- A merge that reports a conflict returns the existing row and reports no change.
pub merge_conflict_keeps :
    (e i : Values)
    → (merge e i).conflict ≡ true
    → ((merge e i).values ≡ e) × ((merge e i).changed ≡ false)
merge_conflict_keeps e i h = (merge-KeepsPersisted e i).0 h

-- A merge that reports no change leaves every field but the file's creation date reading as in the
-- existing row, on every branch: nothing that is stored goes unreported.
pub merge_unchanged_keeps :
    (e i : Values) (k : String)
    → (merge e i).changed ≡ false
    → is_transient_field k ≡ false
    → value_for (merge e i).values k ≡ value_for e k
merge_unchanged_keeps e i k h t = (merge-KeepsPersisted e i).1 h k t
