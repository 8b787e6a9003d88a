-- ===== src/Merge/Fields.antt =====
-- Which fields of a row a merge keeps, and where the fields of the result come from.
use ssa_consulta_rapidacpp.Prelude.{
  ◌≡◌, refl, sym, ap, ◌∙◌, subst, ◌⊎◌, true, false, [], ◌∷◌, Option, none, some, String, is_empty,
  Bool-cases, Option-cases, inl, inr,
}
use ssa_consulta_rapidacpp.Text.{Text, text_eq, starts_with}
use ssa_consulta_rapidacpp.Text.Case.{uppercase}
use ssa_consulta_rapidacpp.Text.Trim.{trim, trim_idem}
use ssa_consulta_rapidacpp.Assoc.{string_eq, lookup, KeysDistinct}
use ssa_consulta_rapidacpp.ImportRow.{
  Values, value_for, is_terminal_status, is_metadata_field, is_indicator_field,
}
use ssa_consulta_rapidacpp.Merge.{
  MergeContext, MergeAction, skip, clash, assign, merge_action, merge,
}
use ssa_consulta_rapidacpp.Merge.Loop.{after_action, field_after}
use ssa_consulta_rapidacpp.Merge.Laws.{
  is_terminal, context_of, merge-FieldOf, assign-inv, frozen_action,
}

-- The text of a field, as valueFor reads it.
abbrev text_of : Option Text → Text
text_of none = []
text_of (some v) = trim v

text_of-value_for : (values : Values) (k : String) → value_for values k ≡ text_of (lookup k values)
unfolding value_for
text_of-value_for values k = elim (Option-cases (lookup k values)) [
  | inl e ↦ rw e
  | inr (v, e) ↦ rw e
]

frozen_field :
    (c : MergeContext) (k : String) (found before : Option Text)
    → c.existing_terminal ≡ true
    → is_metadata_field k ≡ false
    → is_indicator_field k ≡ false
    → field_after c k found before ≡ before
frozen_field c k none before t m n = refl
frozen_field c k (some value) before t m n =
    let never : (v : Text) → merge_action c k value ≡ assign v → ⊥ =
      λ v. frozen_action c k value v t m n in
    go (merge_action c k value) never
  where
    go : (a : MergeAction) → ((v : Text) → a ≡ assign v → ⊥) → after_action a before ≡ before
    go skip h = refl
    go clash h = refl
    go (assign v) h = absurd (h v refl)

pub not_terminal_nil : is_terminal [] ≡ false
unfolding is_terminal_status value_for lookup uppercase trim text_eq starts_with
not_terminal_nil = refl

pub empty_not_terminal : (e : Values) → is_terminal e ≡ true → is_empty e ≡ false
empty_not_terminal [] h = cc (not_terminal_nil)
empty_not_terminal (x ∷ e) h = refl

-- Once a row is in a terminal status, no merge changes a field that is neither an indicator nor
-- metadata, whatever the incoming row holds and however new it is.
pub merge_terminal_frozen :
    (e i : Values) (k : String)
    → KeysDistinct i
    → is_terminal e ≡ true
    → is_metadata_field k ≡ false
    → is_indicator_field k ≡ false
    → lookup k (merge e i).values ≡ lookup k e
merge_terminal_frozen e i k d t m n = elim (merge-FieldOf e i k (empty_not_terminal e t) d) [
  | inl kept ↦ kept
  | inr (old, new, f) ↦ f ∙ frozen_field (context_of e i old new) k (lookup k i) (lookup k e) t m n
]

-- The field after the loop, by the trimmed texts.
text_of-field_after :
    (c : MergeContext) (k : String) (found before : Option Text)
    → (text_of (field_after c k found before) ≡ text_of before)
      ⊎ ((text_of (field_after c k found before) ≡ text_of found)
          × (is_empty (text_of found) ≡ false))
text_of-field_after c k none before = inl refl
text_of-field_after c k (some value) before = go (merge_action c k value) (assign-inv c k value)
  where
    go :
        (a : MergeAction)
        → ((v : Text) → a ≡ assign v → (v ≡ trim value) × (is_empty (trim value) ≡ false))
        → (text_of (after_action a before) ≡ text_of before)
          ⊎ ((text_of (after_action a before) ≡ trim value) × (is_empty (trim value) ≡ false))
    go skip h = inl refl
    go clash h = inl refl
    go (assign v) h = let (e, full) = h v refl in inr (rw e (trim_idem value), full)

value_for-merge_full :
    (e i : Values) (k : String)
    → is_empty e ≡ false
    → KeysDistinct i
    → (value_for (merge e i).values k ≡ value_for e k)
      ⊎ ((value_for (merge e i).values k ≡ value_for i k) × (is_empty (value_for i k) ≡ false))
value_for-merge_full e i k h d =
    rw (text_of-value_for e k, text_of-value_for i k, text_of-value_for (merge e i).values k)
      (elim (merge-FieldOf e i k h d) [
        | inl kept ↦ inl (ap text_of kept)
        | inr (old, new, f) ↦
            subst
              (λ o.
                (text_of o ≡ text_of (lookup k e))
                ⊎ ((text_of o ≡ text_of (lookup k i)) × (is_empty (text_of (lookup k i)) ≡ false)))
              (sym f) (text_of-field_after (context_of e i old new) k (lookup k i) (lookup k e))
      ])

is_empty→nil : (s : Text) → is_empty s ≡ true → s ≡ []
is_empty→nil [] h = refl
is_empty→nil (c ∷ s) h = cc

value_for-nil : (k : String) → value_for [] k ≡ []
unfolding value_for lookup
value_for-nil k = refl

merge_into_nil : (i : Values) → (merge [] i).values ≡ i
unfolding merge
merge_into_nil i = refl

-- Each field of a merged row reads as the field of the existing row, or as the field of the incoming
-- row where that is not blank: a merge makes up no value and blanks no field.
pub value_for-merge :
    (e i : Values) (k : String)
    → KeysDistinct i
    → (value_for (merge e i).values k ≡ value_for e k)
      ⊎ ((value_for (merge e i).values k ≡ value_for i k) × (is_empty (value_for i k) ≡ false))
value_for-merge [] i k d =
    rw (merge_into_nil i, value_for-nil k)
      (elim (Bool-cases (is_empty (value_for i k))) [
        | inl blank ↦ inl (is_empty→nil (value_for i k) blank)
        | inr full ↦ inr (refl, full)
      ])
value_for-merge (x ∷ e) i k d = value_for-merge_full (x ∷ e) i k refl d
