-- ===== src/Resolver/Number.antt =====
-- A merge keeps the number of its rows.
use ssa_consulta_rapidacpp.Prelude.{◌≡◌, refl, ap, ◌∙◌, [], ◌∷◌, Option, none, some, inl, inr}
use ssa_consulta_rapidacpp.Text.{Text}
use ssa_consulta_rapidacpp.Text.Trim.{trim}
use ssa_consulta_rapidacpp.Assoc.{string_eq, text_Eq, lookup, KeysDistinct}
use ssa_consulta_rapidacpp.ImportRow.{Values}
use ssa_consulta_rapidacpp.Merge.{
  MergeAction, skip, clash, assign, merge_action, merge, MergeContext,
}
use ssa_consulta_rapidacpp.Merge.Loop.{after_action, field_after}
use ssa_consulta_rapidacpp.Merge.Laws.{merge-FieldOf, assign-inv, context_of}
use ssa_consulta_rapidacpp.Resolver.{row_value, number_of}

-- What the mapping of a sheet gives: each key once, and a number without blanks around it.
abbrev pub IsMapped : Values → Type 0
IsMapped row = KeysDistinct row × (trim (number_of row) ≡ number_of row)

abbrev text_of : Option Text → Text
text_of none = []
text_of (some v) = v

number_after :
    (c : MergeContext) (n : Text) (found before : Option Text)
    → trim n ≡ n
    → text_of found ≡ n
    → text_of before ≡ n
    → text_of (field_after c "numero_ssa" found before) ≡ n
number_after c n none before t e f = f
number_after c n (some v) before t e f = go (merge_action c "numero_ssa" v) refl
  where
    go : (a : MergeAction) → merge_action c "numero_ssa" v ≡ a → text_of (after_action a before) ≡ n
    go skip h = f
    go clash h = f
    go (assign w) h = (assign-inv c "numero_ssa" v w h).0 ∙ ap trim e ∙ t

-- A merge of two rows of one number is a row of that number.
pub number_of-merge :
    (n : Text) (e i : Values)
    → trim n ≡ n
    → KeysDistinct i
    → number_of e ≡ n
    → number_of i ≡ n
    → number_of (merge e i).values ≡ n
unfolding row_value merge
number_of-merge n [] i t d f g = g
number_of-merge n (x ∷ e) i t d f g = elim (merge-FieldOf (x ∷ e) i "numero_ssa" refl d) [
  | inl kept ↦ ap text_of kept ∙ f
  | inr (old, new, h) ↦
      ap text_of h
      ∙ number_after (context_of (x ∷ e) i old new) n (lookup "numero_ssa" i)
          (lookup "numero_ssa" (x ∷ e)) t g f
]
