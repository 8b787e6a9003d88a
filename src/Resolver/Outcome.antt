-- ===== src/Resolver/Outcome.antt =====
-- What the resolver promises of each number, with no index and no positions: the rows of the number,
-- merged one after the other in the order of the files, until two of them conflict.
use ssa_consulta_rapidacpp.Prelude.{
  ℕ, ◌≡◌, refl, sym, ap, ◌∙◌, subst, true, false, List, [], ◌∷◌, ◌++◌, none, some, arith,
  if◌then◌else◌, is_empty, get_or, Bool-cases, inl, inr,
}
use ssa_consulta_rapidacpp.Text.{Text, text_eq}
use ssa_consulta_rapidacpp.Text.Equality.{text_eq_iff, text_eq_refl}
use ssa_consulta_rapidacpp.Assoc.{text_Eq, lookup}
use ssa_consulta_rapidacpp.ImportRow.{Values}
use ssa_consulta_rapidacpp.Merge.{MergeResult, merge}
use ssa_consulta_rapidacpp.Resolver.{
  number_of, contains, set_row, ResolverState, push_row, count_duplicate, push_numbered,
  mark_conflict, store_merged, place_row,
}
use ssa_consulta_rapidacpp.Resolver.Numbered.{numbered, numbered-set_row_other, numbered-set_row}
use ssa_consulta_rapidacpp.Resolver.Number.{IsMapped, number_of-merge}
use ssa_consulta_rapidacpp.Resolver.Loop.{
  Slot, IsConsistent, IsConsistent-push_row, IsConsistent-push_numbered, IsConsistent-set_row,
  numbered-push_other, numbered-push_own,
}

pub data Outcome : Type 0 where
  absent : Outcome
  kept : Values → Outcome
  conflicting : Outcome

abbrev of_merge : MergeResult → Outcome
of_merge merged = if merged.conflict then conflicting else kept merged.values

abbrev pub merge_step : Outcome → Values → Outcome
merge_step absent row = kept row
merge_step (kept old) row = of_merge (merge old row)
merge_step conflicting row = conflicting

unfoldable pub outcome : Text → Outcome → List Values → Outcome
outcome n o [] = o
outcome n o (row ∷ rows) =
    outcome n (if text_eq (number_of row) n then merge_step o row else o) rows

abbrev pub rows_of : Outcome → List Values
rows_of absent = []
rows_of (kept row) = row ∷ []
rows_of conflicting = []

-- The outcome that a state of the loop stands for.
abbrev pub of_rows : List Values → Outcome
of_rows [] = absent
of_rows (row ∷ rows) = kept row

abbrev pub view : Text → ResolverState → Outcome
view n s =
    if contains n s.conflicting_numbers then conflicting else of_rows (numbered n s.resolved.rows)

abbrev pub Agrees : Text → ResolverState → Outcome → Type 0
Agrees n s o = IsConsistent s × (view n s ≡ o)

module _ (n : Text) (full : is_empty n ≡ false) (s : ResolverState) (row : Values)
    (inv : IsConsistent s) where
  pub push_row-Agrees :
      is_empty (number_of row) ≡ true
      → Agrees n
          (push_row row s)
          (if text_eq (number_of row) n then merge_step (view n s) row else view n s)
  unfolding push_row
  push_row-Agrees blank =
      let other : text_eq (number_of row) n ≡ false =
        ground (arith, text_eq_iff (number_of row) n) in
      (
        IsConsistent-push_row s row blank inv,
        rw (other, numbered-push_other n s.resolved.rows row other) refl,
      )

  pub push_numbered-Agrees :
      is_empty (number_of row) ≡ false
      → contains (number_of row) s.conflicting_numbers ≡ false
      → lookup (number_of row) s.index_by_ssa ≡ none
      → Agrees n
          (push_numbered (number_of row) row s)
          (if text_eq (number_of row) n then merge_step (view n s) row else view n s)
  unfolding push_numbered push_row
  push_numbered-Agrees given calm new =
      let free : numbered (number_of row) s.resolved.rows ≡ [] =
        subst (Slot s.resolved.rows (number_of row)) new (inv (number_of row) given) in
      (
        IsConsistent-push_numbered s row new given inv,
        elim (Bool-cases (text_eq (number_of row) n)) [
          | inl own ↦
              subst
                (λ k.
                  (if contains k s.conflicting_numbers
                    then conflicting
                    else of_rows (numbered k (s.resolved.rows ++ row ∷ [])))
                  ≡ (if text_eq (number_of row) k then merge_step (view k s) row else view k s))
                ((text_eq_iff (number_of row) n).0 own)
                (rw
                  (
                    text_eq_refl (number_of row),
                    calm,
                    free,
                    numbered-push_own s.resolved.rows row free,
                  )
                  refl)
          | inr other ↦ rw (other, numbered-push_other n s.resolved.rows row other) refl
        ],
      )

  module _ (i : ℕ) (given : is_empty (number_of row) ≡ false)
      (calm : contains (number_of row) s.conflicting_numbers ≡ false)
      (found : lookup (number_of row) s.index_by_ssa ≡ some i) (mapped : IsMapped row) where
    abbrev merged_row : MergeResult
    merged_row = merge (get_or s.resolved.rows i []) row

    abbrev Expected : Outcome
    Expected = if text_eq (number_of row) n then merge_step (view n s) row else view n s

    own-Slot : Slot s.resolved.rows (number_of row) (some i)
    own-Slot = subst (Slot s.resolved.rows (number_of row)) found (inv (number_of row) given)

    own_view : view (number_of row) s ≡ kept (get_or s.resolved.rows i [])
    own_view = rw (calm, own-Slot.2) refl

    merged_number : number_of merged_row.values ≡ number_of row
    merged_number =
        number_of-merge (number_of row) (get_or s.resolved.rows i []) row mapped.1 mapped.0
          own-Slot.1 refl

    expected_own : text_eq (number_of row) n ≡ true → Expected ≡ of_merge merged_row
    expected_own own =
        subst
          (λ k.
            (if text_eq (number_of row) k then merge_step (view k s) row else view k s)
            ≡ of_merge merged_row)
          ((text_eq_iff (number_of row) n).0 own) (rw (text_eq_refl (number_of row), own_view) refl)

    mark_conflict-Agrees :
        merged_row.conflict ≡ true
        → Agrees n (mark_conflict (number_of row) (count_duplicate s)) Expected
    unfolding mark_conflict count_duplicate contains
    mark_conflict-Agrees clash = (
      inv,
      elim (Bool-cases (text_eq (number_of row) n)) [
        | inl own ↦
            let after : view n (mark_conflict (number_of row) (count_duplicate s)) ≡ conflicting =
              rw own refl in
            let merged : of_merge merged_row ≡ conflicting = rw clash refl in
            after ∙ sym (expected_own own ∙ merged)
        | inr other ↦ rw other refl
      ],
    )

    abbrev stored : ResolverState
    stored = record s {
      resolved = record s.resolved { rows = set_row i merged_row.values s.resolved.rows };
    }

    set_row-Agrees : merged_row.conflict ≡ false → Agrees n stored Expected
    set_row-Agrees quiet = (
      IsConsistent-set_row s (number_of row) i merged_row.values found given merged_number inv,
      elim (Bool-cases (text_eq (number_of row) n)) [
        | inl own ↦
            let e : number_of row ≡ n = (text_eq_iff (number_of row) n).0 own in
            let calm_n : contains n s.conflicting_numbers ≡ false =
              subst (λ k. contains k s.conflicting_numbers ≡ false) e calm in
            let only : numbered n stored.resolved.rows ≡ merged_row.values ∷ [] =
              subst (λ k. numbered k stored.resolved.rows ≡ merged_row.values ∷ []) e
                (numbered-set_row (number_of row) i merged_row.values (get_or s.resolved.rows i [])
                  s.resolved.rows own-Slot.0 own-Slot.1 merged_number own-Slot.2) in
            let after : view n stored ≡ kept merged_row.values = rw (calm_n, only) refl in
            let merged : of_merge merged_row ≡ kept merged_row.values = rw quiet refl in
            after ∙ sym (expected_own own ∙ merged)
        | inr other ↦
            rw
              (
                numbered-set_row_other n i merged_row.values s.resolved.rows
                    (own-Slot.1 ∙ sym merged_number) (ap (λ k. text_eq k n) merged_number ∙ other),
                other,
              )
              refl
      ],
    )

    pub place_found-Agrees : Agrees n (place_row (number_of row) (some i) row s) Expected
    unfolding place_row store_merged count_duplicate
    place_found-Agrees = elim (Bool-cases merged_row.conflict) [
      | inl clash ↦ rw clash (mark_conflict-Agrees clash)
      | inr quiet ↦ rw quiet (set_row-Agrees quiet)
    ]
