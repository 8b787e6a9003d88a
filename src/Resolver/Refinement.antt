-- ===== src/Resolver/Refinement.antt =====
-- The resolver, with its index, its conflict set and its writes in place, gives each number what the
-- merge of the rows of that number in the order of the files gives.
use ssa_consulta_rapidacpp.Prelude.{
  ℕ, ◌≡◌, ◌⊎◌, refl, sym, ap, ◌∙◌, subst, Bool, true, false, List, [], ◌∷◌, ◌++◌, Option, none,
  some, if◌then◌else◌, is_empty, get_or, All, Bool-cases, inl, inr,
}
use ssa_consulta_rapidacpp.Text.{Text, text_eq}
use ssa_consulta_rapidacpp.Text.Equality.{text_eq_iff}
use ssa_consulta_rapidacpp.Assoc.{text_Eq, lookup}
use ssa_consulta_rapidacpp.ImportRow.{Values}
use ssa_consulta_rapidacpp.Resolver.{
  number_of, contains, SsaImportBatch, ResolverState, count_duplicate, place_row, resolve_row,
  resolve_rows, resolve_batches, initial, resolve_by_ssa_number,
}
use ssa_consulta_rapidacpp.Resolver.Numbered.{numbered, numbered-erase_conflicting}
use ssa_consulta_rapidacpp.Resolver.Number.{IsMapped}
use ssa_consulta_rapidacpp.Resolver.Loop.{Slot, IsConsistent}
use ssa_consulta_rapidacpp.Resolver.Outcome.{
  Outcome, absent, conflicting, merge_step, outcome, of_rows, rows_of, view, Agrees,
  push_row-Agrees, push_numbered-Agrees, place_found-Agrees,
}

module _ (n : Text) (full : is_empty n ≡ false) where
  abbrev next : ResolverState → Values → Outcome
  next s row = if text_eq (number_of row) n then merge_step (view n s) row else view n s

  conflicting-Agrees :
      (s : ResolverState) (row : Values)
      → IsConsistent s
      → contains (number_of row) s.conflicting_numbers ≡ true
      → Agrees n (count_duplicate s) (next s row)
  unfolding count_duplicate
  conflicting-Agrees s row inv hit = (
    inv,
    elim (Bool-cases (text_eq (number_of row) n)) [
      | inl own ↦
          let hit_n : contains n s.conflicting_numbers ≡ true =
            subst (λ k. contains k s.conflicting_numbers ≡ true)
              ((text_eq_iff (number_of row) n).0 own) hit in
          rw (own, hit_n) refl
      | inr other ↦ rw other refl
    ],
  )

  place_row-Agrees :
      (s : ResolverState) (row : Values) (o : Option ℕ)
      → IsConsistent s
      → IsMapped row
      → is_empty (number_of row) ≡ false
      → contains (number_of row) s.conflicting_numbers ≡ false
      → lookup (number_of row) s.index_by_ssa ≡ o
      → Agrees n (place_row (number_of row) o row s) (next s row)
  unfolding place_row
  place_row-Agrees s row none inv mapped given calm new =
      push_numbered-Agrees n full s row inv given calm new
  place_row-Agrees s row (some i) inv mapped given calm found =
      place_found-Agrees n full s row inv i given calm found mapped

  pub resolve_row-Agrees :
      (s : ResolverState) (row : Values)
      → IsConsistent s
      → IsMapped row
      → Agrees n (resolve_row s row) (next s row)
  unfolding resolve_row
  resolve_row-Agrees s row inv mapped = elim (Bool-cases (is_empty (number_of row))) [
    | inl blank ↦ rw blank (push_row-Agrees n full s row inv blank)
    | inr given ↦ elim (Bool-cases (contains (number_of row) s.conflicting_numbers)) [
      | inl hit ↦ rw (given, hit) (conflicting-Agrees s row inv hit)
      | inr calm ↦ rw (given, calm) (place_row-Agrees s row _ inv mapped given calm refl)
    ]
  ]

  resolve_rows-Agrees :
      (s : ResolverState) (rows : List Values)
      → IsConsistent s
      → All IsMapped rows
      → Agrees n (resolve_rows s rows) (outcome n (view n s) rows)
  unfolding resolve_rows outcome
  resolve_rows-Agrees s [] inv mapped = (inv, refl)
  resolve_rows-Agrees s (row ∷ rows) inv mapped =
      let (inv_next, view_next) = resolve_row-Agrees s row inv mapped.0 in
      let (last, same) = resolve_rows-Agrees (resolve_row s row) rows inv_next mapped.1 in
      (last, same ∙ ap (λ o. outcome n o rows) view_next)

-- The rows of all batches, one after the other.
abbrev pub rows_in : List SsaImportBatch → List Values
rows_in [] = []
rows_in (batch ∷ batches) = batch.rows ++ rows_in batches

resolve_rows-append :
    (s : ResolverState) (rows more : List Values)
    → resolve_rows s (rows ++ more) ≡ resolve_rows (resolve_rows s rows) more
unfolding resolve_rows
resolve_rows-append s [] more = refl
resolve_rows-append s (row ∷ rows) more = resolve_rows-append (resolve_row s row) rows more

pub resolve_batches-rows_in :
    (s : ResolverState) (batches : List SsaImportBatch)
    → resolve_batches s batches ≡ resolve_rows s (rows_in batches)
unfolding resolve_batches resolve_rows
resolve_batches-rows_in s [] = refl
resolve_batches-rows_in s (batch ∷ batches) =
    resolve_batches-rows_in (resolve_rows s batch.rows) batches
    ∙ sym (resolve_rows-append s batch.rows (rows_in batches))

abbrev AtMostOne : List Values → Type 0
AtMostOne rows = (rows ≡ []) ⊎ ((row : Values) × (rows ≡ row ∷ []))

Slot-AtMostOne :
    (rows : List Values) (n : Text) (o : Option ℕ) → Slot rows n o → AtMostOne (numbered n rows)
Slot-AtMostOne rows n none h = inl h
Slot-AtMostOne rows n (some i) h = inr (get_or rows i [], h.2)

erased_rows :
    (hit : Bool) (rows : List Values)
    → AtMostOne rows
    → (if hit then [] else rows) ≡ rows_of (if hit then conflicting else of_rows rows)
erased_rows true rows h = refl
erased_rows false rows (inl e) = rw e refl
erased_rows false rows (inr (row, e)) = rw e refl

pub IsConsistent-initial : IsConsistent initial
unfolding lookup numbered
IsConsistent-initial n full = refl

view-initial : (n : Text) → view n initial ≡ absent
unfolding contains numbered
view-initial n = refl

-- For rows as the mapping of a sheet gives them, the resolved rows of a number that is not blank are
-- what merging all rows of that number in the order of the files gives: none where no row has it,
-- the one merged row, and none once a merge conflicts, whatever rows of the number follow.
pub resolve_by_ssa_number-outcome :
    (n : Text) (batches : List SsaImportBatch)
    → is_empty n ≡ false
    → All IsMapped (rows_in batches)
    → numbered n (resolve_by_ssa_number batches).rows ≡ rows_of (outcome n absent (rows_in batches))
unfolding resolve_by_ssa_number
resolve_by_ssa_number-outcome n batches full mapped =
    let s : ResolverState = resolve_rows initial (rows_in batches) in
    let (inv, same) =
      resolve_rows-Agrees n full initial (rows_in batches) IsConsistent-initial mapped in
    rw (resolve_batches-rows_in initial batches) (
      numbered-erase_conflicting n s.conflicting_numbers s.resolved.rows
      ∙ erased_rows (contains n s.conflicting_numbers) (numbered n s.resolved.rows)
          (Slot-AtMostOne s.resolved.rows n (lookup n s.index_by_ssa) (inv n full))
      ∙ ap rows_of (same ∙ ap (λ o. outcome n o (rows_in batches)) (view-initial n)))
