-- ===== src/Resolver/Unkeyed.antt =====
-- The rows that have no number.
use ssa_consulta_rapidacpp.Prelude.{
  ℕ, ◌≡◌, refl, sym, ap, ◌∙◌, false, List, [], ◌∷◌, ◌++◌, Option, none, some, arith, is_empty,
  get_or, All, Bool-cases, inl, inr, append-nil, append_assoc,
}
use ssa_consulta_rapidacpp.Text.{text_eq}
use ssa_consulta_rapidacpp.Text.Equality.{text_eq_iff}
use ssa_consulta_rapidacpp.Assoc.{text_Eq}
use ssa_consulta_rapidacpp.ImportRow.{Values}
use ssa_consulta_rapidacpp.Merge.{MergeResult, merge}
use ssa_consulta_rapidacpp.Resolver.{
  number_of, contains, SsaImportBatch, ResolverState, push_row, count_duplicate, push_numbered,
  mark_conflict, store_merged, place_row, resolve_row, resolve_rows, initial, resolve_by_ssa_number,
}
use ssa_consulta_rapidacpp.Resolver.Numbered.{
  numbered, numbered-append, numbered-set_row_other, numbered-erase_conflicting,
}
use ssa_consulta_rapidacpp.Resolver.Number.{IsMapped, number_of-merge}
use ssa_consulta_rapidacpp.Resolver.Loop.{Slot, IsConsistent}
use ssa_consulta_rapidacpp.Resolver.Refinement.{
  rows_in, resolve_batches-rows_in, resolve_row-Agrees, IsConsistent-initial,
}

abbrev unkeyed : List Values → List Values
unkeyed rows = numbered [] rows

-- The rows without a number after a step, and no blank among the conflicting numbers.
abbrev Grows : ResolverState → Values → ResolverState → Type 0
Grows s row t =
    (unkeyed t.resolved.rows ≡ unkeyed s.resolved.rows ++ unkeyed (row ∷ []))
    × (contains [] t.conflicting_numbers ≡ contains [] s.conflicting_numbers)

unkeyed-given : (row : Values) → is_empty (number_of row) ≡ false → unkeyed (row ∷ []) ≡ []
unfolding numbered
unkeyed-given row given = ground (arith, text_eq_iff (number_of row) [])

unkeyed_same :
    (rows : List Values) (row : Values)
    → is_empty (number_of row) ≡ false
    → unkeyed rows ≡ unkeyed rows ++ unkeyed (row ∷ [])
unkeyed_same rows row given =
    sym (ap (λ t. unkeyed rows ++ t) (unkeyed-given row given) ∙ append-nil (unkeyed rows))

module _ (s : ResolverState) (row : Values) where
  push-Grows : Grows s row (push_row row s)
  unfolding push_row
  push-Grows = (numbered-append [] s.resolved.rows (row ∷ []), refl)

  push_numbered-Grows : Grows s row (push_numbered (number_of row) row s)
  unfolding push_numbered push_row
  push_numbered-Grows = (numbered-append [] s.resolved.rows (row ∷ []), refl)

  module _ (given : is_empty (number_of row) ≡ false) (mapped : IsMapped row) where
    duplicate-Grows : Grows s row (count_duplicate s)
    unfolding count_duplicate
    duplicate-Grows = (unkeyed_same s.resolved.rows row given, refl)

    store-Grows :
        (i : ℕ) (m : MergeResult)
        → number_of (get_or s.resolved.rows i []) ≡ number_of m.values
        → number_of m.values ≡ number_of row
        → Grows s row (store_merged (number_of row) i m (count_duplicate s))
    unfolding store_merged count_duplicate mark_conflict contains
    store-Grows i m e f =
        let other : text_eq (number_of m.values) [] ≡ false =
          ground (arith, text_eq_iff (number_of m.values) []) in
        let fresh : text_eq (number_of row) [] ≡ false =
          ground (arith, text_eq_iff (number_of row) []) in
        elim (Bool-cases m.conflict) [
          | inl clash ↦ rw (clash, fresh) (unkeyed_same s.resolved.rows row given, refl)
          | inr quiet ↦ rw quiet (
            numbered-set_row_other [] i m.values s.resolved.rows e other
                ∙ unkeyed_same s.resolved.rows row given,
            refl,
          )
        ]

    place-Grows :
        (o : Option ℕ)
        → Slot s.resolved.rows (number_of row) o
        → Grows s row (place_row (number_of row) o row s)
    unfolding place_row
    place-Grows none h = push_numbered-Grows
    place-Grows (some i) h =
        let f =
          number_of-merge (number_of row) (get_or s.resolved.rows i []) row mapped.1 mapped.0 h.1
            refl in
        store-Grows i (merge (get_or s.resolved.rows i []) row) (h.1 ∙ sym f) f

  resolve_row-Grows : IsConsistent s → IsMapped row → Grows s row (resolve_row s row)
  unfolding resolve_row
  resolve_row-Grows inv mapped = elim (Bool-cases (is_empty (number_of row))) [
    | inl blank ↦ rw blank push-Grows
    | inr given ↦ elim (Bool-cases (contains (number_of row) s.conflicting_numbers)) [
      | inl hit ↦ rw (given, hit) (duplicate-Grows given mapped)
      | inr calm ↦ rw (given, calm) (place-Grows given mapped _ (inv (number_of row) given))
    ]
  ]

resolve_rows-unkeyed :
    (s : ResolverState) (rows : List Values)
    → IsConsistent s
    → All IsMapped rows
    → (unkeyed (resolve_rows s rows).resolved.rows ≡ unkeyed s.resolved.rows ++ unkeyed rows)
      × (contains [] (resolve_rows s rows).conflicting_numbers ≡ contains [] s.conflicting_numbers)
unfolding resolve_rows numbered
resolve_rows-unkeyed s [] inv mapped = (sym (append-nil (unkeyed s.resolved.rows)), refl)
resolve_rows-unkeyed s (row ∷ rows) inv mapped =
    let (grow, calm) = resolve_row-Grows s row inv mapped.0 in
    let (rest, calm_rest) =
      resolve_rows-unkeyed (resolve_row s row) rows
        (resolve_row-Agrees (b'0' ∷ []) refl s row inv mapped.0).0 mapped.1 in
    (
      rest
          ∙ ap (λ t. t ++ unkeyed rows) grow
          ∙ append_assoc (unkeyed s.resolved.rows) (unkeyed (row ∷ [])) (unkeyed rows)
          ∙ ap (λ t. unkeyed s.resolved.rows ++ t) (sym (numbered-append [] (row ∷ []) rows)),
      calm_rest ∙ calm,
    )

-- For rows as the mapping of a sheet gives them, the rows without a number are all kept, unchanged and
-- in their order.
pub resolve_by_ssa_number-unkeyed :
    (batches : List SsaImportBatch)
    → All IsMapped (rows_in batches)
    → numbered [] (resolve_by_ssa_number batches).rows ≡ numbered [] (rows_in batches)
unfolding resolve_by_ssa_number contains numbered
resolve_by_ssa_number-unkeyed batches mapped =
    let s : ResolverState = resolve_rows initial (rows_in batches) in
    let (rows, calm) = resolve_rows-unkeyed initial (rows_in batches) IsConsistent-initial mapped in
    rw (resolve_batches-rows_in initial batches)
      (numbered-erase_conflicting [] s.conflicting_numbers s.resolved.rows ∙ rw calm rows)
