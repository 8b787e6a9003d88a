-- ===== src/Resolver/Counts.antt =====
-- The counts of the resolver.
use ssa_consulta_rapidacpp.Prelude.{
  ℕ, suc, ◌≡◌, refl, List, [], ◌∷◌, Option, none, some, arith, is_empty, length, get_or, Bool-cases,
  inl, inr, ◌+◌, length-append,
}
use ssa_consulta_rapidacpp.Text.{Text}
use ssa_consulta_rapidacpp.Assoc.{text_Eq}
use ssa_consulta_rapidacpp.ImportRow.{Values}
use ssa_consulta_rapidacpp.Merge.{MergeResult, merge}
use ssa_consulta_rapidacpp.Resolver.{
  number_of, contains, SsaImportBatch, ResolverState, push_row, count_duplicate, push_numbered,
  mark_conflict, store_merged, place_row, resolve_row, resolve_rows, resolve_batches, initial,
}
use ssa_consulta_rapidacpp.Resolver.Numbered.{length-set_row}
use ssa_consulta_rapidacpp.Resolver.Refinement.{rows_in, resolve_batches-rows_in}

-- One row more is kept or counted as a duplicate; the conflicts are counted one by one.
abbrev rows_seen : ResolverState → ℕ
rows_seen s = length s.resolved.rows + s.resolved.duplicate_rows

abbrev Counted : ResolverState → ℕ → Type 0
Counted s seen = (rows_seen s ≡ seen) × (s.resolved.conflict_rows ≡ length s.conflicting_numbers)

store-Counted :
    (s : ResolverState) (number : Text) (i : ℕ) (m : MergeResult)
    → Counted s (rows_seen s)
    → Counted (store_merged number i m (count_duplicate s)) (suc (rows_seen s))
unfolding store_merged count_duplicate mark_conflict
store-Counted s number i m h = elim (Bool-cases m.conflict) [
  | inl clash ↦ rw clash (omega arith, omega arith)
  | inr quiet ↦ rw quiet (omega (arith, length-set_row i m.values s.resolved.rows), omega arith)
]

place-Counted :
    (s : ResolverState) (number : Text) (o : Option ℕ) (row : Values)
    → Counted s (rows_seen s)
    → Counted (place_row number o row s) (suc (rows_seen s))
unfolding place_row push_numbered push_row
place-Counted s number none row h =
    (omega (arith, length-append s.resolved.rows (row ∷ [])), omega arith)
place-Counted s number (some i) row h =
    store-Counted s number i (merge (get_or s.resolved.rows i []) row) h

resolve_row-Counted :
    (s : ResolverState) (row : Values)
    → Counted s (rows_seen s)
    → Counted (resolve_row s row) (suc (rows_seen s))
unfolding resolve_row push_row count_duplicate
resolve_row-Counted s row h = elim (Bool-cases (is_empty (number_of row))) [
  | inl blank ↦ rw blank (omega (arith, length-append s.resolved.rows (row ∷ [])), omega arith)
  | inr given ↦ elim (Bool-cases (contains (number_of row) s.conflicting_numbers)) [
    | inl hit ↦ rw (given, hit) (omega arith, omega arith)
    | inr calm ↦ rw (given, calm) (place-Counted s (number_of row) _ row h)
  ]
]

resolve_rows-Counted :
    (s : ResolverState) (rows : List Values)
    → s.resolved.conflict_rows ≡ length s.conflicting_numbers
    → Counted (resolve_rows s rows) (rows_seen s + length rows)
unfolding resolve_rows
resolve_rows-Counted s [] h = (omega arith, h)
resolve_rows-Counted s (row ∷ rows) h =
    let (seen, clashes) = resolve_row-Counted s row (refl, h) in
    let (rest, last) = resolve_rows-Counted (resolve_row s row) rows clashes in (omega arith, last)

-- At the end of the loop every row of the batches is a row of the vector or counted as a duplicate,
-- and the conflict count is the number of the entries in the set of the conflicting numbers.
pub resolve_batches-counts :
    (batches : List SsaImportBatch)
    → (length (resolve_batches initial batches).resolved.rows
          + (resolve_batches initial batches).resolved.duplicate_rows
        ≡ length (rows_in batches))
      × ((resolve_batches initial batches).resolved.conflict_rows
          ≡ length (resolve_batches initial batches).conflicting_numbers)
resolve_batches-counts batches =
    let (seen, clashes) = resolve_rows-Counted initial (rows_in batches) refl in
    rw (resolve_batches-rows_in initial batches) (omega arith, clashes)
