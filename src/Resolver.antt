-- ===== src/Resolver.antt =====
-- The rows of all imported files, merged by number: src/infra/import/SsaImportConflictResolver.cpp
-- and rowValue of src/infra/SsaImportData.h. The loop over the batches and their rows is a fold of
-- steps on a state: the vector of rows, the index of each number in it, the set of the numbers that
-- conflict, and the two counts.
pub mod Numbered
pub mod Number
pub mod Loop
pub mod Outcome
pub mod Refinement
pub mod Unkeyed
pub mod Counts
mod Samples
use ssa_consulta_rapidacpp.Prelude.{
  ℕ, zero, suc, Bool, true, false, ◌||◌, List, [], ◌∷◌, ◌++◌, Option, none, some, String,
  if◌then◌else◌, is_empty, length, get_or,
}
use ssa_consulta_rapidacpp.Text.{Text, text_eq}
use ssa_consulta_rapidacpp.Assoc.{Assoc, string_eq, text_Eq, lookup, insert}
use ssa_consulta_rapidacpp.ImportRow.{Values}
use ssa_consulta_rapidacpp.Merge.{MergeResult, merge}

abbrev text_or_empty : Option Text → Text
text_or_empty none = []
text_or_empty (some v) = v

unfoldable pub row_value : Values → String → Text
row_value row key = text_or_empty (lookup key row)

abbrev pub number_of : Values → Text
number_of row = row_value row "numero_ssa"

-- SsaImportBatch, of which the resolver reads the rows alone.
pub record SsaImportBatch : Type 0 where
  pub rows : List Values

pub record ResolvedSsaImportRows : Type 0 where
  pub rows : List Values
  pub duplicate_rows : ℕ
  pub conflict_rows : ℕ

pub record ResolverState : Type 0 where
  pub resolved : ResolvedSsaImportRows
  pub index_by_ssa : Assoc Text ℕ
  pub conflicting_numbers : List Text

unfoldable pub contains : Text → List Text → Bool
contains number [] = false
contains number (n ∷ numbers) = text_eq n number || contains number numbers

-- rows[index] = row
unfoldable pub set_row : ℕ → Values → List Values → List Values
set_row index row [] = []
set_row zero row (r ∷ rows) = row ∷ rows
set_row (suc index) row (r ∷ rows) = r ∷ set_row index row rows

unfoldable pub push_row : Values → ResolverState → ResolverState
push_row row s = record s { resolved = record s.resolved { rows = s.resolved.rows ++ row ∷ [] } }

unfoldable pub count_duplicate : ResolverState → ResolverState
count_duplicate s = record s {
  resolved = record s.resolved { duplicate_rows = suc s.resolved.duplicate_rows };
}

unfoldable pub push_numbered : Text → Values → ResolverState → ResolverState
push_numbered number row s =
    push_row row (record s { index_by_ssa = insert number (length s.resolved.rows) s.index_by_ssa })

unfoldable pub mark_conflict : Text → ResolverState → ResolverState
mark_conflict number s = record s {
  resolved = record s.resolved { conflict_rows = suc s.resolved.conflict_rows };
  conflicting_numbers = number ∷ s.conflicting_numbers;
}

unfoldable pub store_merged : Text → ℕ → MergeResult → ResolverState → ResolverState
store_merged number index merged s = if merged.conflict then mark_conflict number s else record s {
  resolved = record s.resolved { rows = set_row index merged.values s.resolved.rows };
}

unfoldable pub place_row : Text → Option ℕ → Values → ResolverState → ResolverState
place_row number none row s = push_numbered number row s
place_row number (some index) row s =
    store_merged number index (merge (get_or s.resolved.rows index []) row) (count_duplicate s)

-- The body of the loop.
unfoldable pub resolve_row : ResolverState → Values → ResolverState
resolve_row s row =
    let number = number_of row in
    if is_empty number
    then push_row row s
    else if contains number s.conflicting_numbers
    then count_duplicate s
    else place_row number (lookup number s.index_by_ssa) row s

unfoldable pub resolve_rows : ResolverState → List Values → ResolverState
resolve_rows s [] = s
resolve_rows s (row ∷ rows) = resolve_rows (resolve_row s row) rows

unfoldable pub resolve_batches : ResolverState → List SsaImportBatch → ResolverState
resolve_batches s [] = s
resolve_batches s (batch ∷ batches) = resolve_batches (resolve_rows s batch.rows) batches

-- std::erase_if of the rows whose number conflicts.
unfoldable pub erase_conflicting : List Text → List Values → List Values
erase_conflicting numbers [] = []
erase_conflicting numbers (row ∷ rows) =
    let rest = erase_conflicting numbers rows in
    if contains (number_of row) numbers then rest else row ∷ rest

abbrev pub initial : ResolverState
initial = record {
  resolved = record { rows = []; duplicate_rows = 0; conflict_rows = 0 };
  index_by_ssa = [];
  conflicting_numbers = [];
}

abbrev erased : ResolverState → ResolvedSsaImportRows
erased s = record s.resolved { rows = erase_conflicting s.conflicting_numbers s.resolved.rows }

unfoldable pub resolve_by_ssa_number : List SsaImportBatch → ResolvedSsaImportRows
resolve_by_ssa_number batches = erased (resolve_batches initial batches)
