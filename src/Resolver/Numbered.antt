-- ===== src/Resolver/Numbered.antt =====
-- The rows of one number among the rows, and how the writes of the resolver change them.
use ssa_consulta_rapidacpp.Prelude.{
  ℕ, zero, suc, ◌<◌, ◌≡◌, refl, ap, ◌≢◌, false, List, [], ◌∷◌, ◌++◌, arith, if◌then◌else◌, length,
  get_or,
}
use ssa_consulta_rapidacpp.Text.{Text, text_eq}
use ssa_consulta_rapidacpp.Text.Equality.{text_eq_iff}
use ssa_consulta_rapidacpp.ImportRow.{Values}
use ssa_consulta_rapidacpp.Resolver.{number_of, set_row, contains, erase_conflicting}

unfoldable pub numbered : Text → List Values → List Values
numbered n [] = []
numbered n (row ∷ rows) =
    let rest = numbered n rows in if text_eq (number_of row) n then row ∷ rest else rest

pub numbered-append :
    (n : Text) (rows more : List Values)
    → numbered n (rows ++ more) ≡ numbered n rows ++ numbered n more
unfolding numbered
numbered-append n [] more = refl
numbered-append n (row ∷ rows) more = ground (arith, numbered-append n rows more)

pub numbered-erase_conflicting :
    (n : Text) (numbers : List Text) (rows : List Values)
    → numbered n (erase_conflicting numbers rows)
      ≡ (if contains n numbers then [] else numbered n rows)
unfolding numbered erase_conflicting
numbered-erase_conflicting n numbers [] = ground arith
numbered-erase_conflicting n numbers (row ∷ rows) =
    ground (arith, text_eq_iff (number_of row) n, numbered-erase_conflicting n numbers rows)

-- A row is among the rows of its number.
numbered-get_or :
    (n : Text) (i : ℕ) (rows : List Values)
    → i < length rows
    → number_of (get_or rows i []) ≡ n
    → numbered n rows ≢ []
unfolding numbered
numbered-get_or n i [] lt h = absurd (omega arith)
numbered-get_or n zero (row ∷ rows) lt h = ground (arith, text_eq_iff (number_of row) n)
numbered-get_or n (suc i) (row ∷ rows) lt h =
    ground (arith, numbered-get_or n i rows (omega arith) h)

pub length-set_row :
    (i : ℕ) (v : Values) (rows : List Values) → length (set_row i v rows) ≡ length rows
unfolding set_row
length-set_row i v [] = refl
length-set_row zero v (row ∷ rows) = refl
length-set_row (suc i) v (row ∷ rows) = ap suc (length-set_row i v rows)

pub get_or-set_row :
    (i : ℕ) (v : Values) (rows : List Values) → i < length rows → get_or (set_row i v rows) i [] ≡ v
unfolding set_row
get_or-set_row i v [] lt = absurd (omega arith)
get_or-set_row zero v (row ∷ rows) lt = refl
get_or-set_row (suc i) v (row ∷ rows) lt = get_or-set_row i v rows (omega arith)

pub get_or-set_row_other :
    (i j : ℕ) (v : Values) (rows : List Values)
    → i ≢ j
    → get_or (set_row i v rows) j [] ≡ get_or rows j []
unfolding set_row
get_or-set_row_other i j v [] ne = refl
get_or-set_row_other zero zero v (row ∷ rows) ne = absurd (ne refl)
get_or-set_row_other zero (suc j) v (row ∷ rows) ne = refl
get_or-set_row_other (suc i) zero v (row ∷ rows) ne = refl
get_or-set_row_other (suc i) (suc j) v (row ∷ rows) ne =
    get_or-set_row_other i j v rows (λ e. ne (ap suc e))

pub get_or-append :
    (i : ℕ) (rows more : List Values)
    → i < length rows
    → get_or (rows ++ more) i [] ≡ get_or rows i []
get_or-append i [] more lt = absurd (omega arith)
get_or-append zero (row ∷ rows) more lt = refl
get_or-append (suc i) (row ∷ rows) more lt = get_or-append i rows more (omega arith)

pub get_or-last :
    (rows : List Values) (row : Values) → get_or (rows ++ row ∷ []) (length rows) [] ≡ row
get_or-last [] row = refl
get_or-last (r ∷ rows) row = get_or-last rows row

-- A row is replaced by a row of the same number: the rows of the other numbers are as before.
pub numbered-set_row_other :
    (n : Text) (i : ℕ) (v : Values) (rows : List Values)
    → number_of (get_or rows i []) ≡ number_of v
    → text_eq (number_of v) n ≡ false
    → numbered n (set_row i v rows) ≡ numbered n rows
unfolding numbered set_row
numbered-set_row_other n i v [] e h = refl
numbered-set_row_other n zero v (row ∷ rows) e h = ground arith
numbered-set_row_other n (suc i) v (row ∷ rows) e h =
    ground (arith, numbered-set_row_other n i v rows e h)

-- The only row of a number is replaced by another row of the number.
pub numbered-set_row :
    (n : Text) (i : ℕ) (v r : Values) (rows : List Values)
    → i < length rows
    → number_of (get_or rows i []) ≡ n
    → number_of v ≡ n
    → numbered n rows ≡ r ∷ []
    → numbered n (set_row i v rows) ≡ v ∷ []
unfolding numbered set_row
numbered-set_row n i v r [] lt e f h = absurd (omega arith)
numbered-set_row n zero v r (row ∷ rows) lt e f h =
    ground (arith, text_eq_iff (number_of row) n, text_eq_iff (number_of v) n)
numbered-set_row n (suc i) v r (row ∷ rows) lt e f h = ground (
  arith,
  numbered-get_or n i rows (omega arith) e,
  numbered-set_row n i v r rows (omega arith) e f,
)
