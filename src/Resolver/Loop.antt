-- ===== src/Resolver/Loop.antt =====
-- What the loop of the resolver keeps true of its index and its rows.
use ssa_consulta_rapidacpp.Prelude.{
  ℕ, ◌<◌, ◌≡◌, ◌≢◌, refl, sym, ap, ◌∙◌, subst, true, false, List, [], ◌∷◌, ◌++◌, Option, none, some,
  arith, is_empty, length, get_or, Bool-cases, inl, inr, length-append, append-nil,
}
use ssa_consulta_rapidacpp.Text.{Text, text_eq}
use ssa_consulta_rapidacpp.Text.Equality.{text_eq_iff, text_eq_refl}
use ssa_consulta_rapidacpp.Assoc.{text_Eq, lookup, lookup-insert}
use ssa_consulta_rapidacpp.ImportRow.{Values}
use ssa_consulta_rapidacpp.Resolver.{number_of, set_row, ResolverState, push_row, push_numbered}
use ssa_consulta_rapidacpp.Resolver.Numbered.{
  numbered, numbered-append, length-set_row, get_or-set_row, get_or-set_row_other, get_or-append,
  get_or-last, numbered-set_row_other, numbered-set_row,
}

-- The index of a number: none where no row has the number, and else the place of its only row.
abbrev pub Slot : List Values → Text → Option ℕ → Type 0
Slot rows n none = numbered n rows ≡ []
Slot rows n (some i) =
    (i < length rows)
    × (number_of (get_or rows i []) ≡ n)
    × (numbered n rows ≡ get_or rows i [] ∷ [])

abbrev pub IsConsistent : ResolverState → Type 0
IsConsistent s = (n : Text) → is_empty n ≡ false → Slot s.resolved.rows n (lookup n s.index_by_ssa)

numbered-one_other :
    (n : Text) (row : Values) → text_eq (number_of row) n ≡ false → numbered n (row ∷ []) ≡ []
unfolding numbered
numbered-one_other n row h = rw h refl

numbered-one_own : (row : Values) → numbered (number_of row) (row ∷ []) ≡ row ∷ []
unfolding numbered
numbered-one_own row = rw (text_eq_refl (number_of row)) refl

pub numbered-push_other :
    (n : Text) (rows : List Values) (row : Values)
    → text_eq (number_of row) n ≡ false
    → numbered n (rows ++ row ∷ []) ≡ numbered n rows
numbered-push_other n rows row h =
    numbered-append n rows (row ∷ [])
    ∙ ap (λ t. numbered n rows ++ t) (numbered-one_other n row h)
    ∙ append-nil (numbered n rows)

pub numbered-push_own :
    (rows : List Values) (row : Values)
    → numbered (number_of row) rows ≡ []
    → numbered (number_of row) (rows ++ row ∷ []) ≡ row ∷ []
numbered-push_own rows row h =
    ground (arith, numbered-append (number_of row) rows (row ∷ []), numbered-one_own row)

Slot-push_other :
    (n : Text) (rows : List Values) (row : Values) (o : Option ℕ)
    → text_eq (number_of row) n ≡ false
    → Slot rows n o
    → Slot (rows ++ row ∷ []) n o
Slot-push_other n rows row none h s = numbered-push_other n rows row h ∙ s
Slot-push_other n rows row (some i) h (lt, e, f) =
    let same = get_or-append i rows (row ∷ []) lt in
    (
      omega (arith, length-append rows (row ∷ [])),
      ap number_of same ∙ e,
      numbered-push_other n rows row h ∙ f ∙ ap (λ r. r ∷ []) (sym same),
    )

Slot-push_own :
    (rows : List Values) (row : Values)
    → numbered (number_of row) rows ≡ []
    → Slot (rows ++ row ∷ []) (number_of row) (some (length rows))
Slot-push_own rows row h =
    let last = get_or-last rows row in
    (
      omega (arith, length-append rows (row ∷ [])),
      ap number_of last,
      numbered-push_own rows row h ∙ ap (λ r. r ∷ []) (sym last),
    )

other_place :
    (n : Text) (i j : ℕ) (v : Values) (rows : List Values)
    → number_of (get_or rows i []) ≡ number_of v
    → text_eq (number_of v) n ≡ false
    → number_of (get_or rows j []) ≡ n
    → i ≢ j
other_place n i j v rows e h f same =
    let g : number_of v ≡ n = sym e ∙ ap (λ k. number_of (get_or rows k [])) same ∙ f in
    ground (arith, text_eq_iff (number_of v) n)

Slot-set_other :
    (n : Text) (i : ℕ) (v : Values) (rows : List Values) (o : Option ℕ)
    → number_of (get_or rows i []) ≡ number_of v
    → text_eq (number_of v) n ≡ false
    → Slot rows n o
    → Slot (set_row i v rows) n o
Slot-set_other n i v rows none e h s = numbered-set_row_other n i v rows e h ∙ s
Slot-set_other n i v rows (some j) e h (lt, f, g) =
    let same = get_or-set_row_other i j v rows (other_place n i j v rows e h f) in
    (
      subst (λ k. j < k) (sym (length-set_row i v rows)) lt,
      ap number_of same ∙ f,
      numbered-set_row_other n i v rows e h ∙ g ∙ ap (λ r. r ∷ []) (sym same),
    )

Slot-set_own :
    (n : Text) (i : ℕ) (v : Values) (rows : List Values)
    → number_of v ≡ n
    → Slot rows n (some i)
    → Slot (set_row i v rows) n (some i)
Slot-set_own n i v rows e (lt, f, g) =
    let same = get_or-set_row i v rows lt in
    (
      subst (λ k. i < k) (sym (length-set_row i v rows)) lt,
      ap number_of same ∙ e,
      numbered-set_row n i v (get_or rows i []) rows lt f e g ∙ ap (λ r. r ∷ []) (sym same),
    )

pub IsConsistent-push_row :
    (s : ResolverState) (row : Values)
    → is_empty (number_of row) ≡ true
    → IsConsistent s
    → IsConsistent (push_row row s)
unfolding push_row
IsConsistent-push_row s row blank inv n full =
    Slot-push_other n s.resolved.rows row (lookup n s.index_by_ssa)
      (ground (arith, text_eq_iff (number_of row) n)) (inv n full)

pub IsConsistent-push_numbered :
    (s : ResolverState) (row : Values)
    → lookup (number_of row) s.index_by_ssa ≡ none
    → is_empty (number_of row) ≡ false
    → IsConsistent s
    → IsConsistent (push_numbered (number_of row) row s)
unfolding push_numbered push_row
IsConsistent-push_numbered s row new given inv n full =
    let rows = s.resolved.rows in
    let free : numbered (number_of row) rows ≡ [] =
      subst (Slot rows (number_of row)) new (inv (number_of row) given) in
    elim (Bool-cases (text_eq (number_of row) n)) [
      | inl own ↦
          let e : number_of row ≡ n = (text_eq_iff (number_of row) n).0 own in
          rw (lookup-insert (number_of row) n (length rows) s.index_by_ssa, own)
            (subst (λ k. Slot (rows ++ row ∷ []) k (some (length rows))) e
              (Slot-push_own rows row free))
      | inr other ↦
          rw (lookup-insert (number_of row) n (length rows) s.index_by_ssa, other)
            (Slot-push_other n rows row (lookup n s.index_by_ssa) other (inv n full))
    ]

pub IsConsistent-set_row :
    (s : ResolverState) (number : Text) (i : ℕ) (v : Values)
    → lookup number s.index_by_ssa ≡ some i
    → is_empty number ≡ false
    → number_of v ≡ number
    → IsConsistent s
    → IsConsistent
        (record s { resolved = record s.resolved { rows = set_row i v s.resolved.rows } })
IsConsistent-set_row s number i v found given e inv n full =
    let rows = s.resolved.rows in
    let slot : Slot rows number (some i) = subst (Slot rows number) found (inv number given) in
    elim (Bool-cases (text_eq number n)) [
      | inl own ↦
          let f : number ≡ n = (text_eq_iff number n).0 own in
          subst (λ k. Slot (set_row i v rows) k (lookup k s.index_by_ssa)) f
            (rw found (Slot-set_own number i v rows e slot))
      | inr other ↦
          Slot-set_other n i v rows (lookup n s.index_by_ssa) (slot.1 ∙ sym e)
            (ap (λ k. text_eq k n) e ∙ other) (inv n full)
    ]
