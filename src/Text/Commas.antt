-- ===== src/Text/Commas.antt =====
-- The pieces of a text between its commas, as the scanning loops cut them.
use ssa_consulta_rapidacpp.Prelude.{
  ℕ, ◌≡◌, refl, Bool, true, not, List, [], ◌∷◌, ◌++◌, all, arith, ◌==◌, if◌then◌else◌,
}
use ssa_consulta_rapidacpp.Text.{Text}

unfoldable pub prepend : ℕ → List Text → List Text
prepend c [] = (c ∷ []) ∷ []
prepend c (p ∷ ps) = (c ∷ p) ∷ ps

-- while (start <= size) { cut at the next comma, or at the end; start = comma + 1; }
unfoldable pub comma_parts : Text → List Text
unfolding prepend
comma_parts [] = [] ∷ []
comma_parts (c ∷ s) = let rest = comma_parts s in if c == b',' then [] ∷ rest else prepend c rest

abbrev pub no_comma : Text → Bool
no_comma s = all (λ c. not (c == b',')) s

pub comma_parts-no_comma : (s : Text) → no_comma s ≡ true → comma_parts s ≡ s ∷ []
unfolding comma_parts
comma_parts-no_comma [] h = refl
comma_parts-no_comma (c ∷ s) h = ground (arith, comma_parts-no_comma s)

pub comma_parts-append :
    (s t : Text) → no_comma s ≡ true → comma_parts (s ++ b',' ∷ t) ≡ s ∷ comma_parts t
unfolding comma_parts
comma_parts-append [] t h = refl
comma_parts-append (c ∷ s) t h = ground (arith, comma_parts-append s t)
