-- ===== src/Text/Case.antt =====
-- ASCII case of whole texts.
use ssa_consulta_rapidacpp.Prelude.{ℕ, ◌≡◌, refl, [], ◌∷◌, map, arith}
use ssa_consulta_rapidacpp.Text.{Text, to_upper, to_lower}

-- std::ranges::transform with std::toupper, std::tolower
unfoldable pub uppercase : Text → Text
unfolding to_upper
uppercase s = map to_upper s

unfoldable pub lowercase : Text → Text
unfolding to_lower
lowercase s = map to_lower s

to_upper_idem : (c : ℕ) → to_upper (to_upper c) ≡ to_upper c
unfolding to_upper
to_upper_idem c = ground arith

pub uppercase_idem : (s : Text) → uppercase (uppercase s) ≡ uppercase s
unfolding uppercase
uppercase_idem [] = refl
uppercase_idem (c ∷ s) = cc (to_upper_idem c, uppercase_idem s)
