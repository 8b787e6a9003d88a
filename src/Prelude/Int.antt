-- ===== src/Prelude/Int.antt =====
-- C++ int values that may be negative. `negsuc n` is -(n + 1).
use ssa_consulta_rapidacpp.Prelude.Tests.{ltb, leb, ◌==◌}
use Prim.Native.Nat.{ℕ, zero, suc}
use mathlib.Core.Bool.{Bool, true, false}

pub data ℤ : Type 0 where
  pos : ℕ → ℤ
  negsuc : ℕ → ℤ

abbrev pub negate : ℕ → ℤ
negate zero = pos 0
negate (suc n) = negsuc n

-- lo <= value for a number lo, and value < hi.
abbrev pub at_least : ℕ → ℤ → Bool
at_least lo (pos n) = leb lo n
at_least lo (negsuc n) = false

abbrev pub below : ℕ → ℤ → Bool
below hi (pos n) = ltb n hi
below hi (negsuc n) = true

abbrev pub eq_ℤ : ℤ → ℤ → Bool
eq_ℤ (pos a) (pos b) = a == b
eq_ℤ (negsuc a) (negsuc b) = a == b
eq_ℤ _ _ = false
