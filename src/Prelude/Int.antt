-- ===== src/Prelude/Int.antt =====
-- The C `int`, as far as the code uses it: return codes, of which some are negative.
use Prim.Native.Nat.{ℕ}
use mathlib.Core.Path.{◌≡◌}
use mathlib.Core.Logic.{◌↔◌}
use mathlib.Core.Bool.{Bool, true, false}
use native.Mathlib.Omega.{arith}
use syncookie_xdp.Prelude.Tests.{◌==◌}

-- `negsuc n` is -(n + 1).
pub data ℤ : Type 0 where
  pos : ℕ → ℤ
  negsuc : ℕ → ℤ

-- `a == n` for an `int` and a constant that is not negative.
abbrev pub is_pos : ℤ → ℕ → Bool
is_pos (pos m) n = m == n
is_pos (negsuc m) n = false

pub is_pos_iff : (a : ℤ) (n : ℕ) → (is_pos a n ≡ true) ↔ (a ≡ pos n)
is_pos_iff (pos m) n = ground arith
is_pos_iff (negsuc m) n = ground arith
