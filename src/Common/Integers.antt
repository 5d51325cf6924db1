-- ===== src/Common/Integers.antt =====
-- Go's int where a negative value is possible. `negsuc n` is -(n + 1).
use Prim.Native.Nat.{ℕ}
use mathlib.Core.Bool.{Bool, true, false}
use newrr.Common.Tests.{ltb, ◌==◌}

pub data ℤ : Type 0 where
  pos : ℕ → ℤ
  negsuc : ℕ → ℤ

abbrev pub is_zero : ℤ → Bool
is_zero (pos n) = n == 0
is_zero (negsuc n) = false

-- x < n for a number that is not negative
abbrev pub below : ℤ → ℕ → Bool
below (pos m) n = ltb m n
below (negsuc m) n = true

abbrev pub same_int : ℤ → ℤ → Bool
same_int (pos m) (pos n) = m == n
same_int (negsuc m) (negsuc n) = m == n
same_int _ _ = false
