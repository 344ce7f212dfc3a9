-- ===== src/Base/Integers.antt =====
-- The integers over the native numbers: exit codes and differences.
use Prim.Native.Nat.{ℕ}
use mathlib.Core.Bool.{Bool, false}
use rffmpeg.Base.Tests.{eqb}

pub data ℤ : Type 0 where
  pos negsuc : ℕ → ℤ

abbrev pub is_zero : ℤ → Bool
is_zero (pos n) = eqb n 0
is_zero (negsuc n) = false
