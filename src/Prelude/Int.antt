-- ===== src/Prelude/Int.antt =====
-- Go's signed integers where a value may be negative: the caps of a plan, with -1 for "unlimited".
use Prim.Native.Nat.{ℕ}
use mathlib.Core.Bool.{Bool, true, false}
use appunvs.Prelude.Tests.{leb}

-- negsuc n is -(n + 1)
pub data ℤ : Type 0 where
  pos : ℕ → ℤ
  negsuc : ℕ → ℤ

-- 0 <= a
abbrev pub is_nonneg : ℤ → Bool
is_nonneg (pos _) = true
is_nonneg (negsuc _) = false

-- a <= n, for a count n
abbrev pub leb_ℕ : ℤ → ℕ → Bool
leb_ℕ (pos a) n = leb a n
leb_ℕ (negsuc _) n = true
