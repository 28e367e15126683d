-- ===== src/Base/Int.antt =====
-- Signed integers over the native numbers, as a difference of two numbers.
use Prim.Native.Nat.{ℕ, ◌-◌}
use mathlib.Core.Bool.{Bool, true, false}
use Prim.Native.Nat.{compare, Ordering}

-- `negsuc n` is -(n + 1).
pub data ℤ : Type 0 where
  pos : ℕ → ℤ
  negsuc : ℕ → ℤ

-- a - b, as an integer.
abbrev pub sub_ℕ : ℕ → ℕ → ℤ
sub_ℕ a b = elim (compare a b) [ Ordering.lt ↦ negsuc (b - a - 1) | _ ↦ pos (a - b) ]

-- 0 < a
abbrev pub is_positive : ℤ → Bool
is_positive (pos n) = elim (compare n 0) [ Ordering.gt ↦ true | _ ↦ false ]
is_positive (negsuc n) = false
