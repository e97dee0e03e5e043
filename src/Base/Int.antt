-- ===== src/Base/Int.antt =====
-- Go's signed integers, with exact values.
use Prim.Native.Nat.{ℕ, suc, ◌+◌, ◌-◌}
use mathlib.Core.Bool.{Bool}
use bm.Base.Tests.{leb, ltb, if◌then◌else◌}

-- `negsuc n` is -(n + 1).
pub data ℤ : Type 0 where
  pos : ℕ → ℤ
  negsuc : ℕ → ℤ

abbrev pub pos_part : ℤ → ℕ
pos_part (pos n) = n
pos_part (negsuc n) = 0

abbrev pub neg_part : ℤ → ℕ
neg_part (pos n) = 0
neg_part (negsuc n) = suc n

-- a - b, as an integer.
abbrev pub sub_ℕ : ℕ → ℕ → ℤ
sub_ℕ a b = if leb b a then pos (a - b) else negsuc (b - a - 1)

abbrev pub is_zero : ℤ → Bool
is_zero z = leb (pos_part z + neg_part z) 0

abbrev pub is_neg : ℤ → Bool
is_neg z = ltb 0 (neg_part z)

abbrev pub is_pos : ℤ → Bool
is_pos z = ltb 0 (pos_part z)
