-- ===== src/Base/Int.antt =====
-- Signed integers, for Python's `int` where the code tests for a negative value.
use Prim.Native.Nat.{ℕ, suc, ◌+◌, ◌*◌, ◌≤◌}
use mathlib.Core.Bool.{Bool}
use southpaw_turbohaul.Base.Tests.{ltb}

-- `negsuc n` is -(n + 1).
pub data ℤ : Type 0 where
  pos : ℕ → ℤ
  negsuc : ℕ → ℤ

abbrev pub pos_part : ℤ → ℕ
pos_part (pos n) = n
pos_part (negsuc n) = 0

abbrev pub neg_part : ℤ → ℕ
neg_part (pos n) = 0
neg_part (negsuc n) = suc n

infix 50 ◌≤ℤ◌
abbrev pub ◌≤ℤ◌ : ℤ → ℤ → Type 0
a ≤ℤ b = pos_part a + neg_part b ≤ pos_part b + neg_part a

-- `a < b`
abbrev pub int_lt : ℤ → ℤ → Bool
int_lt a b = ltb (pos_part a + neg_part b) (pos_part b + neg_part a)

-- `m / d < b` and `b < m / d`, for a positive denominator.
abbrev pub ratio_lt : ℤ → ℕ → ℤ → Bool
ratio_lt m d b = ltb (pos_part m + neg_part b * d) (pos_part b * d + neg_part m)

abbrev pub lt_ratio : ℤ → ℤ → ℕ → Bool
lt_ratio b m d = ltb (pos_part b * d + neg_part m) (pos_part m + neg_part b * d)
