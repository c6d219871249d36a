-- ===== src/Common/Integers.antt =====
-- Integers over the native numbers, as differences of counters.
use quark_cache.Common.{ℕ, suc, ◌+◌, ◌-◌, ◌≡◌, arith, leb, if◌then◌else◌}

-- `negsuc n` is -(n + 1).
pub data ℤ : Type 0 where
  pos : ℕ → ℤ
  negsuc : ℕ → ℤ

abbrev pub pos_part : ℤ → ℕ
pos_part (pos n) = n
pos_part (negsuc n) = 0

abbrev pub neg_part : ℤ → ℕ
neg_part (pos n) = 0
neg_part (negsuc n) = suc n

-- `a - b`.
abbrev pub difference : ℕ → ℕ → ℤ
difference a b = if leb b a then pos (a - b) else negsuc (b - a - 1)

infixl 65 ◌+ℤ◌
unfoldable pub ◌+ℤ◌ : ℤ → ℤ → ℤ
a +ℤ b = difference (pos_part a + pos_part b) (neg_part a + neg_part b)

-- Two steps make one.
pub difference-chain : (a b c : ℕ) → difference b a +ℤ difference c b ≡ difference c a
unfolding ◌+ℤ◌
difference-chain a b c = ground arith

pub difference_self : (a : ℕ) → difference a a ≡ pos 0
difference_self a = ground arith
