-- ===== src/Order.antt =====
-- The order of the integers as a relation, and the negation of a natural number.
use redis_admin.Base.{ℕ, zero, suc, pos, negsuc, ◌+◌, ◌≤◌, arith, ℤ, pos_part, neg_part}

-- a ≤ b
abbrev pub ◌≤ℤ◌ : ℤ → ℤ → Type 0
◌≤ℤ◌ a b = pos_part a + neg_part b ≤ pos_part b + neg_part a

pub ≤ℤ_trans : (a b c : ℤ) → ◌≤ℤ◌ a b → ◌≤ℤ◌ b c → ◌≤ℤ◌ a c
≤ℤ_trans a b c h k = omega arith

-- 0 - n
abbrev pub minus : ℕ → ℤ
minus zero = pos 0
minus (suc n) = negsuc n
