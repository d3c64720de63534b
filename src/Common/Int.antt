-- ===== src/Common/Int.antt =====
-- Go's `int`, as far as the program uses it: comparisons, negation, equality.
use Prim.Native.Nat.{ℕ, zero, suc, ◌+◌}
use mathlib.Core.Path.{◌≡◌}
use mathlib.Core.Logic.{◌↔◌}
use mathlib.Core.Bool.{Bool, true, false}
use native.Mathlib.Omega.{arith}
use sardis.Common.Tests.{ltb, leb, nat_beq}
use sardis.Common.Compare.{Comparable}

-- `negsuc n` is -(n + 1).
pub data ℤ : Type 0 where
  pos : ℕ → ℤ
  negsuc : ℕ → ℤ

abbrev pos_part : ℤ → ℕ
pos_part (pos n) = n
pos_part (negsuc n) = 0

abbrev neg_part : ℤ → ℕ
neg_part (pos n) = 0
neg_part (negsuc n) = suc n

abbrev pub magnitude : ℤ → ℕ
magnitude a = pos_part a + neg_part a

abbrev pub ltb_ℤ : ℤ → ℤ → Bool
ltb_ℤ a b = ltb (pos_part a + neg_part b) (pos_part b + neg_part a)

abbrev pub leb_ℤ : ℤ → ℤ → Bool
leb_ℤ a b = leb (pos_part a + neg_part b) (pos_part b + neg_part a)

abbrev pub neg_ℤ : ℤ → ℤ
neg_ℤ (pos zero) = pos zero
neg_ℤ (pos (suc n)) = negsuc n
neg_ℤ (negsuc n) = pos (suc n)

abbrev beq_ℤ : ℤ → ℤ → Bool
beq_ℤ (pos n) (pos m) = nat_beq n m
beq_ℤ (negsuc n) (negsuc m) = nat_beq n m
beq_ℤ _ _ = false

pub beq_ℤ_iff : (a b : ℤ) → (beq_ℤ a b ≡ true) ↔ (a ≡ b)
beq_ℤ_iff (pos n) (pos m) = ground arith
beq_ℤ_iff (negsuc n) (negsuc m) = ground arith
beq_ℤ_iff (pos n) (negsuc m) = ground arith
beq_ℤ_iff (negsuc n) (pos m) = ground arith

instance abbrev pub int_comparable : Comparable ℤ
int_comparable = record { beq = beq_ℤ; beq_iff = beq_ℤ_iff; zero_value = pos 0 }
