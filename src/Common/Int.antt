-- ===== src/Common/Int.antt =====
-- Signed integers over the native numbers: what a C `int` counts.
use Prim.Native.Nat.{ℕ, suc, ◌+◌, ◌-◌}
use mathlib.Core.Path.{◌≡◌}
use mathlib.Core.Bool.{Bool, false}
use native.Mathlib.Omega.{arith}
use sneso_ip.Common.Tests.{leb, ◌==◌, if◌then◌else◌}

-- `negsuc n` is -(n + 1).
pub data ℤ : Type 0 where
  pos : ℕ → ℤ
  negsuc : ℕ → ℤ

abbrev pub pos_part : ℤ → ℕ
pos_part (pos n) = n
pos_part (negsuc n) = 0

abbrev pub neg_part : ℤ → ℕ
neg_part (pos n) = 0
neg_part (negsuc n) = suc n

-- a - b, as an integer.
abbrev pub sub_ℕ : ℕ → ℕ → ℤ
sub_ℕ a b = if leb b a then pos (a - b) else negsuc (b - a - 1)

infixl 65 ◌+ℤ◌
unfoldable pub ◌+ℤ◌ : ℤ → ℤ → ℤ
a +ℤ b = sub_ℕ (pos_part a + pos_part b) (neg_part a + neg_part b)

-- `a >= b`.
abbrev pub geb_ℤ : ℤ → ℤ → Bool
geb_ℤ a b = leb (pos_part b + neg_part a) (pos_part a + neg_part b)

pub +ℤ_parts :
    (a b : ℤ)
    → pos_part (a +ℤ b) + neg_part a + neg_part b ≡ neg_part (a +ℤ b) + pos_part a + pos_part b
unfolding ◌+ℤ◌
+ℤ_parts a b = ground arith

-- `a == b`.
abbrev pub eq_ℤ : ℤ → ℤ → Bool
eq_ℤ (pos m) (pos n) = m == n
eq_ℤ (pos m) (negsuc n) = false
eq_ℤ (negsuc m) (pos n) = false
eq_ℤ (negsuc m) (negsuc n) = m == n

-- A sum of two numbers that are not negative is theirs.
pub +ℤ_pos : (a b : ℕ) → pos a +ℤ pos b ≡ pos (a + b)
unfolding ◌+ℤ◌
+ℤ_pos a b = ground arith
