-- ===== src/Common/Word.antt =====
-- Single bits of a machine word: `(w >> i) & 1`, `w | (1 << i)` and `w & ~(1 << i)`, by recursion on
-- the digits of the word. `Tests` compares the last two with the native bit operations.
use Prim.Native.Nat.{ℕ, zero, suc, ◌+◌, ◌-◌, ◌*◌, ◌/◌, ◌%◌, ◌^◌, ◌<◌, bit_or, bit_and}
use mathlib.Core.Path.{◌≡◌, refl}
use mathlib.Core.Bool.{true}
use native.Mathlib.Nat.{pow-suc}
use native.Mathlib.Omega.{arith}
use sneso_ip.Common.Tests.{◌==◌, if◌then◌else◌, passes}

unfoldable pub bit : ℕ → ℕ → ℕ
bit w zero = w % 2
bit w (suc i) = bit (w / 2) i

unfoldable pub set_bit : ℕ → ℕ → ℕ
set_bit w zero = w / 2 * 2 + 1
set_bit w (suc i) = set_bit (w / 2) i * 2 + w % 2

unfoldable pub clear_bit : ℕ → ℕ → ℕ
clear_bit w zero = w / 2 * 2
clear_bit w (suc i) = clear_bit (w / 2) i * 2 + w % 2

-- The bits of 0.
pub zero-bit : (j : ℕ) → bit 0 j ≡ 0
unfolding bit
zero-bit zero = refl
zero-bit (suc j) = zero-bit j

pub bit-lt : (w i : ℕ) → bit w i < 2
unfolding bit
bit-lt w zero = omega arith
bit-lt w (suc i) = bit-lt (w / 2) i

halve : (q r : ℕ) → r < 2 → ((q * 2 + r) / 2 ≡ q) × ((q * 2 + r) % 2 ≡ r)
halve q r h = omega arith

pub bit-set_bit : (w i j : ℕ) → bit (set_bit w i) j ≡ (if i == j then 1 else bit w j)
unfolding bit set_bit
bit-set_bit w zero zero = ground arith
bit-set_bit w zero (suc j) = ground (arith, halve (w / 2) 1)
bit-set_bit w (suc i) zero = ground arith
bit-set_bit w (suc i) (suc j) =
    ground (arith, halve (set_bit (w / 2) i) (w % 2), bit-set_bit (w / 2) i j)

pub bit-clear_bit : (w i j : ℕ) → bit (clear_bit w i) j ≡ (if i == j then 0 else bit w j)
unfolding bit clear_bit
bit-clear_bit w zero zero = ground arith
bit-clear_bit w zero (suc j) = ground (arith, halve (w / 2) 0)
bit-clear_bit w (suc i) zero = ground arith
bit-clear_bit w (suc i) (suc j) =
    ground (arith, halve (clear_bit (w / 2) i) (w % 2), bit-clear_bit (w / 2) i j)

-- A word of the width `n` keeps that width.
pub set_bit-lt : (n w i : ℕ) → w < 2 ^ n → i < n → set_bit w i < 2 ^ n
unfolding set_bit
set_bit-lt zero w i h lt = absurd (omega arith)
set_bit-lt (suc n) w zero h lt = omega (arith, pow-suc 2 n)
set_bit-lt (suc n) w (suc i) h lt =
    let e = pow-suc 2 n in omega (arith, set_bit-lt n (w / 2) i (omega arith) (omega arith))

pub clear_bit-lt : (n w i : ℕ) → w < 2 ^ n → clear_bit w i < 2 ^ n
unfolding clear_bit
clear_bit-lt n w zero h = omega arith
clear_bit-lt zero w (suc i) h = omega (arith, clear_bit-lt zero (w / 2) i (omega arith))
clear_bit-lt (suc n) w (suc i) h =
    let e = pow-suc 2 n in omega (arith, clear_bit-lt n (w / 2) i (omega arith))

-- Two words of the width `n` with the same bits are the same.
pub bits_ext : (n v w : ℕ) → v < 2 ^ n → w < 2 ^ n → ((i : ℕ) → i < n → bit v i ≡ bit w i) → v ≡ w
unfolding bit
bits_ext zero v w hv hw h = omega arith
bits_ext (suc n) v w hv hw h =
    let e = pow-suc 2 n in
    let halves =
      bits_ext n (v / 2) (w / 2) (omega arith) (omega arith) (λ i lt. h (suc i) (omega arith)) in
    omega (arith, halves, h 0 (omega arith))

agrees_or : passes (λ w. passes (λ i. set_bit (w * 3) i == bit_or (w * 3) (2 ^ i)) 8) 64 ≡ true
unfolding passes set_bit
agrees_or = refl

agrees_and :
    passes (λ w. passes (λ i. clear_bit (w * 3) i == bit_and (w * 3) (255 - 2 ^ i)) 8) 64 ≡ true
unfolding passes clear_bit
agrees_and = refl
