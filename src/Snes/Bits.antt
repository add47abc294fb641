-- ===== src/Snes/Bits.antt =====
-- One attempt to read the controller, bit by bit.
use sneso_ip.Common.{
  ℕ, zero, suc, ◌+◌, ◌^◌, ◌≤◌, ◌<◌, ◌≡◌, Bool, ◌&&◌, arith, ltb, leb, ◌==◌, if◌then◌else◌,
}
use sneso_ip.Common.Word.{bit, bit-set_bit, bit-clear_bit, set_bit-lt, clear_bit-lt, bits_ext}
use sneso_ip.Snes.{Levels, read_bit, read_bits}

-- What two reads of the pin make of a bit.
abbrev pub level_bit : Bool × Bool → ℕ → ℕ
level_bit (first, second) b = if first then (if second then 1 else b) else 0

bit-read_bit :
    (levels : Levels) (i w j : ℕ)
    → bit (read_bit levels i w) j
      ≡ (if (i == j) && ltb j 12 then level_bit (levels j) (bit w j) else bit w j)
unfolding read_bit
bit-read_bit levels i w j = ground (arith, bit-set_bit w i j, bit-clear_bit w i j)

-- The attempt decides the bits below 12 by the levels, each for itself, and keeps the others.
pub bit-read_bits :
    (levels : Levels) (n i w j : ℕ)
    → bit (read_bits levels n i w) j
      ≡ (if leb i j && (ltb j (i + n) && ltb j 12) then level_bit (levels j) (bit w j) else bit w j)
unfolding read_bits
bit-read_bits levels zero i w j = ground arith
bit-read_bits levels (suc n) i w j =
    ground
      (arith, bit-read_bits levels n (i + 1) (read_bit levels i w) j, bit-read_bit levels i w j)

read_bit-lt : (levels : Levels) (i w : ℕ) → w < 2 ^ 16 → read_bit levels i w < 2 ^ 16
unfolding read_bit
read_bit-lt levels i w h = ground (arith, set_bit-lt 16 w i h, clear_bit-lt 16 w i h)

pub read_bits-lt : (levels : Levels) (n i w : ℕ) → w < 2 ^ 16 → read_bits levels n i w < 2 ^ 16
unfolding read_bits
read_bits-lt levels zero i w h = h
read_bits-lt levels (suc n) i w h =
    read_bits-lt levels n (i + 1) (read_bit levels i w) (read_bit-lt levels i w h)

-- A word of 16 bits whose four highest bits, which no button uses, are 1.
pub record HighOnes (w : ℕ) : Type 0 where
  pub fits : w < 2 ^ 16
  pub ones : (j : ℕ) → 12 ≤ j → j < 16 → bit w j ≡ 1

pub read_bits-HighOnes : (levels : Levels) (w : ℕ) → HighOnes w → HighOnes (read_bits levels 16 0 w)
read_bits-HighOnes levels w h = record {
  fits = read_bits-lt levels 16 0 w h.fits;
  ones = λ j lo hi. ground (arith, bit-read_bits levels 16 0 w j, h.ones j);
}

-- Both reads of each button's bit see the button's level.
abbrev pub Shows : (ℕ → Bool) → Levels → Type 0
Shows buttons levels = (j : ℕ) → j < 12 → levels j ≡ (buttons j, buttons j)

pub bit_shown :
    (buttons : ℕ → Bool) (levels : Levels) (w j : ℕ)
    → Shows buttons levels
    → j < 12
    → bit (read_bits levels 16 0 w) j ≡ (if buttons j then 1 else 0)
bit_shown buttons levels w j h lt = ground (arith, bit-read_bits levels 16 0 w j, h j)

-- Two attempts that see the same buttons give the same word.
pub read_bits_same :
    (buttons : ℕ → Bool) (l m : Levels) (v w : ℕ)
    → Shows buttons l
    → Shows buttons m
    → HighOnes v
    → HighOnes w
    → read_bits l 16 0 v ≡ read_bits m 16 0 w
read_bits_same buttons l m v w hl hm hv hw =
    bits_ext 16 _ _ (read_bits-lt l 16 0 v hv.fits) (read_bits-lt m 16 0 w hw.fits) λ i lt. ground (
      arith,
      bit_shown buttons l v i hl,
      bit_shown buttons m w i hm,
      (read_bits-HighOnes l v hv).ones i,
      (read_bits-HighOnes m w hw).ones i,
    )
