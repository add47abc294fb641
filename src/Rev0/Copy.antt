-- ===== src/Rev0/Copy.antt =====
-- The loop `for (i = 0; i < 8; i++)` that Archive/Rev0-1/firmware/firmware.c and
-- Archive/Rev0-1/server/1st-prototype/server.c use, at different offsets, to copy eight bits.
pub mod Words
use sneso_ip.Common.{
  ℕ, zero, suc, ◌+◌, ◌-◌, ◌*◌, ◌^◌, ◌≤◌, ◌<◌, ◌≡◌, ◌⊎◌, inl, inr, Bool, ◌&&◌, arith, ltb, leb, ◌==◌,
  if◌then◌else◌,
}
use sneso_ip.Common.Word.{
  bit, set_bit, clear_bit, bit-lt, bit-set_bit, bit-clear_bit, set_bit-lt, clear_bit-lt,
}

-- `n` rounds from `i` on: bit `i + from` of the source becomes bit `i + to` of the destination.
unfoldable pub copy_bits : ℕ → ℕ → ℕ → ℕ → ℕ → ℕ → ℕ
copy_bits zero i src from dst to = dst
copy_bits (suc n) i src from dst to =
    copy_bits n (i + 1) src from
      (if bit src (i + from) == 0 then clear_bit dst (i + to) else set_bit dst (i + to)) to

-- Two such loops, which take a word from its bytes.
unfoldable pub store_bytes : ℕ → ℕ → ℕ → ℕ
store_bytes lo hi word = copy_bits 8 0 hi 0 (copy_bits 8 0 lo 0 word 0) 8

step-bit :
    (src from dst to i j : ℕ)
    → bit (if bit src (i + from) == 0 then clear_bit dst (i + to) else set_bit dst (i + to)) j
      ≡ (if i + to == j then bit src (i + from) else bit dst j)
step-bit src from dst to i j =
    ground (arith, bit-clear_bit dst (i + to) j, bit-set_bit dst (i + to) j, bit-lt src (i + from))

-- The loop leaves the bits outside the range.
pub bit-copy_bits_ne :
    (n i src from dst to j : ℕ)
    → (j < i + to) ⊎ (i + n + to ≤ j)
    → bit (copy_bits n i src from dst to) j ≡ bit dst j
unfolding copy_bits
bit-copy_bits_ne zero i src from dst to j out = ground arith
bit-copy_bits_ne (suc n) i src from dst to j out =
    let next = if bit src (i + from) == 0 then clear_bit dst (i + to) else set_bit dst (i + to) in
    ground (arith, bit-copy_bits_ne n (i + 1) src from next to j, step-bit src from dst to i j)

-- The bits in the range come from the source.
pub bit-copy_bits :
    (n i src from dst to k : ℕ)
    → i ≤ k
    → k < i + n
    → bit (copy_bits n i src from dst to) (k + to) ≡ bit src (k + from)
unfolding copy_bits
bit-copy_bits zero i src from dst to k lo hi = absurd (omega arith)
bit-copy_bits (suc n) i src from dst to k lo hi =
    let next = if bit src (i + from) == 0 then clear_bit dst (i + to) else set_bit dst (i + to) in
    ground (
      arith,
      bit-copy_bits n (i + 1) src from next to k,
      bit-copy_bits_ne n (i + 1) src from next to (k + to),
      step-bit src from dst to i (k + to),
    )

pub copy_bits-lt :
    (w n i src from dst to : ℕ)
    → i + n + to ≤ w
    → dst < 2 ^ w
    → copy_bits n i src from dst to < 2 ^ w
unfolding copy_bits
copy_bits-lt w zero i src from dst to b h = h
copy_bits-lt w (suc n) i src from dst to b h =
    copy_bits-lt w n (i + 1) src from _ to (omega arith)
      (ground (arith, set_bit-lt w dst (i + to), clear_bit-lt w dst (i + to)))
