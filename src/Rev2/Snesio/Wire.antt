-- ===== src/Rev2/Snesio/Wire.antt =====
-- What one side sends is what the other side reads.
use sneso_ip.Common.{
  ℕ, zero, suc, ◌+◌, ◌^◌, ◌≤◌, ◌<◌, ◌≡◌, refl, ap, ◌∙◌, Bool, false, ◌&&◌, arith, ltb, leb,
  if◌then◌else◌, get_or,
}
use sneso_ip.Common.Word.{bit, zero-bit, set_bit, bit-lt, bit-set_bit, set_bit-lt, bits_ext}
use sneso_ip.Rev2.Snesio.{recv_bits, recv_input, level, send_bits, send_output}

recv_bits-bit :
    (levels : ℕ → Bool) (n i w j : ℕ)
    → bit (recv_bits levels n i w) j
      ≡ (if leb i j && (ltb j (i + n) && levels j) then 1 else bit w j)
unfolding recv_bits
recv_bits-bit levels zero i w j = ground arith
recv_bits-bit levels (suc n) i w j = ground (
  arith,
  recv_bits-bit levels n (i + 1) (if levels i then set_bit w i else w) j,
  bit-set_bit w i j,
)

recv_bits-lt :
    (levels : ℕ → Bool) (n i w : ℕ) → i + n ≤ 16 → w < 2 ^ 16 → recv_bits levels n i w < 2 ^ 16
unfolding recv_bits
recv_bits-lt levels zero i w b h = h
recv_bits-lt levels (suc n) i w b h =
    recv_bits-lt levels n (i + 1) _ (omega arith) (ground (arith, set_bit-lt 16 w i h))

get_or-send_bits :
    (p q n i k : ℕ)
    → k < n
    → get_or (send_bits p q n i) k (false, false) ≡ (level p (i + k), level q (i + k))
unfolding send_bits
get_or-send_bits p q zero i k lt = absurd (omega arith)
get_or-send_bits p q (suc n) i zero lt = rw (zero_right i) refl
  where
    zero_right : (i : ℕ) → i + 0 ≡ i
    zero_right i = omega arith
get_or-send_bits p q (suc n) i (suc k) lt =
    let e : i + 1 + k ≡ i + suc k = omega arith in
    rw (get_or-send_bits p q n (i + 1) k (omega arith), e) refl

level-bit : (w j : ℕ) → (if level w j then 1 else 0) ≡ bit w j
unfolding level
level-bit w j = ground (arith, bit-lt w j)

-- Each bit that `recvInput` returns is the level of the data pin in its round.
pub recv_input-bit :
    (levels : ℕ → Bool) (j : ℕ) → j < 16 → bit (recv_input levels) j ≡ (if levels j then 1 else 0)
unfolding recv_input
recv_input-bit levels j h = ground (arith, recv_bits-bit levels 16 0 0 j, zero-bit j)

same_levels :
    (levels : ℕ → Bool) (w : ℕ)
    → w < 2 ^ 16
    → ((j : ℕ) → j < 16 → levels j ≡ level w j)
    → recv_input levels ≡ w
same_levels levels w h same =
    bits_ext 16 (recv_input levels) w
      (unfold recv_input in recv_bits-lt levels 16 0 0 (omega arith) (omega arith)) h
      (λ j lt. rw (recv_input-bit levels j lt, same j lt) (level-bit w j))

pub sent_level :
    (p q j : ℕ) → j < 16 → get_or (send_bits p q 16 0) j (false, false) ≡ (level p j, level q j)
sent_level p q j lt =
    let e : 0 + j ≡ j = omega arith in
    get_or-send_bits p q 16 0 j lt ∙ ap (λ x. (level p x, level q x)) e

-- What `sendOutput` puts on the data pins of its two ports, read with `recvInput`, one level for each
-- clock, is the two words.
pub recv_input-send_output :
    (port0 port1 : ℕ)
    → port0 < 2 ^ 16
    → port1 < 2 ^ 16
    → let pins = send_output port0 port1 in
      (recv_input (λ i. (get_or pins i (false, false)).0) ≡ port0)
      × (recv_input (λ i. (get_or pins i (false, false)).1) ≡ port1)
unfolding send_output
recv_input-send_output p q hp hq =
    let sent = λ (j : ℕ) (lt : j < 16). sent_level p q j lt in
    (
      same_levels _ p hp (λ j lt. ap (λ x. x.0) (sent j lt)),
      same_levels _ q hq (λ j lt. ap (λ x. x.1) (sent j lt)),
    )
