-- ===== src/Rev0/Copy/Words.antt =====
-- The loops on whole bytes and words.
use sneso_ip.Common.{
  ℕ, zero, suc, ◌+◌, ◌-◌, ◌*◌, ◌/◌, ◌%◌, ◌^◌, ◌≤◌, ◌<◌, ◌≡◌, inl, inr, refl, sym, ap, subst, ◌∙◌,
  arith, ltb, Bool-cases,
}
use sneso_ip.Common.Word.{bit, bits_ext}
use sneso_ip.Rev0.Copy.{copy_bits, store_bytes, bit-copy_bits, bit-copy_bits_ne, copy_bits-lt}

-- The eight bits of a low byte.
pub bit-mod : (w k : ℕ) → k < 8 → bit (w % 256) k ≡ bit w k
unfolding bit
bit-mod w zero h = omega arith
bit-mod w (suc zero) h = omega arith
bit-mod w (suc (suc zero)) h = omega arith
bit-mod w (suc (suc (suc zero))) h = omega arith
bit-mod w (suc (suc (suc (suc zero)))) h = omega arith
bit-mod w (suc (suc (suc (suc (suc zero))))) h = omega arith
bit-mod w (suc (suc (suc (suc (suc (suc zero)))))) h = omega arith
bit-mod w (suc (suc (suc (suc (suc (suc (suc zero))))))) h = omega arith
bit-mod w (suc (suc (suc (suc (suc (suc (suc (suc k)))))))) h = absurd (omega arith)

pub bit-div : (w k : ℕ) → bit w (k + 8) ≡ bit (w / 256) k
unfolding bit
bit-div w k =
    let eight : k + 8 ≡ suc (suc (suc (suc (suc (suc (suc (suc k))))))) = omega arith in
    let halves : w / 2 / 2 / 2 / 2 / 2 / 2 / 2 / 2 ≡ w / 256 = omega arith in
    rw (eight, halves) refl

-- The loop from offset `from` to offset 0.
copied : (w from old k : ℕ) → k < 8 → bit (copy_bits 8 0 w from old 0) k ≡ bit w (k + from)
copied w from old k lt =
    let same : k + 0 ≡ k = omega arith in
    subst (λ j. bit (copy_bits 8 0 w from old 0) j ≡ bit w (k + from)) same
      (bit-copy_bits 8 0 w from old 0 k (omega arith) (omega arith))

-- Copying from offset 0 takes the low byte, from offset 8 the high one.
pub copy_low : (w old : ℕ) → old < 256 → copy_bits 8 0 w 0 old 0 ≡ w % 256
copy_low w old h =
    bits_ext 8 (copy_bits 8 0 w 0 old 0) (w % 256) (copy_bits-lt 8 8 0 w 0 old 0 (omega arith) h)
      (omega arith) (λ k lt. copied w 0 old k lt ∙ (ap (bit w) (add_zero k) ∙ sym (bit-mod w k lt)))
  where
    add_zero : (k : ℕ) → k + 0 ≡ k
    add_zero k = omega arith

pub copy_high : (w old : ℕ) → w < 65536 → old < 256 → copy_bits 8 0 w 8 old 0 ≡ w / 256
copy_high w old hw h =
    bits_ext 8 (copy_bits 8 0 w 8 old 0) (w / 256) (copy_bits-lt 8 8 0 w 8 old 0 (omega arith) h)
      (omega arith) (λ k lt. copied w 8 old k lt ∙ bit-div w k)

low_bit :
    (lo hi word k : ℕ) → lo < 256 → k < 8 → bit (store_bytes lo hi word) k ≡ bit (hi * 256 + lo) k
unfolding store_bytes
low_bit lo hi word k h lt =
    let same : (hi * 256 + lo) % 256 ≡ lo = omega arith in
    let add_zero : k + 0 ≡ k = omega arith in
    bit-copy_bits_ne 8 0 hi 0 (copy_bits 8 0 lo 0 word 0) 8 k (inl (omega arith))
    ∙ (copied lo 0 word k lt
        ∙ (ap (bit lo) add_zero ∙ (sym (ap (λ x. bit x k) same) ∙ bit-mod (hi * 256 + lo) k lt)))

high_bit :
    (lo hi word k : ℕ)
    → lo < 256
    → k < 8
    → bit (store_bytes lo hi word) (k + 8) ≡ bit (hi * 256 + lo) (k + 8)
unfolding store_bytes
high_bit lo hi word k h lt =
    let same : (hi * 256 + lo) / 256 ≡ hi = omega arith in
    let add_zero : k + 0 ≡ k = omega arith in
    bit-copy_bits 8 0 hi 0 (copy_bits 8 0 lo 0 word 0) 8 k (omega arith) (omega arith)
    ∙ (ap (bit hi) add_zero ∙ (sym (ap (λ x. bit x k) same) ∙ sym (bit-div (hi * 256 + lo) k)))

-- Both bytes are stored, whatever the word was before.
pub store_bytes_lem :
    (lo hi word : ℕ) → lo < 256 → hi < 256 → word < 65536 → store_bytes lo hi word ≡ hi * 256 + lo
store_bytes_lem lo hi word hl hh hw =
    bits_ext 16 (store_bytes lo hi word) (hi * 256 + lo) bounded (omega arith) each
  where
    bounded : store_bytes lo hi word < 2 ^ 16
    bounded =
        unfold store_bytes in
        copy_bits-lt 16 8 0 hi 0 (copy_bits 8 0 lo 0 word 0) 8 (omega arith)
          (copy_bits-lt 16 8 0 lo 0 word 0 (omega arith) hw)

    each : (k : ℕ) → k < 16 → bit (store_bytes lo hi word) k ≡ bit (hi * 256 + lo) k
    each k lt = elim (Bool-cases (ltb k 8)) [
      | inl low ↦ low_bit lo hi word k hl (ground arith)
      | inr high ↦
          (let far : 8 ≤ k = ground arith in
            let back : k - 8 + 8 ≡ k = omega arith in
            subst (λ j. bit (store_bytes lo hi word) j ≡ bit (hi * 256 + lo) j) back
              (high_bit lo hi word (k - 8) hl (omega arith)))
    ]
