-- ===== src/Snes.antt =====
-- Firmware/src/SNES.c: the controller input of the SNES I/O driver. Delays, logging and the set-up of
-- pins and peripherals are left out; a read of the data pin is an argument.
pub mod Bits
pub mod Input
mod Tests
use sneso_ip.Common.{
  ℕ, zero, suc, ◌+◌, ◌-◌, ◌*◌, ◌%◌, ◌^◌, Bool, true, false, ◌&&◌, List, [], ◌∷◌, ltb, ◌==◌,
  if◌then◌else◌, get_or, set,
}
use sneso_ip.Common.Word.{set_bit, clear_bit}

-- The fields of `SNESDriver` that the input thread writes, and its local variables.
pub record Driver : Type 0 where
  pub input_data : ℕ
  pub port0_tx : ℕ
  pub temp : List ℕ
  pub attempt : ℕ
  -- The words that were queued for the console's first port.
  pub queued : List ℕ

-- `InitSNES` and the start of the thread.
unfoldable pub init : Driver
init = record {
  input_data = 0xffff;
  port0_tx = 0xffff_ffff;
  temp = 0xffff ∷ 0xffff ∷ 0xffff ∷ [];
  attempt = 0;
  queued = [];
}

-- The level of the data pin at a bit of an attempt: what the first and the second read return.
abbrev pub Levels : Type 0
Levels = ℕ → Bool × Bool

-- Lines 368 to 381, for one bit: it is set after two high reads, kept after a high and a low one, and
-- cleared after a low one.
unfoldable pub read_bit : Levels → ℕ → ℕ → ℕ
read_bit levels i w =
    if ltb i 12
    then (if (levels i).0 then (if (levels i).1 then set_bit w i else w) else clear_bit w i)
    else w

-- Lines 365 to 383: `n` rounds of the loop from bit `i` on.
unfoldable pub read_bits : Levels → ℕ → ℕ → ℕ → ℕ
read_bits levels zero i w = w
read_bits levels (suc n) i w = read_bits levels n (i + 1) (read_bit levels i w)

-- Lines 387 to 399: after the third attempt.
unfoldable pub compare_attempts : Driver → Driver
compare_attempts d =
    let t0 = get_or d.temp 0 0 in
    let t1 = get_or d.temp 1 0 in
    let t2 = get_or d.temp 2 0 in
    let input = if (t0 == t1) && (t1 == t2) then t0 else d.input_data in
    let tx = clear_bit (input * 2 % 2 ^ 32) 0 in
    record d { input_data = input; port0_tx = tx; queued = tx ∷ d.queued; attempt = 0 }

-- One round of the thread's loop.
unfoldable pub sample : Driver → Levels → Driver
sample d levels =
    let word = read_bits levels 16 0 (get_or d.temp d.attempt 0) in
    let d' = record d { temp = set d.temp d.attempt word; attempt = (d.attempt + 1) % 256 } in
    if ltb 2 d'.attempt then compare_attempts d' else d'

unfoldable pub samples : Driver → List Levels → Driver
samples d [] = d
samples d (l ∷ ls) = samples (sample d l) ls
