-- ===== src/Vsnesoip/Remote.antt =====
-- From the joystick of one player to the opponent's game pad.
use sneso_ip.Common.{
  ℕ, ◌+◌, ◌-◌, ◌*◌, ◌/◌, ◌%◌, ◌<◌, ◌≡◌, refl, ◌∙◌, ap, none, inl, inr, Bool-cases, Bool, true,
  false, not, ◌&&◌, ◌||◌, List, [], ◌∷◌, arith, ltb, leb, ◌==◌, if◌then◌else◌, get_or, passes,
  passes_at, Bytes,
}
use sneso_ip.Cstring.Strtol.{ends, two_digits}
use sneso_ip.Vsnesoip.{Pad, released, process_incoming, recv_opponent}
use sneso_ip.Vsnesoip.Joystick.{Mapping, JsEvent, goes, after, on_events, pad_text}
use sneso_ip.Vsnesoip.Wire.{place, bit_at, Mirrors, released-Mirrors, on_events-Mirrors}

-- The opponent's button for a button of the sender.
abbrev pub remote : ℕ → ℕ
remote k = get_or (0 ∷ 16 ∷ 15 ∷ 14 ∷ 13 ∷ 21 ∷ 20 ∷ 22 ∷ 19 ∷ 23 ∷ 24 ∷ 17 ∷ 18 ∷ []) k 0

lines_up : ℕ → Bool
lines_up k =
    (k == 0)
    || (leb 13 (remote k)
        && (if ltb (remote k) 21
            then ltb (place k) 8 && (place k == remote k - 13)
            else leb 8 (place k) && (ltb (remote k) 25 && (place k - 8 == 28 - remote k))))

all_line_up : passes lines_up 13 ≡ true
unfolding passes lines_up
all_line_up = refl

-- What `process_incoming` reads for it.
remote_bit :
    (k : ℕ)
    → 0 < k
    → k < 13
    → (p q : Pad) → (process_incoming q p.b1 p.b0).button (remote k) ≡ not (bit_at p (place k) == 0)
unfolding process_incoming lines_up
remote_bit k pk lk p q =
    let one : lines_up k ≡ true = passes_at lines_up 13 k lk all_line_up in
    elim (Bool-cases (ltb (remote k) 21)) [
      | inl low ↦
          (let e : remote k - 13 ≡ place k = ground arith in
            let from : ltb (remote k) 13 ≡ false = ground arith in
            let is : ltb (place k) 8 ≡ true = ground arith in rw (from, low, is, e) refl)
      | inr high ↦
          (let e : 28 - remote k ≡ place k - 8 = ground arith in
            let from : ltb (remote k) 13 ≡ false = ground arith in
            let end : ltb (remote k) 25 ≡ true = ground arith in
            let is : ltb (place k) 8 ≡ false = ground arith in rw (from, high, end, is, e) refl)
    ]

text_read :
    (p q : Pad) (behind0 behind1 : Bytes)
    → p.b0 < 256
    → p.b1 < 256
    → ends behind0 ≡ true
    → ends behind1 ≡ true
    → recv_opponent behind0 behind1 q (pad_text p) ≡ process_incoming q p.b1 p.b0
unfolding recv_opponent pad_text
text_read p q behind0 behind1 h0 h1 e0 e1 =
    let r1 = two_digits (p.b1 / 16) (p.b1 % 16) behind0 (omega arith) (omega arith) e0 in
    let r0 = two_digits (p.b0 / 16) (p.b0 % 16) behind1 (omega arith) (omega arith) e1 in
    let n1 : (p.b1 / 16 * 16 + p.b1 % 16) % 256 ≡ p.b1 = omega arith in
    let n0 : (p.b0 / 16 * 16 + p.b0 % 16) % 256 ≡ p.b0 = omega arith in rw (r1, r0, n1, n0) refl

-- After every sequence of joystick events, the text for the opponent sets there, for each of the 12
-- buttons, the opponent's button for it to what the sender's button is, if what lies behind the
-- receiver's two arrays does not begin with a hexadecimal digit.
pub recv_opponent-pad_text :
    (m : Mapping) (events : List JsEvent) (q : Pad) (behind0 behind1 : Bytes) (k : ℕ)
    → 0 < k
    → k < 13
    → ends behind0 ≡ true
    → ends behind1 ≡ true
    → let p = after (on_events m (goes released none none) events) in
      (recv_opponent behind0 behind1 q (pad_text p)).button (remote k) ≡ p.button k
recv_opponent-pad_text m events q behind0 behind1 k pk lk e0 e1 =
    let p = after (on_events m (goes released none none) events) in
    let ok : Mirrors p = on_events-Mirrors m (goes released none none) events released-Mirrors in
    ap (λ (r : Pad). r.button (remote k))
      (text_read p q behind0 behind1 ok.b0_byte ok.b1_byte e0 e1)
    ∙ (remote_bit k pk lk p q ∙ ground (arith, ok.levels k pk lk))
