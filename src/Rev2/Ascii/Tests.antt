-- ===== src/Rev2/Ascii/Tests.antt =====
-- The reader at concrete inputs.
use sneso_ip.Common.{
  ℕ, ◌-◌, ◌≡◌, refl, ap, ◌∙◌, Bool, true, false, not, [], ◌∷◌, ◌++◌, arith, Bytes, map, replicate,
  codes, All, ◌==◌, if◌then◌else◌,
}
use sneso_ip.Common.Word.{set_bit}
use sneso_ip.Rev2.Snesio.{recv_bits, recv_input}
use sneso_ip.Rev2.Snesio.Wire.{recv_input-bit}
use sneso_ip.Rev2.Loop.{Poll, booted}
use sneso_ip.Rev2.Loop as Loop
use sneso_ip.Rev2.Loop.Payload.{words_of, IsDatagram}
use sneso_ip.Rev2.Ascii.{rounds, start}
use sneso_ip.Rev2.Ascii.Screen.{IsDrawn, rounds-IsDrawn}
use sneso_ip.Rev2.Ascii.Text.{IsPads, seen, chars_of}
use sneso_ip.Rev2.Ascii.Relay.{round-chars}

-- The buttons in the order of their clocks, from bit 15 on.
abbrev pads : (ℕ → Bool) → ℕ
pads levels = recv_input (λ j. not (levels (15 - j)))

zero_bit : (b : Bool) → ((if not b then 1 else 0) == 0) ≡ b
zero_bit true = refl
zero_bit false = refl

pads-IsPads : IsPads pads
pads-IsPads = record {
  button = λ levels i small.
      let back : 15 - (15 - i) ≡ i = omega arith in
      ap (λ (n : ℕ). n == 0) (recv_input-bit (λ j. not (levels (15 - j))) (15 - i) (omega arith))
      ∙ (zero_bit (levels (15 - (15 - i))) ∙ ap levels back);
}

abbrev text : Bytes
text = codes "Hi, you!"

abbrev buffer : Bytes
buffer =
    replicate 23 0 ++ (17 ∷ (replicate 12 0 ++ (5 ∷ 57 ∷ 0 ∷ 16 ∷ 0 ∷ 0 ∷ (text ++ replicate 8 0))))

abbrev poll : Poll
poll = record {
  tcp = false;
  levels = λ i. true;
  io = true;
  my_ip = true;
  buffer = buffer;
  behind = 7;
}

for_us : IsDatagram buffer 1337 text (replicate 8 0)
for_us = record { protocol = refl; port_high = refl; port_low = refl; size = refl; payload = refl }

released : recv_input poll.levels ≡ 65535
unfolding recv_input recv_bits set_bit
released = refl

round-chars_example :
    chars_of (rounds start (map (seen pads) (words_of (Loop.round 1337 (booted 0) poll).1))).1
    ≡ text
round-chars_example =
    round-chars pads 1337 (booted 0) poll text (replicate 8 0) start pads-IsPads refl refl
      (omega arith) for_us released (ground arith)

rounds-IsDrawn_example : All IsDrawn (rounds start (0x8000 ∷ 0x5000 ∷ [])).1
rounds-IsDrawn_example = rounds-IsDrawn (0x8000 ∷ 0x5000 ∷ [])
