-- ===== src/Rev2/Ascii/Relay.antt =====
-- The main loop of the firmware against the text reader on the console.
use sneso_ip.Common.{
  ℕ, ◌<◌, ◌≡◌, refl, ap, ◌∙◌, Bool, true, false, List, [], ◌∷◌, ◌++◌, append-nil, append_assoc, map,
  Bytes, arith, All, All-append, length,
}
use sneso_ip.Rev2.Snesio.{recv_input}
use sneso_ip.Rev2.Loop.{Device, Poll}
use sneso_ip.Rev2.Loop as Loop
use sneso_ip.Rev2.Loop.Payload.{words_of, inverted, IsDatagram, round-words}
use sneso_ip.Rev2.Ascii.{ascii_table, Cursor, rounds}
use sneso_ip.Rev2.Ascii.Text.{
  IsPads, seen, chars_of, chars_of-rounds, text_of, text_of-IsPrintable, inverted-append, IsByte,
  IsPrintable,
}

printable-IsByte : (s : Bytes) → All IsPrintable s → All IsByte s
printable-IsByte [] h = tt
printable-IsByte (c ∷ s) (printable, h) = (ground arith, printable-IsByte s h)

no_text : text_of (0 ∷ 0 ∷ []) ≡ []
unfolding ascii_table
no_text = refl

-- A round of the firmware with a datagram for it, whose payload is a text of up to 127 line feeds and
-- printable ASCII characters without apostrophes: where the reader takes each word of the second
-- port once, it draws exactly this text, in order, and nothing more. No button is held, the
-- round has no TCP data, and `padsCurrent` gives the buttons as it is documented to.
pub round-chars :
    (pads : (ℕ → Bool) → ℕ) (port : ℕ) (d : Device) (i : Poll) (s rest : Bytes) (c : Cursor)
    → IsPads pads
    → i.tcp ≡ false
    → i.my_ip ≡ true
    → length s < 128
    → IsDatagram i.buffer port s rest
    → recv_input i.levels ≡ 65535
    → All IsPrintable s
    → chars_of (rounds c (map (seen pads) (words_of (Loop.round port d i).1))).1 ≡ s
round-chars pads port d i s rest c h idle mine short datagram released printable =
    let drawn = λ (words : List (ℕ × ℕ)). chars_of (rounds c (map (seen pads) words)).1 in
    let bytes = All-append IsByte s (0 ∷ 0 ∷ []) (printable-IsByte s printable) (omega arith) in
    ap drawn (
      round-words port d i s rest idle mine short datagram
      ∙ (ap (λ (own : ℕ). inverted own (s ++ (0 ∷ [])) ++ ((own, own) ∷ [])) released
          ∙ (inverted-append 65535 (s ++ (0 ∷ [])) (0 ∷ [])
              ∙ ap (inverted 65535) (append_assoc s (0 ∷ []) (0 ∷ [])))))
    ∙ (chars_of-rounds pads h c 65535 (s ++ (0 ∷ 0 ∷ [])) bytes
        ∙ (text_of-IsPrintable s (0 ∷ 0 ∷ []) printable
            ∙ (ap (λ (t : Bytes). s ++ t) no_text ∙ append-nil s)))
