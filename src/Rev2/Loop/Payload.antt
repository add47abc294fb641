-- ===== src/Rev2/Loop/Payload.antt =====
-- What the loop makes of a datagram.
use sneso_ip.Common.{
  ℕ, ◌+◌, ◌-◌, ◌/◌, ◌%◌, ◌≤◌, ◌<◌, ◌≡◌, ◌↔◌, refl, ap, ◌∙◌, Bool, true, false, List, [], ◌∷◌, ◌++◌,
  arith, Bytes, if◌then◌else◌, get_or, take, drop, length, ltb,
}
use sneso_ip.Rev2.Snesio.{recv_input}
use sneso_ip.Rev2.Loop.{
  Device, Poll, Out, words, hello, no_io, udp_data_received, payload_len, send_payload,
  take_payload, round,
}

-- For the low byte of the length in the header of a datagram: the payload is taken as at most 128
-- bytes, and the NUL behind it is written inside the array of 128 bytes exactly when the byte is
-- from 8 to 135.
pub payload_len-inside :
    (low : ℕ)
    → low < 256
    → (payload_len low ≤ 128) × ((payload_len low < 128) ↔ ((8 ≤ low) × (low < 136)))
unfolding payload_len
payload_len-inside low h = ground arith

payload_len-short : (n : ℕ) → n < 128 → payload_len (n + 8) ≡ n
unfolding payload_len
payload_len-short n h = ground arith

-- The words that the consoles get, in order.
abbrev pub words_of : List Out → List (ℕ × ℕ)
words_of [] = []
words_of (no_io ∷ out) = words_of out
words_of (words a b ∷ out) = (a, b) ∷ words_of out
words_of (hello ∷ out) = words_of out

words_of-append : (xs ys : List Out) → words_of (xs ++ ys) ≡ words_of xs ++ words_of ys
words_of-append [] ys = refl
words_of-append (no_io ∷ xs) ys = words_of-append xs ys
words_of-append (words a b ∷ xs) ys = ap (λ (t : List (ℕ × ℕ)). (a, b) ∷ t) (words_of-append xs ys)
words_of-append (hello ∷ xs) ys = words_of-append xs ys

-- The words for a payload: each byte is taken from 0xffff.
abbrev pub inverted : ℕ → Bytes → List (ℕ × ℕ)
inverted port0 [] = []
inverted port0 (b ∷ s) = (port0, 65535 - b) ∷ inverted port0 s

words_of-send_payload : (port0 : ℕ) (s : Bytes) → words_of (send_payload port0 s) ≡ inverted port0 s
unfolding send_payload
words_of-send_payload port0 [] = refl
words_of-send_payload port0 (b ∷ s) =
    ap (λ (t : List (ℕ × ℕ)). (port0, 65535 - b) ∷ t) (words_of-send_payload port0 s)

take-append : (s rest : Bytes) → take (length s) (s ++ rest) ≡ s
take-append [] rest = refl
take-append (c ∷ s) rest = ap (λ (t : Bytes). c ∷ t) (take-append s rest)

-- A datagram with the payload `s` for a port: an IP packet of protocol 17 (UDP).
pub record IsDatagram (buffer : Bytes) (port : ℕ) (s rest : Bytes) : Type 0 where
  pub protocol : get_or buffer 0x17 0 ≡ 17
  pub port_high : get_or buffer 0x24 0 ≡ port / 256
  pub port_low : get_or buffer 0x25 0 ≡ port % 256
  pub size : get_or buffer 0x27 0 ≡ length s + 8
  pub payload : drop 0x2a buffer ≡ s ++ rest

received :
    (buffer : Bytes) (port : ℕ) (s rest : Bytes)
    → IsDatagram buffer port s rest
    → udp_data_received true buffer port ≡ true
unfolding udp_data_received
received buffer port s rest h = ground arith

words_of-take_payload :
    (port0 port behind : ℕ) (buffer s rest : Bytes)
    → length s < 128
    → IsDatagram buffer port s rest
    → words_of (take_payload port0 buffer behind) ≡ inverted port0 (s ++ (0 ∷ []))
unfolding take_payload
words_of-take_payload port0 port behind buffer s rest short h =
    let inside : ltb (length s) 128 ≡ true = ground arith in
    rw (h.size, h.payload, payload_len-short (length s) short, inside, take-append s rest)
      (words_of-send_payload port0 (s ++ (0 ∷ [])))

words_of-shown : (b : Bool) → words_of (if b then [] else no_io ∷ []) ≡ []
words_of-shown true = refl
words_of-shown false = refl

words_of-greeting :
    (b : Bool) (a : ℕ) → words_of ((if b then [] else hello ∷ []) ++ (words a a ∷ [])) ≡ (a, a) ∷ []
words_of-greeting true a = refl
words_of-greeting false a = refl

-- A round without TCP data, with a datagram to the own address and the source port and a payload of
-- fewer than 128 bytes: the consoles get the own word with each byte of the payload taken from 0xffff,
-- then with 0xffff for the NUL, then the own word twice.
pub round-words :
    (port : ℕ) (d : Device) (i : Poll) (s rest : Bytes)
    → i.tcp ≡ false
    → i.my_ip ≡ true
    → length s < 128
    → IsDatagram i.buffer port s rest
    → words_of (round port d i).1
      ≡ inverted (recv_input i.levels) (s ++ (0 ∷ []))
        ++ ((recv_input i.levels, recv_input i.levels) ∷ [])
unfolding round
round-words port d i s rest idle mine short h =
    let own = recv_input i.levels in
    let last = (if d.greeted then [] else hello ∷ []) ++ (words own own ∷ []) in
    rw (idle, mine, received i.buffer port s rest h)
      (words_of-append (if i.io then [] else no_io ∷ [])
          (take_payload own i.buffer i.behind ++ last)
        ∙ (rw (words_of-shown i.io, words_of-append (take_payload own i.buffer i.behind) last)
            (rw
              (
                words_of-take_payload own port i.behind i.buffer s rest short h,
                words_of-greeting d.greeted own,
              )
              refl)))
