-- ===== src/Rev0/Exchange.antt =====
-- Two devices and the first server: what one samples is what the other hands to its console.
use sneso_ip.Common.{
  ℕ, ◌+◌, ◌/◌, ◌%◌, ◌<◌, ◌≡◌, ◌≢◌, refl, ◌∙◌, Bool, true, false, List, [], ◌∷◌, ◌++◌, map, arith,
  Bytes, ◌==◌, get_or, length, All, get_or-append_left, get_or-append_right,
}
use sneso_ip.Rev0.Copy.Words.{copy_low, copy_high, store_bytes_lem}
use sneso_ip.Rev0.Firmware.{Device, idle, take_packet}
use sneso_ip.Rev0.Prototype.{Server, bytes, round, rounds}
use sneso_ip.Rev0.Prototype.Table.{
  Message, IsMessage, Table, entry, exchange, datagram, word_bytes, Holds, round-Holds,
  rounds-Holds,
}

-- A device with its ID and the one whose word it asks for.
pub record HasIds (d : Device) (id wanted : ℕ) : Type 0 where
  pub lo : ℕ
  pub hi : ℕ
  pub message : d.message ≡ lo ∷ hi ∷ id ∷ wanted ∷ []
  pub lo_byte : lo < 256
  pub hi_byte : hi < 256
  pub port1_word : d.port1 < 65536

-- The headers of a UDP packet for port 57351 of the device.
pub record IsHeader (is_ours : Bytes → Bool) (header : Bytes) : Type 0 where
  pub size : length header ≡ 0x2a
  pub protocol : get_or header 0x17 0 ≡ 17
  pub port_high : get_or header 0x24 0 ≡ 0xe0
  pub port_low : get_or header 0x25 0 ≡ 0x07
  pub ours : (payload : Bytes) → is_ours (header ++ payload) ≡ true

-- A round with no packet puts the word into the message.
idle_message :
    (d : Device) (id wanted w : ℕ)
    → HasIds d id wanted
    → w < 65536
    → (idle d w).0.message ≡ w % 256 ∷ w / 256 ∷ id ∷ wanted ∷ []
unfolding idle
idle_message d id wanted w h lt =
    rw (h.message, copy_low w h.lo h.lo_byte, copy_high w h.hi lt h.hi_byte) refl

-- A word in a packet becomes the word of the second port.
packet_word :
    (is_ours : Bytes → Bool) (d : Device) (header : Bytes) (w : ℕ)
    → IsHeader is_ours header
    → d.port1 < 65536
    → w < 65536
    → (take_packet is_ours d (header ++ word_bytes w)).0.port1 ≡ w
unfolding take_packet
packet_word is_ours d header w h port lt =
    let left =
      λ (i : ℕ) (below : i < length header). get_or-append_left header (word_bytes w) i 0 below in
    let right =
      λ (n i : ℕ) (e : n ≡ length header + i). get_or-append_right header (word_bytes w) n i 0 e in
    let size = h.size in
    rw
      (
        h.ours (word_bytes w),
        left 0x17 (omega arith) ∙ h.protocol,
        left 0x24 (omega arith) ∙ h.port_high,
        left 0x25 (omega arith) ∙ h.port_low,
        right 0x2a 0 (omega arith),
        right 0x2b 1 (omega arith),
        store_bytes_lem (w % 256) (w / 256) d.port1 (omega arith) (omega arith) port,
      )
      (omega arith)

-- Messages of other devices leave an entry as it is.
exchange_other :
    (t : Table) (ms : List Message) (id : ℕ)
    → All (λ (m : Message). m.sender ≢ id) ms
    → (exchange t ms).0 id ≡ t id
exchange_other t [] id h = refl
exchange_other t (m ∷ ms) id h =
    let other : (m.sender == id) ≡ false = ground arith in
    exchange_other (entry t m) ms id h.1 ∙ rw other refl

module _ (is_ours : Bytes → Bool) (s : Server) (t : Table) (a b : Device) (ia ib x w v : ℕ)
    (ms : List Message) (header : Bytes) (holds : Holds s t)
    (ids : (ia < 128) × (ib < 128) × (ib ≢ ia)) (first : HasIds a ia x) (second : HasIds b ib ia)
    (w_lt : w < 65536) (v_lt : v < 65536) (wanted_lt : x < 128) (valid : All IsMessage ms)
    (others : All (λ (m : Message). m.sender ≢ ia) ms) where
  -- Where a server holds a table of words, a device sends its word, then devices with other IDs send
  -- theirs, and a device with another ID, whose partner is the first, sends its own: with the server's
  -- answer, behind the header of a datagram for it, it has the first device's word for its second
  -- port. Words have 16 bits and IDs are below 128.
  pub port1-idle :
      IsHeader is_ours header
      → let s' = (rounds s (bytes (idle a w).0.message ∷ map datagram ms)).0 in
        let out = (round s' (bytes (idle b v).0.message)).1 in
        (take_packet is_ours (idle b v).0 (header ++ get_or out 0 [])).0.port1 ≡ w
  port1-idle h =
      let mine : Message = record { word = w; sender = ia; wanted = x } in
      let theirs : Message = record { word = v; sender = ib; wanted = ia } in
      let before = rounds-Holds s t (mine ∷ ms) ((w_lt, ids.0, wanted_lt), valid) holds in
      let s' = (rounds s (map datagram (mine ∷ ms))).0 in
      let t' = (exchange t (mine ∷ ms)).0 in
      let answered = round-Holds s' t' theirs (v_lt, ids.1, ids.0) before.1 in
      let distinct : (ib == ia) ≡ false = ground arith in
      let self : (ia == ia) ≡ true = ground arith in
      let kept : t' ia ≡ w = exchange_other (entry t mine) ms ia others ∙ rw self refl in
      rw
        (
          idle_message a ia x w first w_lt,
          idle_message b ib ia v second v_lt,
          answered.0,
          distinct,
          kept,
        )
        (packet_word is_ours (idle b v).0 header w h (unfold idle in second.port1_word) w_lt)
