-- ===== src/Rev0/Prototype/Table.antt =====
-- What the first server promises: a table with the last word of each device. The server's rounds
-- refine it.
use sneso_ip.Common.{
  ℕ, ◌/◌, ◌%◌, ◌<◌, ◌≡◌, refl, ap, ◌∙◌, true, false, ltb, List, [], ◌∷◌, ◌++◌, map, arith, Bytes,
  ◌==◌, if◌then◌else◌, All,
}
use sneso_ip.Rev0.Copy.{store_bytes}
use sneso_ip.Rev0.Copy.Words.{store_bytes_lem}
use sneso_ip.Rev0.Prototype.{Server, Received, bytes, update, serve, round, rounds}

-- A device's word, its ID, and the ID of the device whose word it wants.
pub record Message : Type 0 where
  pub word : ℕ
  pub sender : ℕ
  pub wanted : ℕ

abbrev pub IsMessage : Message → Type 0
IsMessage m = (m.word < 65536) × (m.sender < 128) × (m.wanted < 128)

abbrev pub word_bytes : ℕ → Bytes
word_bytes w = w % 256 ∷ w / 256 ∷ []

abbrev pub datagram : Message → Received
datagram m = bytes (m.word % 256 ∷ m.word / 256 ∷ m.sender ∷ m.wanted ∷ [])

-- The last word of each ID.
abbrev pub Table : Type 0
Table = ℕ → ℕ

abbrev pub entry : Table → Message → Table
entry t m id = if m.sender == id then m.word else t id

abbrev pub exchange : Table → List Message → Table × List ℕ
exchange t [] = (t, [])
exchange t (m ∷ ms) =
    let (t', answers) = exchange (entry t m) ms in (t', entry t m m.wanted ∷ answers)

-- The server holds the words of the table for the IDs below 128.
pub record Holds (s : Server) (t : Table) : Type 0 where
  pub entries : (id : ℕ) → id < 128 → s.client_data id ≡ t id
  pub words : (k : ℕ) → s.client_data k < 65536
  pub sound : s.is_broken ≡ false

stored : (w old : ℕ) → w < 65536 → old < 65536 → store_bytes (w % 256) (w / 256) old ≡ w
stored w old hw ho =
    store_bytes_lem (w % 256) (w / 256) old (omega arith) (omega arith) ho ∙ omega arith

update-entry :
    (s : Server) (t : Table) (m : Message) (id : ℕ)
    → id < 128
    → Holds s t
    → update s.client_data m.sender m.word id ≡ entry t m id
update-entry s t m id lt v = rw (v.entries id lt) refl

-- One round stores the word and answers with the wanted one.
pub round-Holds :
    (s : Server) (t : Table) (m : Message)
    → IsMessage m
    → Holds s t
    → let (s', out) = round s (datagram m) in
      (out ≡ word_bytes (entry t m m.wanted) ∷ []) × Holds s' (entry t m)
unfolding round serve
round-Holds s t m h v =
    let sender : ltb m.sender 128 ≡ true = ground (arith, h.1) in
    let wanted : ltb m.wanted 128 ≡ true = ground (arith, h.2) in
    rw (v.sound, sender, wanted, stored m.word (s.client_data m.sender) h.0 (v.words m.sender))
      (
        ap (λ w. word_bytes w ∷ []) (update-entry s t m m.wanted h.2 v),
        record {
          entries = λ id lt. update-entry s t m id lt v;
          words = λ k. ground (arith, v.words k, h);
          sound = refl;
        },
      )

-- For all messages of devices, with words of 16 bits and IDs below 128, one after the other, a server
-- that holds a table of words for these IDs answers each with the last word of the device that it asks
-- for, and in the end holds the last word of each device.
pub rounds-Holds :
    (s : Server) (t : Table) (ms : List Message)
    → All IsMessage ms
    → Holds s t
    → let (s', out) = rounds s (map datagram ms) in
      let (t', answers) = exchange t ms in (out ≡ map word_bytes answers) × Holds s' t'
unfolding rounds
rounds-Holds s t [] h v = (refl, v)
rounds-Holds s t (m ∷ ms) h v =
    let one = round-Holds s t m h.0 v in
    let rest = rounds-Holds (round s (datagram m)).0 (entry t m) ms h.1 one.1 in
    (
      ap (λ out. out ++ (rounds (round s (datagram m)).0 (map datagram ms)).1) one.0
          ∙ ap (λ out. word_bytes (entry t m m.wanted) ∷ out) rest.0,
      rest.1,
    )
