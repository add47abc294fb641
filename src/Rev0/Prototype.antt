-- ===== src/Rev0/Prototype.antt =====
-- Archive/Rev0-1/server/1st-prototype/server.c: the server that stores each device's word and answers
-- with the word of another. The log is left out. The host is little-endian.
pub mod Table
use sneso_ip.Common.{
  ℕ, ◌+◌, ◌*◌, ◌/◌, ◌%◌, Bool, true, false, ◌&&◌, ltb, List, [], ◌∷◌, ◌++◌, Bytes, ◌==◌,
  if◌then◌else◌, get_or, drop, length,
}
use sneso_ip.Rev0.Copy.{store_bytes}

-- `recvBuffer`, `clientData`, and whether an element outside the array has been used: the IDs are of
-- type `int8_t`, so that the element of an ID from 128 on lies before the array. The model ends
-- there, since nothing is known of a program that writes to it.
pub record Server : Type 0 where
  pub recv_buffer : Bytes
  pub client_data : ℕ → ℕ
  pub is_broken : Bool

-- The start: the elements 0 to 254 are set, and what else the array holds is a parameter.
unfoldable pub start : Bytes → (ℕ → ℕ) → Server
start buffer stack = record {
  recv_buffer = buffer;
  client_data = λ i. if ltb i 255 then 0xffff else stack i;
  is_broken = false;
}

-- What `recvfrom(sockfd, recvBuffer, 4, …)` returns: at most four bytes, or -1.
pub data Received : Type 0 where
  bytes : Bytes → Received
  failed : Received

abbrev pub update : (ℕ → ℕ) → ℕ → ℕ → ℕ → ℕ
update words k v j = if k == j then v else words j

-- A message in the buffer is stored, and the word that it asks for is sent.
unfoldable pub serve : Server → Server × List Bytes
serve s =
    let id = get_or s.recv_buffer 2 0 in
    let asked = get_or s.recv_buffer 3 0 in
    let word =
      store_bytes (get_or s.recv_buffer 0 0) (get_or s.recv_buffer 1 0) (s.client_data id) in
    let s' = record s { client_data = update s.client_data id word } in
    let reply = s'.client_data asked % 256 ∷ s'.client_data asked / 256 ∷ [] in
    if ltb id 128 && ltb asked 128 then (s', reply ∷ []) else (record s { is_broken = true }, [])

-- One round of the loop, and the datagrams that are sent.
unfoldable pub round : Server → Received → Server × List Bytes
round s failed = (s, [])
round s (bytes b) =
    let served = serve (record s { recv_buffer = b ++ drop (length b) s.recv_buffer }) in
    if s.is_broken then (s, []) else served

unfoldable pub rounds : Server → List Received → Server × List Bytes
rounds s [] = (s, [])
rounds s (r ∷ rs) =
    let (s', out) = round s r in let (s'', more) = rounds s' rs in (s'', out ++ more)
