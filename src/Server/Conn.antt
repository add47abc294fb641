-- ===== src/Server/Conn.antt =====
-- `_ConnHandler` of Server/src/Server.c, one thread for each client: its prologue, one round of its
-- conversation loop for what `recv` returned, and its end. The results of `send` only choose a line
-- on stderr; the model keeps what is sent.
pub mod Reply
pub mod Address
pub mod Stream
mod Tests
use sneso_ip.Common.{
  ℕ, ◌+◌, ◌-◌, ◌%◌, ◌≡◌, Bool, true, false, ◌||◌, Option, none, some, List, [], ◌∷◌, ◌++◌, Bytes,
  codes, ◌==◌, if◌then◌else◌, length, get_or, set, take, drop, replicate,
}
use sneso_ip.Common.Int.{ℤ, pos, negsuc, ◌+ℤ◌, geb_ℤ}
use sneso_ip.Cstring.{memcmp_eq, memcpy, c_string}
use sneso_ip.CommonInclude.Ip.{ip_is_valid, str_to_ip}
use sneso_ip.Server.Config.{Config}
use sneso_ip.Server.State.{Family, SockAddr, Client, Server, get_in_addr, set_ip}

-- The local variables of the thread.
pub record Conn : Type 0 where
  pub client_id : ℕ
  pub opponent_id : ℕ
  pub is_connected : Bool
  pub rx_buffer : Bytes
  pub tx_buffer : Bytes
  pub received : ℤ

-- `enum eCommand_t`.
pub data Command : Type 0 where
  hello bye cya get_ip : Command

-- `acCommand`: ten bytes for each command.
unfoldable pub command : ℕ → Command → Bytes
command id hello = codes "Hello" ++ (id ∷ 13 ∷ 10 ∷ 0 ∷ 0 ∷ [])
command id bye = codes "Bye" ++ (13 ∷ 10 ∷ 0 ∷ 0 ∷ 0 ∷ 0 ∷ 0 ∷ [])
command id cya = codes "Cya" ++ (13 ∷ 10 ∷ 0 ∷ 0 ∷ 0 ∷ 0 ∷ 0 ∷ [])
command id get_ip = codes "GetIP" ++ (13 ∷ 10 ∷ 0 ∷ 0 ∷ 0 ∷ [])

unfoldable pub opponent : ℕ → ℕ
opponent id = if (id % 2 == 0) || (id == 0) then (id + 1) % 256 else id - 1

-- What the prologue comes to: the client is turned away, its thread runs on, or `IpIsValid` does
-- not return.
pub data Entry : Type 0 where
  refused hangs : Entry
  entered : Server → Conn → Entry

-- The prologue behind `IpIsValid`, for the address text and the result.
unfoldable pub admit : Server → Bytes → Option Bool → Entry
admit s text none = hangs
admit s text (some false) = refused
admit s text (some true) =
    let id = s.num_clients in
    entered (record s { clients = set_ip s.clients id (str_to_ip text (s.clients id).ip) })
      (record {
        client_id = id;
        opponent_id = 0;
        is_connected = true;
        rx_buffer = replicate 10 0;
        tx_buffer = replicate 11 0;
        received = pos 0;
      })

-- The string in a buffer that was all NUL before the call.
abbrev pub text_of : Option Bytes → Bytes
text_of none = []
text_of (some t) = c_string t

-- `inet_ntop(family, address, buffer, size)`: the text that it writes, or `none` where it fails and
-- leaves the buffer as it was.
module _ (inet_ntop : Family → Bytes → ℕ → Option Bytes) where
  -- The contents of `acIpAddr` after the call.
  unfoldable pub addr_text : SockAddr → Bytes
  addr_text a = text_of (inet_ntop a.family (get_in_addr a) 15)

  -- Lines 281 to 305: the thread takes its ID and stores its client's address.
  unfoldable pub enter : Server → Entry
  unfolding admit
  enter s = let text = addr_text s.client_addr in admit s text (ip_is_valid text)

-- Lines 307 to 331: the client is counted, learns of its opponent and is greeted.
unfoldable pub register : Server → Conn → Server × Conn × Bytes
register s c =
    let tx = memcpy c.tx_buffer (command c.client_id hello) 10 in
    (
      record s { num_clients = (s.num_clients + 1) % 256 },
      record c { opponent_id = opponent c.client_id; tx_buffer = tx },
      take 10 tx,
    )

-- What `recv(nSock, acRxBuffer, 10, 0)` returns: bytes, 0 at the end of the stream, or -1.
pub data Received : Type 0 where
  bytes : Bytes → Received
  closed failed : Received

abbrev pub size_of : Received → ℤ
size_of (bytes b) = pos (length b)
size_of closed = pos 0
size_of failed = negsuc 0

abbrev pub fill : Bytes → Received → Bytes
fill rx (bytes b) = b ++ drop (length b) rx
fill rx closed = rx
fill rx failed = rx

-- Lines 365 to 416: the answer to a request for the opponent's address.
unfoldable pub answer : Server → Conn → Conn × Bytes
answer s c =
    let ip = (s.clients c.opponent_id).ip in
    if get_or ip 0 0 == 0
    then (let tx = memcpy c.tx_buffer (codes "None\r\n") 6 in
        (record c { tx_buffer = tx }, take 6 tx))
    else (let tx =
          codes "IPOK"
          ++ (c.opponent_id
              ∷ get_or ip 0 0
              ∷ get_or ip 1 0
              ∷ get_or ip 2 0
              ∷ get_or ip 3 0
              ∷ 13
              ∷ 10
              ∷ []) in
        (record c { tx_buffer = tx }, take 11 tx))

-- Lines 345 to 361: the end of the conversation.
unfoldable pub say_bye : Server → Conn → Server × Conn × Bytes
say_bye s c =
    let tx = memcpy c.tx_buffer (command c.client_id cya) 10 in
    (
      record s { clients = set_ip s.clients c.opponent_id (0 ∷ 0 ∷ 0 ∷ 0 ∷ []) },
      record c { tx_buffer = tx; is_connected = false },
      take 5 tx,
    )

-- Lines 342 to 420: what is done with a full command.
unfoldable pub full_command : Server → Conn → Server × Conn × List Bytes
full_command s c =
    if memcmp_eq (command c.client_id bye) c.rx_buffer 3
    then (let (s', c', m) = say_bye s c in (s', c', m ∷ []))
    else if memcmp_eq (command c.client_id get_ip) c.rx_buffer 5
    then (let (c', m) = answer s c in (s, record c' { received = pos 0 }, m ∷ []))
    else (s, record c { received = pos 0 }, [])

-- Lines 334 to 421: one round of the loop.
unfoldable pub receive : Server → Conn → Received → Server × Conn × List Bytes
receive s c r =
    let c' = record c { rx_buffer = fill c.rx_buffer r; received = c.received +ℤ size_of r } in
    if geb_ℤ c'.received (pos 5) then full_command s c' else (s, c', [])

-- Lines 423 to 426.
unfoldable pub leave : Server → Server
leave s = record s { num_clients = (s.num_clients + 255) % 256 }

-- The loop over what `recv` returns, as far as it has returned; the loop is left where
-- `bIsConnected` is false.
unfoldable pub converse : Server → Conn → List Received → Server × Conn × List Bytes
converse s c [] = (s, c, [])
converse s c (r ∷ rs) =
    let (s', c', out) = receive s c r in
    let (s'', c'', more) = converse s' c' rs in
    if c.is_connected then (s'', c'', out ++ more) else (s, c, [])
