-- ===== src/ExchangeClient/Exchange.antt =====
-- The client against the server of Server/src/Server.c: what each learns from the other's messages.
use sneso_ip.Common.{
  ℕ, ◌<◌, ◌≡◌, ◌≢◌, Option, List, [], ◌∷◌, ◌++◌, arith, Bytes, codes, length, take,
}
use sneso_ip.Common.Int.{ℤ, pos}
use sneso_ip.CommonInclude.Ip.Spec.{dotted_quad}
use sneso_ip.Server.State.{Family, Server}
use sneso_ip.Server.Conn
use sneso_ip.Server.Conn.{Conn, enter, entered, register, receive, command, hello}
use sneso_ip.Server.Conn.Address.{IsInetNtop, HasAddr, get_ip-enter}
use sneso_ip.ExchangeClient.{
  ExchangeClient, Locals, bytes, failed, send_request, handle, take_received, round,
}

-- The bytes of the messages that were sent, one behind the other.
abbrev pub wire : List Bytes → Bytes
wire [] = []
wire (m ∷ ms) = m ++ wire ms

-- In stage 0, with no error before, the server's greeting gives the client the ID under which the server stores it.
pub round_hello :
    (k : ExchangeClient) (l : Locals) (n : ℕ) (s : Server) (c : Conn)
    → k.stage ≡ 0
    → l.err ≡ pos n
    → length c.tx_buffer ≡ 11
    → (sent : ℤ)
    → (round k l sent (bytes (register s c).2)).0 ≡ record k { client_id = c.client_id; stage = 1 }
unfolding round send_request take_received handle register command
round_hello k l n s c st e len sent = ground arith

ipok_round :
    (k : ExchangeClient) (l : Locals) (n id a b c d : ℕ)
    → k.stage ≡ 1
    → (round k l (pos n) (bytes (codes "IPOK" ++ (id ∷ a ∷ b ∷ c ∷ d ∷ 13 ∷ [])))).0
      ≡ record k { opponent_id = id; ip_addr = a ∷ b ∷ c ∷ d ∷ []; stage = 2 }
unfolding round send_request take_received handle
ipok_round k l n id a b c d st = ground arith

request_round :
    (k : ExchangeClient) (l : Locals) (n : ℕ)
    → k.stage ≡ 1
    → (round k l (pos n) failed).2 ≡ codes "GetIP\r\n" ∷ []
unfolding round send_request take_received
request_round k l n st = ground arith

module _ (inet_ntop : Family → Bytes → ℕ → Option Bytes) (ntop : IsInetNtop inet_ntop) where
  -- A client enters and registers, with an address of at most 14 characters that does not begin with
  -- 0. The client in the neighbouring slot, in stage 1, requests its opponent's address; with the
  -- first ten bytes that its thread of the server answers it has the ID and the address of the client
  -- that entered, and is in stage 2.
  pub round_learns :
      (s : Server) (a b c d x₀ x₁ x₂ x₃ : ℕ) (r : Conn) (k : ExchangeClient) (l : Locals) (n : ℕ)
      → HasAddr s.client_addr a b c d
      → length (dotted_quad a b c d) < 15
      → (s.clients s.num_clients).ip ≡ x₀ ∷ x₁ ∷ x₂ ∷ x₃ ∷ []
      → a ≢ 0
      → r.opponent_id ≡ s.num_clients
      → r.received ≡ pos 0
      → k.stage ≡ 1
      → (s₁ : Server) × (c₁ : Conn) × (enter inet_ntop s ≡ entered s₁ c₁)
        × (let request = (round k l (pos n) failed).2 in
            let reply = (receive (register s₁ c₁).0 r (Conn.bytes (wire request))).2 in
            (round k l (pos n) (bytes (take 10 (wire reply)))).0
            ≡ record k { opponent_id = s.num_clients; ip_addr = a ∷ b ∷ c ∷ d ∷ []; stage = 2 })
  round_learns s a b c d x₀ x₁ x₂ x₃ r k l n h short old ne e z st =
      let (s₁, c₁, en, _, _, ans) =
        get_ip-enter inet_ntop ntop s a b c d x₀ x₁ x₂ x₃ r h short old ne e z in
      (s₁, c₁, en, rw (request_round k l n st, ans) (ipok_round k l n s.num_clients a b c d st))
