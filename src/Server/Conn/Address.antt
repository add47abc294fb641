-- ===== src/Server/Conn/Address.antt =====
-- How a client's address gets into the table and to its opponent.
use sneso_ip.Common.{
  ℕ, ◌≤◌, ◌<◌, ◌≡◌, ◌≢◌, refl, Bool, true, false, Option, none, some, [], ◌∷◌, ◌++◌, arith, Bytes,
  codes, ltb, lt→ltb, if◌then◌else◌, length, replicate,
}
use sneso_ip.Common.Int.{pos}
use sneso_ip.Cstring.{IsCstring, c_string, print_u8}
use sneso_ip.CommonInclude.Ip.{ip_is_valid, ip_is_valid_fuel}
use sneso_ip.CommonInclude.Ip.Spec.{dotted_quad}
use sneso_ip.CommonInclude.Ip.Read.{
  str_to_ip-dotted_quad, print_u8-IsOctet, join4-IsCstring, length-join4,
}
use sneso_ip.Server.State.{Family, inet, SockAddr, Server, get_in_addr, set_ip}
use sneso_ip.Server.Conn.{
  Conn, refused, entered, bytes, text_of, addr_text, enter, register, receive, command, opponent,
}
use sneso_ip.Server.Conn.Reply.{receive_get_ip}

-- `inet_ntop` as it is documented for IPv4: it writes the dotted text with its NUL, or fails where
-- the buffer is too small for them.
pub record IsInetNtop (inet_ntop : Family → Bytes → ℕ → Option Bytes) : Type 0 where
  pub writes :
      (a b c d size : ℕ)
      → a < 256
      → b < 256
      → c < 256
      → d < 256
      → inet_ntop inet (a ∷ b ∷ c ∷ d ∷ []) size
        ≡ (if ltb (length (dotted_quad a b c d)) size then some (dotted_quad a b c d) else none)

c_string_lem : (s : Bytes) → IsCstring s → c_string s ≡ s
c_string_lem [] h = refl
c_string_lem (c ∷ s) h = ground (arith, c_string_lem s h.1)

dotted_quad-IsCstring :
    (a b c d : ℕ) → a < 256 → b < 256 → c < 256 → d < 256 → IsCstring (dotted_quad a b c d)
dotted_quad-IsCstring a b c d ha hb hc hd =
    join4-IsCstring (print_u8 a) (print_u8 b) (print_u8 c) (print_u8 d) (print_u8-IsOctet a ha).4
      (print_u8-IsOctet b hb).4 (print_u8-IsOctet c hc).4 (print_u8-IsOctet d hd).4

text_of_if :
    (fits : Bool) (t : Bytes)
    → IsCstring t
    → text_of (if fits then some t else none) ≡ (if fits then t else [])
text_of_if true t h = c_string_lem t h
text_of_if false t h = refl

-- An IPv4 client with the address a.b.c.d.
abbrev pub HasAddr : SockAddr → ℕ → ℕ → ℕ → ℕ → Type 0
HasAddr p a b c d =
    (p.family ≡ inet)
    × (p.sin_addr ≡ a ∷ b ∷ c ∷ d ∷ [])
    × (a < 256)
    × (b < 256)
    × (c < 256)
    × (d < 256)

abbrev pub new_conn : ℕ → Conn
new_conn id = record {
  client_id = id;
  opponent_id = 0;
  is_connected = true;
  rx_buffer = replicate 10 0;
  tx_buffer = replicate 11 0;
  received = pos 0;
}

print_u8_long : (n : ℕ) → 100 ≤ n → length (print_u8 n) ≡ 3
unfolding print_u8
print_u8_long n h = ground arith

long_text :
    (a b c d : ℕ)
    → (100 ≤ a) × (100 ≤ b) × (100 ≤ c) × (100 ≤ d)
    → (a < 256) × (b < 256) × (c < 256) × (d < 256)
    → ltb (length (dotted_quad a b c d)) 15 ≡ false
long_text a b c d (la, lb, lc, ld) h =
    let size = length-join4 (print_u8 a) (print_u8 b) (print_u8 c) (print_u8 d) in
    ground
      (arith, size, print_u8_long a la, print_u8_long b lb, print_u8_long c lc, print_u8_long d ld)

nil_refused : ip_is_valid [] ≡ some false
unfolding ip_is_valid ip_is_valid_fuel
nil_refused = refl

module _ (inet_ntop : Family → Bytes → ℕ → Option Bytes) (ntop : IsInetNtop inet_ntop) where
  addr_text_lem :
      (p : SockAddr) (a b c d : ℕ)
      → HasAddr p a b c d
      → addr_text inet_ntop p
        ≡ (if ltb (length (dotted_quad a b c d)) 15 then dotted_quad a b c d else [])
  unfolding addr_text get_in_addr
  addr_text_lem p a b c d (f, e, ha, hb, hc, hd) =
      rw (f, e, ntop.writes a b c d 15 ha hb hc hd)
        (text_of_if _ (dotted_quad a b c d) (dotted_quad-IsCstring a b c d ha hb hc hd))

  -- A client whose address has at most 14 characters gets the number of clients so far as its ID,
  -- and the four bytes of its address are stored under that ID.
  pub enter_stores :
      (s : Server) (a b c d x₀ x₁ x₂ x₃ : ℕ)
      → HasAddr s.client_addr a b c d
      → length (dotted_quad a b c d) < 15
      → (s.clients s.num_clients).ip ≡ x₀ ∷ x₁ ∷ x₂ ∷ x₃ ∷ []
      → enter inet_ntop s
        ≡ entered
            (record s { clients = set_ip s.clients s.num_clients (a ∷ b ∷ c ∷ d ∷ []) })
            (new_conn s.num_clients)
  unfolding enter
  enter_stores s a b c d x₀ x₁ x₂ x₃ h short old =
      let (valid, read) = str_to_ip-dotted_quad a b c d x₀ x₁ x₂ x₃ [] h.2 h.3 h.4 h.5 in
      rw (addr_text_lem s.client_addr a b c d h, lt→ltb _ _ short, valid, old, read)

  -- A client is turned away if all four numbers of its address are at least 100: the text takes 15
  -- characters, and the buffer of 15 has no room for its NUL.
  pub enter_refuses :
      (s : Server) (a b c d : ℕ)
      → HasAddr s.client_addr a b c d
      → 100 ≤ a
      → 100 ≤ b
      → 100 ≤ c
      → 100 ≤ d
      → enter inet_ntop s ≡ refused
  unfolding enter
  enter_refuses s a b c d h la lb lc ld =
      let long = long_text a b c d (la, lb, lc, ld) (h.2, h.3, h.4, h.5) in
      rw (addr_text_lem s.client_addr a b c d h, long, nil_refused)

  -- What an opponent learns: a client whose address has at most 14 characters and does not begin
  -- with 0 enters and registers. It is greeted with its ID, takes the ID of its neighbour for its
  -- opponent's, and a thread whose opponent it is answers "GetIP" with its ID and its address.
  pub get_ip-enter :
      (s : Server) (a b c d x₀ x₁ x₂ x₃ : ℕ) (r : Conn)
      → HasAddr s.client_addr a b c d
      → length (dotted_quad a b c d) < 15
      → (s.clients s.num_clients).ip ≡ x₀ ∷ x₁ ∷ x₂ ∷ x₃ ∷ []
      → a ≢ 0
      → r.opponent_id ≡ s.num_clients
      → r.received ≡ pos 0
      → (s₁ : Server) × (c₁ : Conn) × (enter inet_ntop s ≡ entered s₁ c₁)
        × ((register s₁ c₁).2 ≡ codes "Hello" ++ (s.num_clients ∷ 13 ∷ 10 ∷ 0 ∷ 0 ∷ []))
        × ((register s₁ c₁).1.opponent_id ≡ opponent s.num_clients)
        × ((receive (register s₁ c₁).0 r (bytes (codes "GetIP\r\n"))).2
            ≡ (codes "IPOK" ++ (s.num_clients ∷ a ∷ b ∷ c ∷ d ∷ 13 ∷ 10 ∷ [])) ∷ [])
  unfolding register command
  get_ip-enter s a b c d x₀ x₁ x₂ x₃ r h short old ne e z =
      let s₁ = record s { clients = set_ip s.clients s.num_clients (a ∷ b ∷ c ∷ d ∷ []) } in
      let c₁ = new_conn s.num_clients in
      (
        s₁,
        c₁,
        enter_stores s a b c d x₀ x₁ x₂ x₃ h short old,
        refl,
        refl,
        ground (arith, receive_get_ip (register s₁ c₁).0 r z),
      )
