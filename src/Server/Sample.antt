-- ===== src/Server/Sample.antt =====
-- A concrete server for the tests: a stand-in for `inet_ntop`, clients with addresses, and a table
-- that holds 0.0.0.0 everywhere.
use sneso_ip.Common.{
  ℕ, refl, true, Option, none, some, [], ◌∷◌, arith, Bytes, ltb, if◌then◌else◌, length, replicate,
}
use sneso_ip.CommonInclude.Ip.Spec.{dotted_quad}
use sneso_ip.Server.Config.{Config}
use sneso_ip.Server.State.{Family, inet, SockAddr, Client, Server}
use sneso_ip.Server.Conn.{Conn}
use sneso_ip.Server.Conn.Address.{IsInetNtop, HasAddr, new_conn}

abbrev pub ntop : Family → Bytes → ℕ → Option Bytes
ntop inet (a ∷ b ∷ c ∷ d ∷ []) size =
    if ltb (length (dotted_quad a b c d)) size then some (dotted_quad a b c d) else none
ntop _ _ size = none

pub ntop-IsInetNtop : IsInetNtop ntop
ntop-IsInetNtop = record { writes = λ a b c d size ha hb hc hd. refl }

abbrev pub peer : ℕ → ℕ → ℕ → ℕ → SockAddr
peer a b c d = record { family = inet; sin_addr = a ∷ b ∷ c ∷ d ∷ []; sin6_addr = replicate 16 0 }

abbrev pub config : Config
config = record { port = 54350; max_clients = 4; verbose = 0; addr = replicate 15 0 }

abbrev pub no_client : ℕ → Client
no_client i = record { port_data = 0; ip = 0 ∷ 0 ∷ 0 ∷ 0 ∷ [] }

-- One client is registered, and one with the address 10.0.0.3 has just been accepted.
abbrev pub server : Server
server = record {
  client_addr = peer 10 0 0 3;
  is_running = true;
  num_clients = 1;
  config = config;
  clients = no_client;
}

pub peer-HasAddr : HasAddr (peer 10 0 0 3) 10 0 0 3
peer-HasAddr = (refl, refl, omega arith, omega arith, omega arith, omega arith)

-- The first client's thread.
abbrev pub first : Conn
first = record (new_conn 0) { opponent_id = 1 }
