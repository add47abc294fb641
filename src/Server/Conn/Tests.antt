-- ===== src/Server/Conn/Tests.antt =====
-- Runs of the connection handler, and its theorems at concrete inputs.
use sneso_ip.Common.{
  ◌<◌, ◌≡◌, refl, true, false, [], ◌∷◌, ◌++◌, arith, codes, length, take, replicate,
}
use sneso_ip.Common.Int.{pos}
use sneso_ip.CommonInclude.Ip.Spec.{dotted_quad}
use sneso_ip.Cstring.{print_u8}
use sneso_ip.Server.State.{Server, set_ip}
use sneso_ip.Server.Conn.{bytes, closed, enter, entered, refused, receive, converse, command, hello}
use sneso_ip.Server.Conn.Reply.{receive_bye, receive_get_ip}
use sneso_ip.Server.Conn.Address.{new_conn, enter_stores, enter_refuses}
use sneso_ip.Server.Conn.Stream.{converse_closed}
use sneso_ip.Server.Sample.{ntop, ntop-IsInetNtop, peer, server, peer-HasAddr, first}

greeting : take 8 (command 1 hello) ≡ codes "Hello" ++ (1 ∷ 13 ∷ 10 ∷ [])
unfolding command
greeting = refl

receive_bye_example :
    let (s', c', out) = receive server first (bytes (codes "Bye\r\n")) in
    (out ≡ codes "Cya\r\n" ∷ [])
    × (c'.is_connected ≡ false)
    × (s' ≡ record server { clients = set_ip server.clients 1 (0 ∷ 0 ∷ 0 ∷ 0 ∷ []) })
receive_bye_example = receive_bye server first refl

served : Server
served = record server { clients = set_ip server.clients 1 (10 ∷ 0 ∷ 0 ∷ 3 ∷ []) }

receive_get_ip_example :
    let (s', c', out) = receive server first (bytes (codes "GetIP\r\n")) in
    (s' ≡ server) × (c'.received ≡ pos 0) × (c'.is_connected ≡ true) × (out ≡ codes "None\r\n" ∷ [])
receive_get_ip_example = receive_get_ip server first refl

short_addr : length (dotted_quad 10 0 0 3) < 15
unfolding print_u8
short_addr = omega arith

enter_stores_example :
    enter ntop server
    ≡ entered
        (record server { clients = set_ip server.clients 1 (10 ∷ 0 ∷ 0 ∷ 3 ∷ []) })
        (new_conn 1)
enter_stores_example =
    enter_stores ntop ntop-IsInetNtop server 10 0 0 3 0 0 0 0 peer-HasAddr short_addr refl

abbrev far : Server
far = record server { client_addr = peer 192 168 100 100 }

enter_refuses_example : enter ntop far ≡ refused
enter_refuses_example =
    enter_refuses ntop ntop-IsInetNtop far 192 168 100 100
      (refl, refl, omega arith, omega arith, omega arith, omega arith) (omega arith) (omega arith)
      (omega arith) (omega arith)

converse_closed_example : converse server first (replicate 100 closed) ≡ (server, first, [])
converse_closed_example = converse_closed server first 0 100 refl refl (omega arith)
