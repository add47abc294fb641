-- ===== src/Server/Conn/Reply.antt =====
-- The two commands of the conversation, and who is whose opponent.
use sneso_ip.Common.{
  ℕ, ◌%◌, ◌≤◌, ◌<◌, ◌≡◌, ◌≢◌, refl, false, [], ◌∷◌, ◌++◌, arith, codes, ◌==◌, if◌then◌else◌, get_or,
}
use sneso_ip.Common.Int.{pos, +ℤ_pos}
use sneso_ip.Server.State.{Server, set_ip}
use sneso_ip.Server.Conn.{Conn, bytes, command, opponent, answer, say_bye, full_command, receive}

-- The opponent of a client is another client whose opponent is the first, also where the ID wraps;
-- with an even limit both IDs are below it.
pub opponent_pairs :
    (id max : ℕ)
    → id < max
    → max ≤ 256
    → max % 2 ≡ 0
    → (opponent (opponent id) ≡ id) × (opponent id ≢ id) × (opponent id < max)
unfolding opponent
opponent_pairs id max h m even = ground arith

-- The message "Bye" and its line end in one piece, between two messages, is answered by "Cya" and
-- the line end, and the loop is left. The opponent's address becomes 0.0.0.0; the client's own
-- address and all else of the server's data stay as they are.
pub receive_bye :
    (s : Server) (c : Conn)
    → c.received ≡ pos 0
    → let (s', c', out) = receive s c (bytes (codes "Bye\r\n")) in
      (out ≡ codes "Cya\r\n" ∷ [])
      × (c'.is_connected ≡ false)
      × (s' ≡ record s { clients = set_ip s.clients c.opponent_id (0 ∷ 0 ∷ 0 ∷ 0 ∷ []) })
unfolding receive full_command say_bye command
receive_bye s c e = rw (e, +ℤ_pos 0 5) (refl, refl, refl)

-- The message "GetIP" and its line end in one piece, between two messages, is answered with the
-- opponent's ID and address, or with "None" where the first byte of that address is 0. The server's
-- data stay as they are, and the thread waits for the next message.
pub receive_get_ip :
    (s : Server) (c : Conn)
    → c.received ≡ pos 0
    → let (s', c', out) = receive s c (bytes (codes "GetIP\r\n")) in
      let ip = (s.clients c.opponent_id).ip in
      (s' ≡ s)
      × (c'.received ≡ pos 0)
      × (c'.is_connected ≡ c.is_connected)
      × (out
          ≡ (if get_or ip 0 0 == 0
              then codes "None\r\n"
              else codes "IPOK"
                ++ (c.opponent_id
                    ∷ get_or ip 0 0
                    ∷ get_or ip 1 0
                    ∷ get_or ip 2 0
                    ∷ get_or ip 3 0
                    ∷ 13
                    ∷ 10
                    ∷ []))
            ∷ [])
unfolding receive full_command answer command
receive_get_ip s c e = ground (arith, +ℤ_pos 0 7)
