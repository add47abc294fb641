-- ===== src/Server/Conn/Stream.antt =====
-- What the conversation loop makes of a byte stream that does not arrive message by message.
use sneso_ip.Common.{
  ℕ, zero, suc, ◌<◌, ◌≡◌, refl, true, [], ◌∷◌, arith, codes, take, drop, replicate,
}
use sneso_ip.Common.Int.{pos, +ℤ_pos}
use sneso_ip.Server.State.{Server}
use sneso_ip.Server.Conn.{Conn, bytes, closed, command, full_command, receive, converse}

receive_closed :
    (s : Server) (c : Conn) (k : ℕ) → c.received ≡ pos k → k < 5 → receive s c closed ≡ (s, c, [])
unfolding receive
receive_closed s c k e lt = ground (arith, +ℤ_pos k 0)

-- When the client has closed its connection between two messages, `recv` returns 0 from then on, and
-- the thread never leaves its loop: after any number of rounds it is in the state in which it was,
-- still counts as connected, and has sent nothing.
pub converse_closed :
    (s : Server) (c : Conn) (k n : ℕ)
    → c.is_connected ≡ true
    → c.received ≡ pos k
    → k < 5
    → converse s c (replicate n closed) ≡ (s, c, [])
unfolding converse
converse_closed s c k zero up e lt = refl
converse_closed s c k (suc n) up e lt =
    ground (arith, receive_closed s c k e lt, converse_closed s c k n up e lt)

-- A "Bye" message that arrives in two pieces is not recognised, wherever it is cut: nothing is
-- answered, the client stays connected, and the server's data do not change.
pub converse_split_bye :
    (s : Server) (c : Conn) (k : ℕ)
    → c.is_connected ≡ true
    → c.received ≡ pos 0
    → 0 < k
    → k < 5
    → let (s', c', out) =
        converse s c (bytes (take k (codes "Bye\r\n")) ∷ bytes (drop k (codes "Bye\r\n")) ∷ []) in
      (s' ≡ s) × (c'.is_connected ≡ true) × (out ≡ [])
unfolding converse receive full_command command
converse_split_bye s c zero up e lo hi = absurd (omega arith)
converse_split_bye s c (suc zero) up e lo hi = ground (arith, +ℤ_pos 0 1, +ℤ_pos 1 4)
converse_split_bye s c (suc (suc zero)) up e lo hi = ground (arith, +ℤ_pos 0 2, +ℤ_pos 2 3)
converse_split_bye s c (suc (suc (suc zero))) up e lo hi = ground (arith, +ℤ_pos 0 3, +ℤ_pos 3 2)
converse_split_bye s c (suc (suc (suc (suc zero)))) up e lo hi =
    ground (arith, +ℤ_pos 0 4, +ℤ_pos 4 1)
converse_split_bye s c (suc (suc (suc (suc (suc k))))) up e lo hi = absurd (omega arith)
