-- ===== src/Rev2/Snesio.antt =====
-- The serial controller words of Archive/Rev2/firmware/src/snesio.c. The levels of the pins are
-- arguments and results; the delays and the waits for the clock are left out.
pub mod Wire
mod Tests
use sneso_ip.Common.{ℕ, zero, suc, ◌+◌, Bool, true, false, not, List, [], ◌∷◌, ◌==◌, if◌then◌else◌}
use sneso_ip.Common.Word.{bit, set_bit}

-- The loop of `recvInput`: `n` rounds from bit `i` on, where the data pin has a level in each.
unfoldable pub recv_bits : (ℕ → Bool) → ℕ → ℕ → ℕ → ℕ
recv_bits levels zero i input = input
recv_bits levels (suc n) i input =
    recv_bits levels n (i + 1) (if levels i then set_bit input i else input)

-- `recvInput`.
unfoldable pub recv_input : (ℕ → Bool) → ℕ
recv_input levels = recv_bits levels 16 0 0

-- The level that a data pin gets for a bit.
unfoldable pub level : ℕ → ℕ → Bool
level port i = not (bit port i == 0)

-- The loop of `sendOutput`: the levels of both data pins at each clock, for `n` rounds from bit `i`.
unfoldable pub send_bits : ℕ → ℕ → ℕ → ℕ → List (Bool × Bool)
send_bits port0 port1 zero i = []
send_bits port0 port1 (suc n) i = (level port0 i, level port1 i) ∷ send_bits port0 port1 n (i + 1)

-- `sendOutput`.
unfoldable pub send_output : ℕ → ℕ → List (Bool × Bool)
send_output port0 port1 = send_bits port0 port1 16 0
