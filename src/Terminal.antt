-- ===== src/Terminal.antt =====
-- Firmware/src/Terminal.c: the terminal that the device serves over TCP. The thread is in one of
-- three places: before `listen` and `accept`, before `recv`, or past its loops. The results of the
-- socket calls are arguments; logging is left out.
pub mod Text
pub mod Session
mod Tests
use sneso_ip.Common.{
  ℕ, zero, suc, ◌+◌, ◌%◌, Bool, true, false, not, Option, none, some, List, [], ◌∷◌, ◌++◌, Bytes,
  codes, ◌==◌, if◌then◌else◌, length, set, take, replicate, bytes_eq,
}
use sneso_ip.Common.Word.{bit}
use sneso_ip.Cstring.{c_string}

pub data Place : Type 0 where
  listening serving finished : Place

-- `Terminal`, with the place of its thread.
pub record Terminal : Type 0 where
  pub is_running : Bool
  pub host_connected : Bool
  pub place : Place

-- `InitTerminal`, and the line before the loop of the thread.
unfoldable pub init : Terminal
init = record { is_running = true; host_connected = false; place = listening }

-- `DeInitTerminal`.
unfoldable pub de_init : Terminal → Terminal
de_init t = record t { is_running = false }

-- `IsHostConnected`.
unfoldable pub is_host_connected : Terminal → Bool
is_host_connected t = if t.host_connected then true else false

-- `_CheckCommand`: whether the received string begins with the command.
unfoldable pub check_command : Bytes → Bytes → Bool
check_command rx command = bytes_eq (take (length command) rx) (take (length command) command)

abbrev pub version : Bytes
version = codes "SNESoIP Rev. 3\r\n"

-- Lines 210 to 221: `n` rounds from `u8Bit` on, which fill `acInputData` from its end.
unfoldable pub write_bits : ℕ → ℕ → ℕ → ℕ → Bytes → Bytes
write_bits zero input_data bit_no index text = text
write_bits (suc n) input_data bit_no index text =
    write_bits n input_data (bit_no + 1) ((index + 255) % 256)
      (set text index (if bit input_data bit_no == 1 then b'1' else b'0'))

-- Lines 207 to 224: the 18 bytes of `acInputData`.
unfoldable pub input_text : ℕ → Bytes
unfolding write_bits
input_text input_data = set (set (write_bits 16 input_data 0 15 (replicate 18 0)) 16 b'\r') 17 b'\n'

-- Lines 193 to 226: what is sent for received bytes. The length of the answer to "input" is taken by
-- `strlen`, which reads on behind the array up to the first NUL: `behind` is what it finds there.
unfoldable pub reply : ℕ → Bytes → Bytes → Option Bytes
reply input_data behind b =
    let rx = c_string b in
    if check_command rx (codes "version")
    then some version
    else if check_command rx (codes "input")
    then some (input_text input_data ++ behind)
    else none

-- What `listen` and `accept` come to.
pub data Listened : Type 0 where
  listen_failed accept_failed accepted : Listened

-- What `recv` returns: bytes, 0 at the end of the stream, or -1.
pub data Received : Type 0 where
  bytes : Bytes → Received
  closed failed : Received

-- Lines 230 to 237 with the test of the outer loop left to its next round.
unfoldable pub end_session : Terminal → Terminal
end_session t = record t { host_connected = false; place = listening }

-- Lines 130 to 167: one round of the outer loop, up to the inner one.
unfoldable pub outer_round : Terminal → Listened → Terminal
outer_round t l =
    if t.is_running
    then (elim l [
      | listen_failed ↦ record t { place = finished }
      | accept_failed ↦ record t { place = finished }
      | accepted ↦ record t { host_connected = true; place = serving }
    ])
    else record t { place = finished }

-- Lines 169 to 228: one round of the inner loop.
unfoldable pub inner_round : Terminal → Received → Terminal
inner_round t r =
    if t.is_running
    then (elim r [ bytes b ↦ t | closed ↦ end_session t | failed ↦ end_session t ])
    else end_session t

-- What happens next: a result for the thread, or a call of `DeInitTerminal` by another task.
pub data Event : Type 0 where
  listens : Listened → Event
  receives : Received → Event
  stops : Event

unfoldable pub advance : Place → Terminal → Event → Terminal
advance listening t (listens l) = outer_round t l
advance serving t (receives r) = inner_round t r
advance p t stops = de_init t
advance p t _ = t

-- A result that the thread does not wait for where it stands changes nothing.
unfoldable pub step : Terminal → Event → Terminal
step t e = advance t.place t e

unfoldable pub steps : Terminal → List Event → Terminal
steps t [] = t
steps t (e ∷ es) = steps (step t e) es
