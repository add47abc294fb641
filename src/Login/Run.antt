-- ===== src/Login/Run.antt =====
-- The commands HELO and QUIT of `tcp_server_read`, and its loop.
pub mod Access
pub mod Invariant
pub mod Ending
pub mod User
pub mod Password
pub mod Opponent
pub mod Sizes
use sneso_ip.Common.{
  ℕ, zero, suc, ◌+◌, ◌/◌, ◌%◌, Bool, true, false, not, ◌&&◌, ◌||◌, List, [], ◌∷◌, ◌++◌, Bytes, ◌==◌,
  if◌then◌else◌, take, drop, length,
}
use sneso_ip.Cstring.{c_string, memcmp_eq, print_u8, dot}
use sneso_ip.Login.{
  Setting, Session, World, Status, running, ended, is_running, say, stop, clean_up,
}
use sneso_ip.Login.Credentials.{user_command, pass_command}
use sneso_ip.Login.Port.{port_command}

-- `"%i.%i.%i.%i"` of the address.
unfoldable pub peer_text : ℕ → Bytes
peer_text peer =
    print_u8 (peer % 256)
    ++ (dot ∷ [])
    ++ (print_u8 (peer / 256 % 256)
        ++ (dot ∷ [])
        ++ (print_u8 (peer / 65536 % 256) ++ (dot ∷ []) ++ print_u8 (peer / 16777216 % 256)))

abbrev helo_word : Bytes
helo_word = b'H' ∷ b'E' ∷ b'L' ∷ b'O' ∷ []

abbrev client_word : Bytes
client_word = 32 ∷ b'c' ∷ b'l' ∷ b'i' ∷ b'e' ∷ b'n' ∷ b't' ∷ b':' ∷ []

abbrev pub is_helo : Session → Bool
is_helo s = memcmp_eq s.buf helo_word 4 && not s.greet_set

-- HELO.
unfoldable pub helo_command : {Db : Type 0} → Setting Db → World Db → World Db
helo_command env w =
    let text = peer_text env.peer in
    let greeted = record w {
      session = record w.session { curr_ip = take 31 text; greet_set = true };
    } in
    if is_running w.status && is_helo w.session
    then say (take 63 (helo_word ++ client_word ++ text ++ (10 ∷ []))) greeted
    else w

abbrev pub quit_word : Bytes
quit_word = b'Q' ∷ b'U' ∷ b'I' ∷ b'T' ∷ []

-- QUIT.
unfoldable pub quit_command : {Db : Type 0} → Setting Db → World Db → World Db
quit_command env w =
    if is_running w.status && memcmp_eq w.session.buf quit_word 4
    then stop ended (clean_up env w)
    else w

-- What a `read` gives, and what `rand` would give then; no bytes are the end of the connection, or
-- an error.
pub record Input : Type 0 where
  pub bytes : Bytes
  pub rand : ℕ → ℕ

-- `read` into the buffer.
abbrev pub receive : {Db : Type 0} → Bytes → World Db → World Db
receive bytes w = record w {
  session = record w.session { buf = bytes ++ drop (length bytes) w.session.buf };
}

unfoldable pub commands : {Db : Type 0} → Setting Db → Input → World Db → World Db
commands env i w =
    let n = length i.bytes in
    quit_command env (
      helo_command env
        (port_command env n (pass_command env n (user_command env i.rand n (receive i.bytes w)))))

-- One round of the loop.
unfoldable pub round : {Db : Type 0} → Setting Db → Input → World Db → World Db
round env i w =
    if is_running w.status
    then (if (length i.bytes == 0) || (w.session.brutforce_counter == 5)
        then stop ended (clean_up env w)
        else commands env i w)
    else w

-- The loop.
unfoldable pub tcp_server_read : {Db : Type 0} → Setting Db → List Input → World Db → World Db
tcp_server_read env [] w = w
tcp_server_read env (i ∷ more) w = tcp_server_read env more (round env i w)

-- The variables at the start, with what the buffers hold before.
unfoldable pub connected : {Db : Type 0} → Db → Bytes → Bytes → World Db
connected db garbage name = record {
  db = db;
  session = record {
    buf = garbage;
    username = name;
    curr_ip = [];
    session_string = [];
    user_set = false;
    greet_set = false;
    auth_set = false;
    brutforce_counter = 0;
  };
  acts = [];
  status = running;
}
