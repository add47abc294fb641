-- ===== src/Vsnesoip/Login.antt =====
-- The login of Archive/Rev2/utils/vsnesoip/login.c up to the search for a port: `init_login` behind
-- the connection to the login server, as a machine that takes what each `recv` gives. Where `send`
-- fails is left out.
pub mod Agree
use sneso_ip.Common.{
  ℕ, zero, suc, ◌+◌, ◌-◌, Bool, true, false, List, [], ◌∷◌, ◌++◌, Bytes, ltb, ◌==◌, if◌then◌else◌,
  get_or, take, drop, replicate, length, bytes_eq,
}
use sneso_ip.Cstring.{c_string}
use sneso_ip.Vsnesoip.Password.{raw_crypt}

-- `_SNESoIP_username`, `_SNESoIP_password` and `_SNESoIP_key`.
pub record Account : Type 0 where
  pub username : Bytes
  pub password : Bytes
  pub key : Bytes

-- What the login waits for: the answer to HELO, to USER, the initial vector, the answer to PASS; or
-- its result.
pub data Stage : Type 0 where
  greeting naming challenge proving : Stage
  logged_in refused : Stage

-- `messageBuffer` and `totalBytesRcvd`.
pub record Client : Type 0 where
  pub stage : Stage
  pub buffer : Bytes
  pub total : ℕ

-- A message with its NUL.
abbrev pub message : Bytes → Bytes
message text = take 1023 text ++ (0 ∷ [])

abbrev pub helo_message : Bytes
helo_message = message (
    b'H' ∷ b'E' ∷ b'L' ∷ b'O' ∷ 32 ∷ b'V' ∷ b'S' ∷ b'N' ∷ b'E' ∷ b'S' ∷ b'O' ∷ b'I' ∷ b'P' ∷ 10
    ∷ [])

abbrev pub user_text : Bytes
user_text = b'U' ∷ b'S' ∷ b'E' ∷ b'R' ∷ 32 ∷ []

abbrev pub pass_text : Bytes
pass_text = b'P' ∷ b'A' ∷ b'S' ∷ b'S' ∷ 32 ∷ []

abbrev pub ok_answer : Bytes
ok_answer = b'O' ∷ b'K' ∷ 10 ∷ []

abbrev pub user_message : Account → Bytes
user_message a = message (user_text ++ a.username)

-- The ten bytes that `trivium_init` reads of `_SNESoIP_key`, a global array, which has NULs behind its
-- text.
abbrev pub client_key : Account → Bytes
client_key a = take 10 (a.key ++ replicate 10 0)

-- The message with the password, encrypted with the initial vector in the buffer. `printed` is what
-- `snprintf` prints for the password, which it is given as its format.
abbrev pub pass_message : (Bytes → Bytes) → (Bytes → Bytes → ℕ → ℕ) → Account → Bytes → Bytes
pass_message printed keystream a buffer =
    let stream = keystream (client_key a) (take 10 buffer) in
    message (pass_text ++ raw_crypt stream (take 255 (printed a.password)))

-- `recv` into the buffer, with a NUL behind it.
unfoldable pub receive : Client → Bytes → Client
receive c piece = record c {
  buffer = piece ++ 0 ∷ drop (length piece + 1) c.buffer;
  total = c.total + length piece;
}

-- `messageBuffer[totalBytesRcvd-1] == '\n'`.
abbrev pub is_line : Client → Bool
is_line c = get_or c.buffer (c.total - 1) 0 == 10

abbrev pub go : Client → Stage → Client
go c stage = record c { stage = stage; total = 0 }

abbrev pub says_ok : Client → Bool
says_ok c = bytes_eq ok_answer (c_string c.buffer)

module _ (printed : Bytes → Bytes) (keystream : Bytes → Bytes → ℕ → ℕ) (a : Account) where
  -- What follows from a received piece: the next stage, and the messages that are sent.
  unfoldable pub on_piece : Stage → Client → Client × List Bytes
  on_piece greeting c = if is_line c then (go c naming, user_message a ∷ []) else (c, [])
  on_piece naming c =
      if is_line c
      then (if says_ok c then (go c challenge, []) else (go c refused, []))
      else (c, [])
  on_piece challenge c =
      if ltb 10 c.total
      then (go c proving, pass_message printed keystream a c.buffer ∷ [])
      else (c, [])
  on_piece proving c = if says_ok c then (go c logged_in, []) else (go c refused, [])
  on_piece logged_in c = (c, [])
  on_piece refused c = (c, [])

  abbrev pub is_over : Stage → Bool
  is_over logged_in = true
  is_over refused = true
  is_over greeting = false
  is_over naming = false
  is_over challenge = false
  is_over proving = false

  -- One `recv`; no bytes are an error, or the end of the connection.
  unfoldable pub step : Client → Bytes → Client × List Bytes
  step c piece =
      if is_over c.stage
      then (c, [])
      else if length piece == 0
      then (go c refused, [])
      else on_piece c.stage (receive c piece)

  unfoldable pub steps : Client → List Bytes → Client × List Bytes
  steps c [] = (c, [])
  steps c (piece ∷ pieces) =
      let (c', out) = step c piece in let (c'', more) = steps c' pieces in (c'', out ++ more)

-- The start, with what the buffer holds.
unfoldable pub connect : Bytes → Client × List Bytes
connect garbage = (record { stage = greeting; buffer = garbage; total = 0 }, helo_message ∷ [])
