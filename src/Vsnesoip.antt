-- ===== src/Vsnesoip.antt =====
-- The virtual device of Archive/Rev2/utils/vsnesoip/vsnesoip.c: its buttons, the report for the
-- virtual game pad, the keyboard mode, and what comes from the opponent. Log lines and delays are
-- left out, and so is the result of a write to the game pad device.
pub mod Joystick
pub mod Report
pub mod Wire
pub mod Remote
pub mod Password
pub mod Ports
pub mod Master
pub mod Login
pub mod Config
mod Tests
use sneso_ip.Common.{
  ℕ, zero, suc, ◌+◌, ◌-◌, ◌*◌, ◌/◌, ◌%◌, Bool, true, false, not, Option, none, some, List, [], ◌∷◌,
  ◌++◌, Bytes, ltb, ◌==◌, if◌then◌else◌, get_or, set, drop, length,
}
use sneso_ip.Common.Word.{bit, set_bit, clear_bit}
use sneso_ip.Cstring.{strtol16, to_u8}

-- `btn1_down` to `btn24_down`, by their numbers, and the bytes `b0` and `b1` for the opponent.
pub record Pad : Type 0 where
  pub button : ℕ → Bool
  pub b0 : ℕ
  pub b1 : ℕ

-- The static variables at the start.
unfoldable pub released : Pad
released = record { button = λ k. false; b0 = 0; b1 = 0 }

abbrev pub with_button : (ℕ → Bool) → ℕ → Bool → ℕ → Bool
with_button button k v j = if k == j then v else button j

-- `n` of the tests of `send_event` from button `i + 1` on: button `k` has bit `(k - 1) % 8` of byte
-- `(k - 1) / 8`.
unfoldable pub mark : (ℕ → Bool) → ℕ → ℕ → Bytes → Bytes
mark button zero i report = report
mark button (suc n) i report = mark button n (i + 1) (
    if button (i + 1)
    then set report (i / 8) (set_bit (get_or report (i / 8) 0) (i % 8))
    else report)

-- `send_event`: the first three bytes of the report; the others are 0.
unfoldable pub send_event : Bool → Pad → Bytes
send_event disable_p1 p =
    let none_yet = 0 ∷ 0 ∷ 0 ∷ [] in
    mark p.button 12 12 (if disable_p1 then none_yet else mark p.button 12 0 none_yet)

-- The button of a key in the keyboard mode.
unfoldable pub key_button : ℕ → Option ℕ
key_button c =
    if c == b'r'
    then some 13
    else if c == b'l'
    then some 14
    else if c == b'd'
    then some 15
    else if c == b'u'
    then some 16
    else if c == b's'
    then some 17
    else if c == b'e'
    then some 18
    else if c == b'y'
    then some 19
    else if c == b'b'
    then some 20
    else if c == b'a'
    then some 21
    else if c == b'x'
    then some 22
    else if c == b'1'
    then some 23
    else if c == b'2'
    then some 24
    else none

-- What a key does: its button is turned over and back, with a report after each.
unfoldable pub press : Bool → Pad → Option ℕ → Pad × List Bytes
press disable_p1 p none = (p, [])
press disable_p1 p (some k) =
    let p' = record p { button = with_button p.button k (not (p.button k)) } in
    let p'' = record p' { button = with_button p'.button k (not (p'.button k)) } in
    (p'', send_event disable_p1 p' ∷ send_event disable_p1 p'' ∷ [])

-- The loop of `button_mapping` over what was read: the reports, and whether 'q' ended it.
unfoldable pub button_mapping : Bool → Pad → Bytes → Pad × List Bytes × Bool
button_mapping disable_p1 p [] = (p, [], false)
button_mapping disable_p1 p (c ∷ s) =
    let (p', out) = press disable_p1 p (key_button c) in
    let (p'', more, ended) = button_mapping disable_p1 p' s in
    if c == b'q' then (p, [], true) else (p'', out ++ more, ended)

-- `process_incoming`: the buttons of the second player.
unfoldable pub process_incoming : Pad → ℕ → ℕ → Pad
process_incoming p a b =
    let level = λ (byte n : ℕ). not (bit byte n == 0) in
    record p {
      button = λ k.
          if ltb k 13
          then p.button k
          else if ltb k 21
          then level a (k - 13)
          else if ltb k 25
          then level b (28 - k)
          else p.button k;
    }

-- `recv_opponent` of login.c for a message: `strtol` reads two characters and, as their arrays hold
-- no NUL, on into what lies behind each of the arrays.
unfoldable pub recv_opponent : Bytes → Bytes → Pad → Bytes → Pad
recv_opponent behind0 behind1 p mesg =
    let at = λ (i : ℕ). get_or mesg i 0 in
    process_incoming p (to_u8 (strtol16 (at 0 ∷ at 1 ∷ behind0)))
      (to_u8 (strtol16 (at 2 ∷ at 3 ∷ behind1)))
