-- ===== src/Vsnesoip/Tests.antt =====
-- The virtual device at concrete keys and joystick events.
use sneso_ip.Common.{
  some, ℕ, ◌≡◌, refl, true, false, none, [], ◌∷◌, ◌++◌, Bool-cases, inl, inr, arith, Bytes, leb,
  if◌then◌else◌,
}
use sneso_ip.Common.Int.{pos, negsuc}
use sneso_ip.Common.Word.{set_bit, clear_bit}
use sneso_ip.Vsnesoip.{Pad, released, recv_opponent}
use sneso_ip.Vsnesoip.Joystick.{
  Mapping, JsEvent, Next, goes, after, on_events, on_event, on_button, on_axis, put, pad_text,
}
use sneso_ip.Cstring.{lacks}
use sneso_ip.Login.Port.{addr_line, slave_text}
use sneso_ip.Login.Mysql.{print_int}
use sneso_ip.Vsnesoip.Ports.{ends_line, IsSearch, search, replies, find_port-IsFirst}
use sneso_ip.Vsnesoip.Master.{master_addr, master_addr-addr_line}
use sneso_ip.Vsnesoip.Remote.{recv_opponent-pad_text}

abbrev mapping : Mapping
mapping = record {
  axis_type = pos 2;
  button_type = pos 1;
  axis_up = negsuc 32766;
  axis_down = pos 32767;
  axis_left = negsuc 32766;
  axis_right = pos 32767;
  axis_y = pos 1;
  axis_x = pos 0;
  button_a = pos 1;
  button_b = pos 2;
  button_x = pos 0;
  button_y = pos 3;
  button_l = pos 4;
  button_r = pos 5;
  button_st = pos 9;
  button_se = pos 8;
  disable_p1 = false;
  select_x = true;
  ready = true;
}

abbrev up : JsEvent
up = record { kind = 2; number = 1; value = negsuc 32766 }

abbrev button_a : JsEvent
button_a = record { kind = 1; number = 1; value = pos 1 }

abbrev moves : Next
moves = on_events mapping (goes released none none) (up ∷ button_a ∷ [])

abbrev held : Pad
held = after moves

held_bytes : Bytes
held_bytes = b'0' ∷ b'8' ∷ b'8' ∷ b'0' ∷ 10 ∷ []

held_text : pad_text held ≡ held_bytes
unfolding pad_text on_events on_event on_button on_axis put set_bit clear_bit released held_bytes
held_text = refl

abbrev keys : Bytes
keys = b'a' ∷ 32 ∷ b'r' ∷ b'q' ∷ b'!' ∷ []

abbrev behind : Bytes
behind = 0 ∷ []

recv_opponent-pad_text_example :
    (recv_opponent behind behind released (pad_text held)).button 16 ≡ held.button 1
recv_opponent-pad_text_example =
    recv_opponent-pad_text mapping (up ∷ button_a ∷ []) released behind behind 1 (omega arith)
      (omega arith) refl refl

abbrev used : Bytes
used = b'E' ∷ b'R' ∷ b'R' ∷ b'O' ∷ b'R' ∷ b'1' ∷ b'3' ∷ b'3' ∷ 10 ∷ []

abbrev reply : ℕ → Bytes
reply q = if leb q 4001 then used else slave_text

reply-ends_line : (q : ℕ) → ends_line (reply q) ≡ true
reply-ends_line q = elim (Bool-cases (leb q 4001)) [
  | inl low ↦ rw low (unfold ends_line in refl)
  | inr high ↦ rw high (unfold ends_line in refl)
]

find_port-IsFirst_example : IsSearch reply 5 4000 (search 4000 4004 (replies reply 5 4000))
find_port-IsFirst_example = find_port-IsFirst reply 4000 4004 reply-ends_line (omega arith)

abbrev host : Bytes
host = b'1' ∷ b'0' ∷ b'.' ∷ b'0' ∷ b'.' ∷ b'0' ∷ b'.' ∷ b'3' ∷ []

master_addr-addr_line_example :
    master_addr (λ s. s) (addr_line (host ++ b':' ∷ print_int (pos 4455))) ≡ some (host, pos 4455)
master_addr-addr_line_example =
    master_addr-addr_line (λ s. s) (λ s. s) host 4455 (λ s h. refl) (λ s h. refl)
      (unfold lacks in refl) (omega arith) (omega arith) (unfold lacks in refl) (omega arith)
