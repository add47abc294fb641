-- ===== src/Vsnesoip/Joystick.antt =====
-- The joystick events of `read_joystick` in vsnesoip.c.
use sneso_ip.Common.{
  ℕ, ◌/◌, ◌%◌, Bool, true, false, not, ◌&&◌, ◌||◌, Option, none, some, List, [], ◌∷◌, Bytes,
  if◌then◌else◌,
}
use sneso_ip.Common.Int.{ℤ, pos, eq_ℤ}
use sneso_ip.Common.Word.{set_bit, clear_bit}
use sneso_ip.CommonInclude.Number.Hex.{hex_digit}
use sneso_ip.Vsnesoip.{Pad, with_button, send_event}

-- The settings for the joystick, from the configuration file, and `ready`.
pub record Mapping : Type 0 where
  pub axis_type : ℤ
  pub button_type : ℤ
  pub axis_up : ℤ
  pub axis_down : ℤ
  pub axis_left : ℤ
  pub axis_right : ℤ
  pub axis_y : ℤ
  pub axis_x : ℤ
  pub button_a : ℤ
  pub button_b : ℤ
  pub button_x : ℤ
  pub button_y : ℤ
  pub button_l : ℤ
  pub button_r : ℤ
  pub button_st : ℤ
  pub button_se : ℤ
  pub disable_p1 : Bool
  pub select_x : Bool
  pub ready : Bool

-- `struct js_event`.
pub record JsEvent : Type 0 where
  pub kind : ℕ
  pub number : ℕ
  pub value : ℤ

pub data Byte : Type 0 where
  first second : Byte

abbrev pub put_bit : ℕ → ℕ → Bool → ℕ
put_bit w n v = if v then set_bit w n else clear_bit w n

-- `btn<k>_down = v`, with bit `n` of `b0` or of `b1`.
unfoldable pub put : Byte → ℕ → ℕ → Bool → Pad → Pad
put first n k v p = record p { button = with_button p.button k v; b0 = put_bit p.b0 n v }
put second n k v p = record p { button = with_button p.button k v; b1 = put_bit p.b1 n v }

abbrev pub when : Bool → (Pad → Pad) → Pad → Pad
when test change p = if test then change p else p

-- Lines 533 to 571: an axis.
unfoldable pub on_axis : Mapping → JsEvent → Pad → Pad
on_axis m js p =
    let is = eq_ℤ js.value in
    let y1 = when (is m.axis_up) (put second 3 1 true) p in
    let y2 = when (is m.axis_down) (put second 2 2 true) y1 in
    let y3 = when (is (pos 0)) (λ q. put second 2 2 false (put second 3 1 false q)) y2 in
    let x1 = when (is m.axis_left) (put second 1 3 true) p in
    let x2 = when (is m.axis_right) (put second 0 4 true) x1 in
    let x3 = when (is (pos 0)) (λ q. put second 0 4 false (put second 1 3 false q)) x2 in
    if eq_ℤ (pos js.number) m.axis_y then y3 else if eq_ℤ (pos js.number) m.axis_x then x3 else p

-- Lines 573 to 583: a button.
unfoldable pub on_button : Mapping → JsEvent → Pad → Pad
on_button m js p =
    let v = not (eq_ℤ js.value (pos 0)) in
    let is = eq_ℤ (pos js.number) in
    let p1 = when (is m.button_a) (put first 7 5 v) p in
    let p2 = when (is m.button_b) (put second 7 6 v) p1 in
    let p3 = when (is m.button_x) (put first 6 7 v) p2 in
    let p4 = when (is m.button_y) (put second 6 8 v) p3 in
    let p5 = when (is m.button_l) (put first 5 9 v) p4 in
    let p6 = when (is m.button_r) (put first 4 10 v) p5 in
    let p7 = when (is m.button_st) (put second 4 11 v) p6 in
    when (is m.button_se) (put second 5 12 v) p7

-- The text `"%02X%02X\n"` for the opponent.
unfoldable pub pad_text : Pad → Bytes
pad_text p =
    let hex = hex_digit true in
    hex (p.b1 / 16) ∷ hex (p.b1 % 16) ∷ hex (p.b0 / 16) ∷ hex (p.b0 % 16) ∷ 10 ∷ []

-- What follows an event: the next one, with the report and the text that are sent, or the end.
pub data Next : Type 0 where
  goes : Pad → Option Bytes → Option Bytes → Next
  exits : Pad → Next

-- Lines 530 to 614.
unfoldable pub on_event : Mapping → Pad → JsEvent → Next
on_event m p js =
    let is_axis = eq_ℤ (pos js.kind) m.axis_type in
    let is_button = eq_ℤ (pos js.kind) m.button_type in
    let p' = if is_axis then on_axis m js p else if is_button then on_button m js p else p in
    if not (is_axis || is_button)
    then goes p none none
    else if m.select_x && (p'.button 7 && p'.button 12)
    then exits p'
    else goes p' (if m.disable_p1 then none else some (send_event m.disable_p1 p'))
        (if m.ready then some (pad_text p') else none)

-- The pad after all events, up to the exit combination.
abbrev pub after : Next → Pad
after (goes p report text) = p
after (exits p) = p

unfoldable pub on_events : Mapping → Next → List JsEvent → Next
on_events m n [] = n
on_events m (exits p) (js ∷ more) = exits p
on_events m (goes p report text) (js ∷ more) = on_events m (on_event m p js) more
