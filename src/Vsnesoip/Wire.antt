-- ===== src/Vsnesoip/Wire.antt =====
-- The bytes for the opponent mirror the buttons of the first player.
use sneso_ip.Common.{
  ℕ, ◌+◌, ◌-◌, ◌<◌, ◌≡◌, refl, Bool, true, false, not, Option, none, some, Bytes, ◌&&◌, ◌||◌, List,
  [], ◌∷◌, arith, ltb, ◌==◌, if◌then◌else◌, get_or, passes, passes_at,
}
use sneso_ip.Common.Int.{pos, eq_ℤ}
use sneso_ip.Common.Word.{bit, zero-bit, bit-set_bit, bit-clear_bit, set_bit-lt, clear_bit-lt}
use sneso_ip.Vsnesoip.{Pad, released, send_event}
use sneso_ip.Vsnesoip.Joystick.{
  Mapping, JsEvent, Byte, first, second, put, when, on_axis, on_button, on_event, on_events, Next,
  goes, exits, after, pad_text,
}

-- The place of a button: a bit of the second byte, or 8 and a bit of the first.
abbrev pub place : ℕ → ℕ
place k = get_or (99 ∷ 3 ∷ 2 ∷ 1 ∷ 0 ∷ 15 ∷ 7 ∷ 14 ∷ 6 ∷ 13 ∷ 12 ∷ 4 ∷ 5 ∷ []) k 99

abbrev pub bit_at : Pad → ℕ → ℕ
bit_at p n = if ltb n 8 then bit p.b1 n else bit p.b0 (n - 8)

abbrev at : Byte → ℕ → ℕ
at first n = n + 8
at second n = n

pub record Mirrors (p : Pad) : Type 0 where
  pub b0_byte : p.b0 < 256
  pub b1_byte : p.b1 < 256
  pub levels : (k : ℕ) → 0 < k → k < 13 → bit_at p (place k) ≡ (if p.button k then 1 else 0)

-- No two buttons have one place.
same : Bool → Bool → Bool
same true b = b
same false b = not b

places_differ :
    passes (λ j. passes (λ k. (j == 0) || ((k == 0) || same (place j == place k) (j == k))) 13) 13
    ≡ true
unfolding passes same
places_differ = refl

same_sound : (a b : Bool) → same a b ≡ true → a ≡ b
unfolding same
same_sound true b h = ground arith
same_sound false b h = ground arith

place_inj : (j k : ℕ) → 0 < j → j < 13 → 0 < k → k < 13 → (place j == place k) ≡ (j == k)
place_inj j k pj lj pk lk =
    let row =
      passes_at
        (λ (i : ℕ).
          passes (λ (k : ℕ). (i == 0) || ((k == 0) || same (place i == place k) (i == k))) 13)
        13 j lj places_differ in
    let one =
      passes_at (λ (k : ℕ). (j == 0) || ((k == 0) || same (place j == place k) (j == k))) 13 k lk
        row in
    same_sound (place j == place k) (j == k) (ground (arith, one))

-- The change of a button and of its place.
put-Mirrors :
    (which : Byte) (n k : ℕ) (v : Bool) (p : Pad)
    → n < 8
    → 0 < k
    → k < 13
    → place k ≡ at which n
    → Mirrors p
    → Mirrors (put which n k v p)
unfolding put
put-Mirrors first n k true p ln pk lk e m = record {
  b0_byte = set_bit-lt 8 p.b0 n m.b0_byte ln;
  b1_byte = m.b1_byte;
  levels = λ j pj lj.
      ground
        (arith, m.levels j pj lj, place_inj k j pk lk pj lj, bit-set_bit p.b0 n (place j - 8), e);
}
put-Mirrors first n k false p ln pk lk e m = record {
  b0_byte = clear_bit-lt 8 p.b0 n m.b0_byte;
  b1_byte = m.b1_byte;
  levels = λ j pj lj.
      ground
        (arith, m.levels j pj lj, place_inj k j pk lk pj lj, bit-clear_bit p.b0 n (place j - 8), e);
}
put-Mirrors second n k true p ln pk lk e m = record {
  b0_byte = m.b0_byte;
  b1_byte = set_bit-lt 8 p.b1 n m.b1_byte ln;
  levels = λ j pj lj.
      ground (arith, m.levels j pj lj, place_inj k j pk lk pj lj, bit-set_bit p.b1 n (place j), e);
}
put-Mirrors second n k false p ln pk lk e m = record {
  b0_byte = m.b0_byte;
  b1_byte = clear_bit-lt 8 p.b1 n m.b1_byte;
  levels = λ j pj lj.
      ground
        (arith, m.levels j pj lj, place_inj k j pk lk pj lj, bit-clear_bit p.b1 n (place j), e);
}

when-Mirrors :
    (test : Bool) (change : Pad → Pad) (p : Pad)
    → Mirrors p
    → Mirrors (change p)
    → Mirrors (when test change p)
when-Mirrors true change p m changed = changed
when-Mirrors false change p m changed = m

put-when :
    (test : Bool) (which : Byte) (n k : ℕ) (v : Bool) (p : Pad)
    → ((ltb n 8 && (ltb 0 k && ltb k 13)) && (place k == at which n)) ≡ true
    → Mirrors p
    → Mirrors (when test (put which n k v) p)
put-when test which n k v p fits m =
    when-Mirrors test (put which n k v) p m
      (put-Mirrors which n k v p (ground arith) (ground arith) (ground arith) (ground arith) m)

if-Mirrors : (test : Bool) (p q : Pad) → Mirrors p → Mirrors q → Mirrors (if test then p else q)
if-Mirrors true p q mp mq = mp
if-Mirrors false p q mp mq = mq

on_button-Mirrors : (m : Mapping) (js : JsEvent) (p : Pad) → Mirrors p → Mirrors (on_button m js p)
unfolding on_button
on_button-Mirrors m js p ok = put-when _ second 5 12 _ _ refl (
    put-when _ second 4 11 _ _ refl (
      put-when _ first 4 10 _ _ refl (
        put-when _ first 5 9 _ _ refl (
          put-when _ second 6 8 _ _ refl (
            put-when _ first 6 7 _ _ refl
              (put-when _ second 7 6 _ _ refl (put-when _ first 7 5 _ _ refl ok)))))))

axis_put :
    (low high centre : Bool) (n k n' k' : ℕ) (p : Pad)
    → ((ltb n 8 && (ltb 0 k && ltb k 13)) && (place k == n)) ≡ true
    → ((ltb n' 8 && (ltb 0 k' && ltb k' 13)) && (place k' == n')) ≡ true
    → Mirrors p
    → Mirrors (
        when centre
          (λ q. put second n' k' false (put second n k false q))
          (when high (put second n' k' true) (when low (put second n k true) p)))
axis_put low high centre n k n' k' p fits fits' m =
    let both =
      put-when high second n' k' true (when low (put second n k true) p) fits'
        (put-when low second n k true p fits m) in
    when-Mirrors centre (λ q. put second n' k' false (put second n k false q)) _ both
      (put-when true second n' k' false _ fits' (put-when true second n k false _ fits both))

on_axis-Mirrors : (m : Mapping) (js : JsEvent) (p : Pad) → Mirrors p → Mirrors (on_axis m js p)
unfolding on_axis
on_axis-Mirrors m js p ok =
    if-Mirrors (eq_ℤ (pos js.number) m.axis_y) _ _ (axis_put _ _ _ 3 1 2 2 p refl refl ok)
      (if-Mirrors (eq_ℤ (pos js.number) m.axis_x) _ _ (axis_put _ _ _ 1 3 0 4 p refl refl ok) ok)

pub released-Mirrors : Mirrors released
unfolding released
released-Mirrors = record {
  b0_byte = omega arith;
  b1_byte = omega arith;
  levels = λ k pk lk. ground (arith, zero-bit (place k), zero-bit (place k - 8));
}

sent-Mirrors :
    (ignored leaves : Bool) (p p' : Pad) (report text : Option Bytes)
    → Mirrors p
    → Mirrors p'
    → Mirrors (
        after
          (if ignored then goes p none none else if leaves then exits p' else goes p' report text))
sent-Mirrors true leaves p p' report text m m' = m
sent-Mirrors false true p p' report text m m' = m'
sent-Mirrors false false p p' report text m m' = m'

on_event-Mirrors :
    (m : Mapping) (p : Pad) (js : JsEvent) → Mirrors p → Mirrors (after (on_event m p js))
unfolding on_event
on_event-Mirrors m p js ok =
    let is_axis = eq_ℤ (pos js.kind) m.axis_type in
    let is_button = eq_ℤ (pos js.kind) m.button_type in
    let p' = if is_axis then on_axis m js p else if is_button then on_button m js p else p in
    let changed =
      if-Mirrors is_axis _ _ (on_axis-Mirrors m js p ok)
        (if-Mirrors is_button _ _ (on_button-Mirrors m js p ok) ok) in
    sent-Mirrors (not (is_axis || is_button)) (m.select_x && (p'.button 7 && p'.button 12)) p p'
      (if m.disable_p1 then none else some (send_event m.disable_p1 p'))
      (if m.ready then some (pad_text p') else none) ok changed

-- After every sequence of joystick events each button of the first player is in its bit of the two
-- bytes for the opponent, if that held before.
pub on_events-Mirrors :
    (m : Mapping) (n : Next) (events : List JsEvent)
    → Mirrors (after n)
    → Mirrors (after (on_events m n events))
unfolding on_events
on_events-Mirrors m n [] ok = ok
on_events-Mirrors m (exits p) (js ∷ events) ok = ok
on_events-Mirrors m (goes p report text) (js ∷ events) ok =
    on_events-Mirrors m (on_event m p js) events (on_event-Mirrors m p js ok)
