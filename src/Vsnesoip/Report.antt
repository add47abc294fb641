-- ===== src/Vsnesoip/Report.antt =====
-- The report for the virtual game pad, and the keyboard mode.
use mathlib.Core.Path.{fun_ext}
use sneso_ip.Common.{
  ℕ, zero, suc, ◌+◌, ◌/◌, ◌%◌, ◌≤◌, ◌<◌, ◌≡◌, inl, inr, refl, ◌∙◌, Bool, true, false, not, ◌&&◌,
  ◌||◌, Option, none, some, List, [], ◌∷◌, ◌++◌, arith, Bytes, ltb, leb, ◌==◌, if◌then◌else◌,
  get_or, set, length, length-set, get_or-set_self, get_or-set_ne, Bool-cases,
}
use sneso_ip.Common.Word.{bit, zero-bit, set_bit, bit-set_bit}
use sneso_ip.Vsnesoip.{Pad, with_button, mark, send_event, key_button, press, button_mapping}

abbrev pub report_bit : Bytes → ℕ → ℕ
report_bit report k = bit (get_or report (k / 8) 0) (k % 8)

-- One test of `send_event`.
mark_one :
    (report : Bytes) (i k : ℕ)
    → i < 24
    → length report ≡ 3
    → report_bit (set report (i / 8) (set_bit (get_or report (i / 8) 0) (i % 8))) k
      ≡ (if i == k then 1 else report_bit report k)
mark_one report i k h len = elim (Bool-cases (i / 8 == k / 8)) [
  | inl same ↦
      (let e : k / 8 ≡ i / 8 = ground arith in
        let own =
          get_or-set_self report (i / 8) (set_bit (get_or report (i / 8) 0) (i % 8)) 0
            (omega arith) in
        rw (e, own, bit-set_bit (get_or report (i / 8) 0) (i % 8) (k % 8)) (ground arith))
  | inr other ↦
      (let ne : (i / 8 ≡ k / 8) → ⊥ = λ e. ground arith in
        rw (get_or-set_ne report (i / 8) (k / 8) (set_bit (get_or report (i / 8) 0) (i % 8)) 0 ne)
          (ground arith))
]

mark-bit :
    (button : ℕ → Bool) (n i : ℕ) (report : Bytes) (k : ℕ)
    → i + n ≤ 24
    → length report ≡ 3
    → report_bit (mark button n i report) k
      ≡ (if leb i k && (ltb k (i + n) && button (k + 1)) then 1 else report_bit report k)
unfolding mark
mark-bit button zero i report k h len = ground arith
mark-bit button (suc n) i report k h len =
    let next =
      if button (i + 1)
      then set report (i / 8) (set_bit (get_or report (i / 8) 0) (i % 8))
      else report in
    ground (
      arith,
      mark_one report i k,
      length-set report (i / 8) (set_bit (get_or report (i / 8) 0) (i % 8)),
      mark-bit button n (i + 1) next k,
    )

length-mark :
    (button : ℕ → Bool) (n i : ℕ) (report : Bytes) → length (mark button n i report) ≡ length report
unfolding mark
length-mark button zero i report = refl
length-mark button (suc n) i report =
    let marked = set report (i / 8) (set_bit (get_or report (i / 8) 0) (i % 8)) in
    let next = if button (i + 1) then marked else report in
    ground (
      arith,
      length-mark button n (i + 1) next,
      length-set report (i / 8) (set_bit (get_or report (i / 8) 0) (i % 8)),
    )

zeros-bit : (k : ℕ) → report_bit (0 ∷ 0 ∷ 0 ∷ []) k ≡ 0
zeros-bit k = rw (zeros (k / 8)) (zero-bit (k % 8))
  where
    no_bytes : Bytes
    no_bytes = 0 ∷ 0 ∷ 0 ∷ []

    zeros : (i : ℕ) → get_or no_bytes i 0 ≡ 0
    zeros zero = refl
    zeros (suc zero) = refl
    zeros (suc (suc zero)) = refl
    zeros (suc (suc (suc i))) = refl

-- A report has three bytes, and its 24 bits are the buttons; with `disable_p1` those of the first
-- player are 0.
pub send_event-bit :
    (disable_p1 : Bool) (p : Pad) (k : ℕ)
    → k < 24
    → (length (send_event disable_p1 p) ≡ 3)
      × (report_bit (send_event disable_p1 p) k
          ≡ (if p.button (k + 1) && (leb 12 k || not disable_p1) then 1 else 0))
unfolding send_event
send_event-bit true p k h =
    let zero_bytes = 0 ∷ 0 ∷ 0 ∷ [] in
    (
      length-mark p.button 12 12 zero_bytes,
      ground (arith, mark-bit p.button 12 12 zero_bytes k, zeros-bit k),
    )
send_event-bit false p k h =
    let zero_bytes = 0 ∷ 0 ∷ 0 ∷ [] in
    let one = mark p.button 12 0 zero_bytes in
    (
      length-mark p.button 12 12 one ∙ length-mark p.button 12 0 zero_bytes,
      ground (
        arith,
        mark-bit p.button 12 12 one k,
        mark-bit p.button 12 0 zero_bytes k,
        length-mark p.button 12 0 zero_bytes,
        zeros-bit k,
      ),
    )

abbrev add_key : Option ℕ → List ℕ → List ℕ
add_key none ks = ks
add_key (some k) ks = k ∷ ks

-- The buttons of the keys before the first 'q'.
unfoldable pub typed : Bytes → List ℕ
typed [] = []
typed (c ∷ s) = let rest = typed s in if c == b'q' then [] else add_key (key_button c) rest

unfoldable pub quits : Bytes → Bool
quits [] = false
quits (c ∷ s) = (c == b'q') || quits s

-- Two reports for each of these buttons: turned over, and as it was.
unfoldable pub shown : Bool → Pad → List ℕ → List Bytes
shown disable_p1 p [] = []
shown disable_p1 p (k ∷ ks) =
    send_event disable_p1 (record p { button = with_button p.button k (not (p.button k)) })
    ∷ send_event disable_p1 p
    ∷ shown disable_p1 p ks

turned_twice :
    (button : ℕ → Bool) (k : ℕ)
    → let once = with_button button k (not (button k)) in with_button once k (not (once k)) ≡ button
turned_twice button k = fun_ext (λ j. ground arith)

press_lem :
    (disable_p1 : Bool) (p : Pad) (key : Option ℕ)
    → press disable_p1 p key ≡ (p, shown disable_p1 p (add_key key []))
unfolding press shown
press_lem disable_p1 p none = refl
press_lem disable_p1 p (some k) = rw (turned_twice p.button k) refl

shown-add_key :
    (disable_p1 : Bool) (p : Pad) (key : Option ℕ) (ks : List ℕ)
    → shown disable_p1 p (add_key key ks)
      ≡ shown disable_p1 p (add_key key []) ++ shown disable_p1 p ks
unfolding shown
shown-add_key disable_p1 p none ks = refl
shown-add_key disable_p1 p (some k) ks = refl

-- In the keyboard mode each key of a button, up to the first 'q', sends two reports, with the button
-- turned over and as it was; in the end the buttons are as they were.
pub button_mapping_lem :
    (disable_p1 : Bool) (p : Pad) (s : Bytes)
    → button_mapping disable_p1 p s ≡ (p, shown disable_p1 p (typed s), quits s)
unfolding button_mapping typed quits
button_mapping_lem disable_p1 p [] = unfold shown in refl
button_mapping_lem disable_p1 p (c ∷ s) = elim (Bool-cases (c == b'q')) [
  | inl quit ↦ rw quit (unfold shown in refl)
  | inr other ↦
      (let key = key_button c in
        rw
          (
            other,
            press_lem disable_p1 p key,
            button_mapping_lem disable_p1 p s,
            shown-add_key disable_p1 p key (typed s),
          )
          refl)
]
