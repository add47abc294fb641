-- ===== src/Rev2/Loop/Hello.antt =====
-- How often the firmware greets the server.
use sneso_ip.Common.{
  ℕ, ◌+◌, ◌≡◌, refl, ap, sym, ◌∙◌, Bool, true, false, not, ◌||◌, List, [], ◌∷◌, ◌++◌, arith, Bytes,
  Bool-cases, inl, inr, if◌then◌else◌,
}
use sneso_ip.Rev2.Snesio.{recv_input}
use sneso_ip.Rev2.Loop.{
  Device, Poll, Out, words, hello, no_io, udp_data_received, send_payload, take_payload, round,
  rounds, booted,
}

abbrev pub hellos : List Out → ℕ
hellos [] = 0
hellos (no_io ∷ out) = hellos out
hellos (words a b ∷ out) = hellos out
hellos (hello ∷ out) = 1 + hellos out

-- Whether a round finds no TCP data.
abbrev pub has_idle : List Poll → Bool
has_idle [] = false
has_idle (i ∷ more) = not i.tcp || has_idle more

hellos-append : (xs ys : List Out) → hellos (xs ++ ys) ≡ hellos xs + hellos ys
hellos-append [] ys = omega arith
hellos-append (no_io ∷ xs) ys = hellos-append xs ys
hellos-append (words a b ∷ xs) ys = hellos-append xs ys
hellos-append (hello ∷ xs) ys = omega (arith, hellos-append xs ys)

hellos-send_payload : (port0 : ℕ) (s : Bytes) → hellos (send_payload port0 s) ≡ 0
unfolding send_payload
hellos-send_payload port0 [] = refl
hellos-send_payload port0 (b ∷ s) = hellos-send_payload port0 s

hellos-if : (b : Bool) (xs : List Out) → hellos xs ≡ 0 → hellos (if b then xs else []) ≡ 0
hellos-if true xs h = h
hellos-if false xs h = refl

abbrev still : Bool → ℕ
still greeted = if greeted then 0 else 1

hellos-greeting :
    (b : Bool) (a : ℕ) → hellos ((if b then [] else hello ∷ []) ++ (words a a ∷ [])) ≡ still b
hellos-greeting true a = refl
hellos-greeting false a = refl

hellos-shown : (b : Bool) → hellos (if b then [] else no_io ∷ []) ≡ 0
hellos-shown true = refl
hellos-shown false = refl

-- One round without TCP data.
hellos-round :
    (port : ℕ) (d : Device) (i : Poll)
    → i.tcp ≡ false
    → (hellos (round port d i).1 ≡ still d.greeted) × ((round port d i).0.greeted ≡ true)
unfolding round take_payload
hellos-round port d i idle =
    let own = recv_input i.levels in
    let shown = if i.io then [] else no_io ∷ [] in
    let payload =
      if udp_data_received i.my_ip i.buffer port then take_payload own i.buffer i.behind else [] in
    let last = (if d.greeted then [] else hello ∷ []) ++ (words own own ∷ []) in
    let none_in =
      hellos-if (udp_data_received i.my_ip i.buffer port) (take_payload own i.buffer i.behind)
        (hellos-send_payload own _) in
    let outer = hellos-append shown (payload ++ last) in
    let inner = hellos-append payload last in
    let before = hellos-shown i.io in
    let greeting = hellos-greeting d.greeted own in
    let total : hellos (shown ++ (payload ++ last)) ≡ still d.greeted = omega arith in
    rw idle (total, refl)

busy_round : (port : ℕ) (d : Device) (i : Poll) → i.tcp ≡ true → round port d i ≡ (d, [])
unfolding round
busy_round port d i busy = rw busy refl

nothing_left : (b : Bool) → (if b then still true else 0) ≡ 0
nothing_left true = refl
nothing_left false = refl

hellos-rounds :
    (port : ℕ) (d : Device) (polls : List Poll)
    → hellos (rounds port d polls).1 ≡ (if has_idle polls then still d.greeted else 0)
unfolding rounds
hellos-rounds port d [] = refl
hellos-rounds port d (i ∷ more) =
    let (d', out) = round port d i in
    let later = hellos-rounds port d' more in
    let split = hellos-append out (rounds port d' more).1 in
    elim (Bool-cases i.tcp) [
      | inl busy ↦ rw (busy_round port d i busy, busy) (hellos-rounds port d more)
      | inr idle ↦
          let (now, greeted) = hellos-round port d i idle in
          let done : hellos (rounds port d' more).1 ≡ 0 =
            later
            ∙ (ap (λ (b : Bool). if has_idle more then still b else 0) greeted
                ∙ nothing_left (has_idle more)) in
          let total : hellos (out ++ (rounds port d' more).1) ≡ still d.greeted = omega arith in
          total
          ∙ ap (λ (b : Bool). if not b || has_idle more then still d.greeted else 0) (sym idle)
    ]

-- From the start of the loop on, whatever the rounds find: HELO is sent once if some round finds no
-- TCP data, and never otherwise.
pub rounds-hellos :
    (port port0 : ℕ) (polls : List Poll)
    → hellos (rounds port (booted port0) polls).1 ≡ (if has_idle polls then 1 else 0)
rounds-hellos port port0 polls = hellos-rounds port (booted port0) polls
