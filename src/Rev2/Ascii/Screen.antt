-- ===== src/Rev2/Ascii/Screen.antt =====
-- Where the reader draws.
use sneso_ip.Common.{
  ℕ, ◌+◌, ◌≤◌, ◌≡◌, ◌⊎◌, inl, inr, Bool, true, false, Bool-cases, List, [], ◌∷◌, ltb, arith, All,
  All-append, ◌==◌, if◌then◌else◌, refl,
}
use sneso_ip.Common.Int.{ℤ, pos, negsuc}
use sneso_ip.Rev2.Ascii.{
  ascii_table, char_index, Cursor, Act, draw, clear, wrap, show, round, rounds, start,
}

-- On the screen of 32 columns and 27 lines.
abbrev OnScreen : ℤ → ℕ → Type 0
OnScreen (pos n) y = (n ≤ 31) × (y ≤ 26)
OnScreen (negsuc n) y = ⊥

-- A line feed is drawn too, left of the line that it begins.
abbrev pub IsDrawn : Act → Type 0
IsDrawn (draw x y c) = (c ≡ 10) ⊎ OnScreen x y
IsDrawn clear = Unit {0}

-- A cursor on the screen, and what has been drawn in place.
abbrev IsSane : Cursor × List Act → Type 0
IsSane r = OnScreen r.0.x r.0.y × All IsDrawn r.1

line_end :
    (n y : ℕ) (b : Bool)
    → n ≤ 31
    → ltb 26 y ≡ b
    → IsSane
        (if b then (record { x = pos n; y = 0 }, clear ∷ []) else (record { x = pos n; y = y }, []))
line_end n y true h e = ((h, omega arith), (tt, tt))
line_end n y false h e = ((h, ground arith), tt)

wrap_lem : (n y : ℕ) → n ≤ 32 → IsSane (wrap (record { x = pos n; y = y }))
unfolding wrap
wrap_lem n y h = elim (Bool-cases (ltb 31 n)) [
  | inl wide ↦ rw wide (line_end 0 (y + 1) (ltb 26 (y + 1)) (omega arith) refl)
  | inr fits ↦ rw fits (line_end n y (ltb 26 y) (ground arith) refl)
]

drawn_next :
    (n y char : ℕ)
    → n ≤ 31
    → y ≤ 26
    → IsSane (
        let (c', out) = wrap (record { x = pos (n + 1); y = y }) in (c', draw (pos n) y char ∷ out))
drawn_next n y char h k =
    let (on, acts) = wrap_lem (n + 1) y (omega arith) in (on, (inr (h, k), acts))

show_lem : (char n y : ℕ) → n ≤ 31 → y ≤ 26 → IsSane (show char (record { x = pos n; y = y }))
unfolding show
show_lem char n y h k = elim (Bool-cases (char == 10)) [
  | inl feed ↦
      let ten : char ≡ 10 = ground arith in
      let some_char : (char == 0) ≡ false = ground arith in
      let (on, acts) = wrap_lem 0 (y + 1) (omega arith) in
      rw (feed, some_char) (on, (inl ten, acts))
  | inr other ↦ elim (Bool-cases (char == 0)) [
    | inl nothing ↦ rw (other, nothing) (wrap_lem n y (omega arith))
    | inr some_char ↦ rw (other, some_char) (drawn_next n y char h k)
  ]
]

round_lem :
    (word : ℕ) (x : ℤ) (y : ℕ) → OnScreen x y → IsSane (round word (record { x = x; y = y }))
unfolding round
round_lem word (pos n) y on = show_lem (ascii_table (char_index word)) n y on.0 on.1
round_lem word (negsuc n) y on = elim on [ ]

rounds_lem : (c : Cursor) (words : List ℕ) → OnScreen c.x c.y → IsSane (rounds c words)
unfolding rounds
rounds_lem c [] on = (on, tt)
rounds_lem c (word ∷ words) on =
    let (c', out) = round word c in
    let (c'', more) = rounds c' words in
    let (next, drawn) = round_lem word c.x c.y on in
    let (end, rest) = rounds_lem c' words next in (end, All-append IsDrawn out more drawn rest)

-- Whatever the controller port gives, every character that the reader draws, other than a line feed,
-- is in one of the 32 columns and 27 lines of the screen.
pub rounds-IsDrawn : (words : List ℕ) → All IsDrawn (rounds start words).1
rounds-IsDrawn words = (rounds_lem start words (omega arith, omega arith)).1
