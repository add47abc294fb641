-- ===== src/Rev2/Ascii.antt =====
-- The text reader Archive/Rev2/snes/ascii/src/main.c, a program for the console that draws what comes
-- from its second controller port. `scanPads` and `padsCurrent` are of the PVSnesLib: the word that
-- they give is an argument. Set-up and fading are left out.
pub mod Screen
pub mod Text
pub mod Relay
mod Tests
use sneso_ip.Common.{
  ℕ, zero, suc, ◌+◌, ◌-◌, Bool, ◌||◌, ◌&&◌, List, [], ◌∷◌, ◌++◌, ltb, leb, ◌==◌, if◌then◌else◌,
}
use sneso_ip.Common.Int.{ℤ, pos, negsuc}
use sneso_ip.Common.Word.{bit}

-- `asciiTable` after `initASCII`; the last character is "©" in one byte. 39, the apostrophe, is not
-- set.
unfoldable pub ascii_table : ℕ → ℕ
ascii_table i =
    if (i == 10) || ((leb 32 i && leb i 38) || ((leb 40 i && leb i 126) || (i == 169)))
    then i
    else 0

-- What a bit of the controller's word adds to `charIndex`.
unfoldable pub weight : ℕ → ℕ → ℕ → ℕ
weight word i n = if bit word i == 0 then 0 else n

-- `charIndex`.
unfoldable pub char_index : ℕ → ℕ
char_index word =
    let sum =
      weight word 15 1
      + weight word 14 2
      + weight word 13 4
      + weight word 12 8
      + weight word 11 16
      + weight word 10 32
      + weight word 9 64
      + weight word 8 128 in
    if ltb 169 sum then 0 else sum

-- `x` and `y`.
pub record Cursor : Type 0 where
  pub x : ℤ
  pub y : ℕ

-- A call of `consoleDrawText` with one character, and one of `clear`.
pub data Act : Type 0 where
  draw : ℤ → ℕ → ℕ → Act
  clear : Act

abbrev pub next_x : ℤ → ℤ
next_x (pos n) = pos (n + 1)
next_x (negsuc zero) = pos 0
next_x (negsuc (suc n)) = negsuc n

abbrev pub above_31 : ℤ → Bool
above_31 (pos n) = ltb 31 n
above_31 (negsuc n) = ltb 1 0

-- The tests at the end of a round.
unfoldable pub wrap : Cursor → Cursor × List Act
wrap c =
    let c' = if above_31 c.x then record { x = pos 0; y = c.y + 1 } else c in
    if ltb 26 c'.y then (record c' { y = 0 }, clear ∷ []) else (c', [])

-- One round for a character.
unfoldable pub show : ℕ → Cursor → Cursor × List Act
show char c =
    let at = if char == 10 then record { x = negsuc 0; y = c.y + 1 } else c in
    let (c', out) = wrap at in
    let (c'', out') = wrap (record at { x = next_x at.x }) in
    if char == 0 then (c', out) else (c'', draw at.x at.y char ∷ out')

-- One round of the loop of `main`.
unfoldable pub round : ℕ → Cursor → Cursor × List Act
round word c = show (ascii_table (char_index word)) c

unfoldable pub rounds : Cursor → List ℕ → Cursor × List Act
rounds c [] = (c, [])
rounds c (word ∷ words) =
    let (c', out) = round word c in let (c'', more) = rounds c' words in (c'', out ++ more)

abbrev pub start : Cursor
start = record { x = pos 0; y = 0 }
