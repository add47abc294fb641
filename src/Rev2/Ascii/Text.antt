-- ===== src/Rev2/Ascii/Text.antt =====
-- A text on its way from a datagram to the screen.
use sneso_ip.Common.{
  ℕ, ◌+◌, ◌-◌, ◌≤◌, ◌<◌, ◌≡◌, ◌≢◌, refl, ap, ◌∙◌, Bool, true, false, List, [], ◌∷◌, ◌++◌, Bytes,
  arith, All, ◌==◌, if◌then◌else◌, get_or, passes, passes_at, ==_iff, ltb, map, Bool-cases, inl,
  inr, ◌⊎◌,
}
use sneso_ip.Common.Int.{pos, negsuc}
use sneso_ip.Common.Word.{bit}
use sneso_ip.Rev2.Snesio.{level, send_output}
use sneso_ip.Rev2.Snesio.Wire.{sent_level}
use sneso_ip.Rev2.Loop.Payload.{inverted}
use sneso_ip.Rev2.Ascii.{
  ascii_table, weight, char_index, Cursor, Act, draw, clear, next_x, above_31, wrap, show, round,
  rounds,
}

-- What `padsCurrent` is documented to give: a bit for each button, 1 where the level was low, the
-- first clock's in bit 15.
pub record IsPads (pads : (ℕ → Bool) → ℕ) : Type 0 where
  pub button : (levels : ℕ → Bool) (i : ℕ) → i < 16 → (bit (pads levels) (15 - i) == 0) ≡ levels i

-- The word that the reader gets from the second port for two words of `sendOutput`.
abbrev pub seen : ((ℕ → Bool) → ℕ) → ℕ × ℕ → ℕ
seen pads (a, b) = pads (λ i. (get_or (send_output a b) i (false, false)).1)

-- `charIndex` of the levels.
unfoldable sum_levels : (ℕ → Bool) → ℕ
sum_levels l =
    let add = λ (b : Bool) (n : ℕ). if b then 0 else n in
    add (l 0) 1
    + add (l 1) 2
    + add (l 2) 4
    + add (l 3) 8
    + add (l 4) 16
    + add (l 5) 32
    + add (l 6) 64
    + add (l 7) 128

-- For each byte, the levels of its inverted word.
byte_table : passes (λ b. sum_levels (level (65535 - b)) == b) 256 ≡ true
unfolding passes sum_levels level bit
byte_table = refl

sum_levels-level : (b : ℕ) → b < 256 → sum_levels (level (65535 - b)) ≡ b
sum_levels-level b lt =
    (==_iff (sum_levels (level (65535 - b))) b).0
      (passes_at (λ c. sum_levels (level (65535 - c)) == c) 256 b lt byte_table)

-- The character for a byte.
abbrev pub char_of : ℕ → ℕ
char_of b = ascii_table (if ltb 169 b then 0 else b)

module _ (pads : (ℕ → Bool) → ℕ) (h : IsPads pads) where
  seen-bit : (a w i : ℕ) → i < 16 → (bit (seen pads (a, w)) (15 - i) == 0) ≡ level w i
  unfolding send_output
  seen-bit a w i lt =
      h.button (λ j. (get_or (send_output a w) j (false, false)).1) i lt
      ∙ ap (λ (p : Bool × Bool). p.1) (sent_level a w i lt)

  char_index-seen :
      (a b : ℕ) → b < 256 → char_index (seen pads (a, 65535 - b)) ≡ (if ltb 169 b then 0 else b)
  unfolding char_index weight sum_levels
  char_index-seen a b lt =
      let at = λ (i : ℕ) (small : i < 16). seen-bit a (65535 - b) i small in
      let sum : sum_levels (level (65535 - b)) ≡ b = sum_levels-level b lt in
      rw
        (
          at 0 (omega arith),
          at 1 (omega arith),
          at 2 (omega arith),
          at 3 (omega arith),
          at 4 (omega arith),
          at 5 (omega arith),
          at 6 (omega arith),
          at 7 (omega arith),
        )
        (ap (λ (n : ℕ). if ltb 169 n then 0 else n) sum)

-- The characters that are drawn, in order.
abbrev pub chars_of : List Act → Bytes
chars_of [] = []
chars_of (draw x y c ∷ acts) = c ∷ chars_of acts
chars_of (clear ∷ acts) = chars_of acts

chars_of-append : (xs ys : List Act) → chars_of (xs ++ ys) ≡ chars_of xs ++ chars_of ys
chars_of-append [] ys = refl
chars_of-append (draw x y c ∷ xs) ys = ap (λ (t : Bytes). c ∷ t) (chars_of-append xs ys)
chars_of-append (clear ∷ xs) ys = chars_of-append xs ys

no_chars :
    (b : Bool) (r r' : Cursor × List Act)
    → chars_of r.1 ≡ []
    → chars_of r'.1 ≡ []
    → chars_of (if b then r else r').1 ≡ []
no_chars true r r' e e' = e
no_chars false r r' e e' = e'

chars_of-wrap : (c : Cursor) → chars_of (wrap c).1 ≡ []
unfolding wrap
chars_of-wrap c =
    let c' = if above_31 c.x then record { x = pos 0; y = c.y + 1 } else c in
    no_chars (ltb 26 c'.y) (record c' { y = 0 }, clear ∷ []) (c', []) refl refl

chars_of-show :
    (char : ℕ) (c : Cursor) → chars_of (show char c).1 ≡ (if char == 0 then [] else char ∷ [])
unfolding show
chars_of-show char c =
    let at = if char == 10 then record { x = negsuc 0; y = c.y + 1 } else c in
    elim (Bool-cases (char == 0)) [
      | inl nothing ↦ rw nothing (chars_of-wrap at)
      | inr some_char ↦
          rw some_char
            (ap (λ (t : Bytes). char ∷ t) (chars_of-wrap (record at { x = next_x at.x })))
    ]

-- The characters for the bytes of a payload.
abbrev pub text_of : Bytes → Bytes
text_of [] = []
text_of (b ∷ s) = (if char_of b == 0 then [] else char_of b ∷ []) ++ text_of s

abbrev pub IsByte : ℕ → Type 0
IsByte b = b < 256

module _ (pads : (ℕ → Bool) → ℕ) (h : IsPads pads) where
  pub chars_of-rounds :
      (c : Cursor) (own : ℕ) (s : Bytes)
      → All IsByte s
      → chars_of (rounds c (map (seen pads) (inverted own s))).1 ≡ text_of s
  unfolding rounds round
  chars_of-rounds c own [] bytes = refl
  chars_of-rounds c own (b ∷ s) (small, bytes) =
      let word = seen pads (own, 65535 - b) in
      let (c', out) = round word c in
      chars_of-append out (rounds c' (map (seen pads) (inverted own s))).1
      ∙ (ap (λ (t : Bytes). t ++ chars_of (rounds c' (map (seen pads) (inverted own s))).1)
            (chars_of-show (ascii_table (char_index word)) c
              ∙ ap (λ (n : ℕ). let char = ascii_table n in if char == 0 then [] else char ∷ [])
                  (char_index-seen pads h own b small))
          ∙ ap (λ (t : Bytes). (if char_of b == 0 then [] else char_of b ∷ []) ++ t)
              (chars_of-rounds c' own s bytes))

-- A line feed, or a printable ASCII character other than the apostrophe.
abbrev pub IsPrintable : ℕ → Type 0
IsPrintable c = (c ≡ 10) ⊎ ((32 ≤ c) × (c ≤ 126) × (c ≢ 39))

char_of-IsPrintable : (c : ℕ) → IsPrintable c → (char_of c ≡ c) × ((c == 0) ≡ false)
unfolding ascii_table
char_of-IsPrintable c h = ground arith

pub text_of-IsPrintable :
    (s rest : Bytes) → All IsPrintable s → text_of (s ++ rest) ≡ s ++ text_of rest
text_of-IsPrintable [] rest h = refl
text_of-IsPrintable (c ∷ s) rest (printable, h) =
    let (same, some_char) = char_of-IsPrintable c printable in
    rw (same, some_char) (ap (λ (t : Bytes). c ∷ t) (text_of-IsPrintable s rest h))

pub inverted-append :
    (own : ℕ) (s t : Bytes) → inverted own s ++ inverted own t ≡ inverted own (s ++ t)
inverted-append own [] t = refl
inverted-append own (b ∷ s) t =
    ap (λ (r : List (ℕ × ℕ)). (own, 65535 - b) ∷ r) (inverted-append own s t)
