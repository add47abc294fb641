-- ===== src/Cstring/Strtol.antt =====
-- What `strtol` in base 16 makes of two digits.
use sneso_ip.Common.{
  ℕ, ◌+◌, ◌*◌, ◌<◌, ◌≡◌, refl, ◌∙◌, Bool, true, false, not, ◌&&◌, ◌||◌, [], ◌∷◌, arith, leb, ◌==◌,
  Bytes,
}
use sneso_ip.Common.Int.{pos}
use sneso_ip.Cstring.{is_xdigit, xdigit_value, strtol_digits, strtol_prefix, strtol16}
use sneso_ip.CommonInclude.Number.Hex.{hex_digit}

abbrev pub ends : Bytes → Bool
ends [] = true
ends (c ∷ s) = not (is_xdigit c)

-- What `strtol` does with a byte in base 16.
abbrev pub Reads : ℕ → ℕ → Type 0
Reads c x = (is_xdigit c ≡ true) × (xdigit_value c ≡ x)

pub hex_digit-Reads : (u : Bool) (x : ℕ) → x < 16 → Reads (hex_digit u x) x
hex_digit-Reads true x h = (ground arith, ground arith)
hex_digit-Reads false x h = (ground arith, ground arith)

-- No white space, sign or 'x'.
plain : ℕ → Bool
plain c =
    not ((c == 32) || (leb 9 c && leb c 13))
    && (not ((c == b'-') || (c == b'+')) && not ((c == b'x') || (c == b'X')))

hex_digit-plain : (x : ℕ) → x < 16 → plain (hex_digit true x) ≡ true
unfolding plain
hex_digit-plain x h = ground arith

digits-ends : (n : ℕ) (s : Bytes) → ends s ≡ true → strtol_digits n s ≡ n
unfolding strtol_digits
digits-ends n [] h = refl
digits-ends n (c ∷ s) h = ground arith

digits_step :
    (n c x : ℕ) (s : Bytes) → Reads c x → strtol_digits n (c ∷ s) ≡ strtol_digits (n * 16 + x) s
unfolding strtol_digits
digits_step n c x s (is, value) = rw (is, value) refl

digits_two :
    (c d x y : ℕ) (s : Bytes)
    → Reads c x
    → Reads d y
    → ends s ≡ true
    → strtol_digits 0 (c ∷ d ∷ s) ≡ x * 16 + y
digits_two c d x y s hc hd h =
    digits_step 0 c x (d ∷ s) hc
    ∙ (digits_step (0 * 16 + x) d y s hd ∙ (digits-ends ((0 * 16 + x) * 16 + y) s h ∙ omega arith))

prefix_plain :
    (c d : ℕ) (s : Bytes) → plain d ≡ true → strtol_prefix (c ∷ d ∷ s) ≡ strtol_digits 0 (c ∷ d ∷ s)
unfolding strtol_prefix plain
prefix_plain c d [] h = refl
prefix_plain c d (e ∷ s) h = ground arith

strtol16-plain :
    (c : ℕ) (s : Bytes) (n : ℕ)
    → plain c ≡ true
    → strtol_prefix (c ∷ s) ≡ n
    → n < 256
    → strtol16 (c ∷ s) ≡ pos n
unfolding strtol16 plain
strtol16-plain c s n hc e h =
    let space : ((c == 32) || (leb 9 c && leb c 13)) ≡ false = ground arith in
    let minus : (c == b'-') ≡ false = ground arith in
    let plus : (c == b'+') ≡ false = ground arith in
    let fits : leb n 0x7fff_ffff_ffff_ffff ≡ true = ground arith in
    rw (space, minus, plus, e, fits) refl

pub two_digits :
    (x y : ℕ) (behind : Bytes)
    → x < 16
    → y < 16
    → ends behind ≡ true
    → strtol16 (hex_digit true x ∷ hex_digit true y ∷ behind) ≡ pos (x * 16 + y)
two_digits x y behind lx ly h =
    let c = hex_digit true x in
    let d = hex_digit true y in
    strtol16-plain c (d ∷ behind) (x * 16 + y) (hex_digit-plain x lx)
      (prefix_plain c d behind (hex_digit-plain y ly)
        ∙ digits_two c d x y behind (hex_digit-Reads true x lx) (hex_digit-Reads true y ly) h)
      (omega arith)

-- Behind "0x" too.
prefix_hex :
    (d : ℕ) (s : Bytes)
    → is_xdigit d ≡ true
    → strtol_prefix (b'0' ∷ b'x' ∷ d ∷ s) ≡ strtol_digits 0 (d ∷ s)
unfolding strtol_prefix
prefix_hex d s h = rw h refl

strtol16_prefix :
    (s : Bytes) (n : ℕ)
    → strtol_prefix (b'0' ∷ b'x' ∷ s) ≡ n
    → n < 256
    → strtol16 (b'0' ∷ b'x' ∷ s) ≡ pos n
unfolding strtol16
strtol16_prefix s n e h =
    let fits : leb n 0x7fff_ffff_ffff_ffff ≡ true = ground arith in rw (e, fits) refl

pub prefixed_digits :
    (c d x y : ℕ)
    → Reads c x
    → Reads d y
    → x < 16
    → y < 16
    → strtol16 (b'0' ∷ b'x' ∷ c ∷ d ∷ []) ≡ pos (x * 16 + y)
prefixed_digits c d x y hc hd lx ly =
    strtol16_prefix (c ∷ d ∷ []) (x * 16 + y)
      (prefix_hex c (d ∷ []) hc.0 ∙ digits_two c d x y [] hc hd refl) (omega arith)
