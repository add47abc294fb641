-- ===== src/Cstring.antt =====
-- The functions of the C library that the program calls on strings and buffers, as the C standard
-- describes them. A string is the list of its bytes before the terminating NUL; a buffer is the list
-- of all its bytes. A byte is a number below 256.
pub mod Strtol
use sneso_ip.Common.{
  ◌≡◌, refl, true, false, arith, ℕ, zero, suc, ◌+◌, ◌-◌, ◌*◌, ◌/◌, ◌%◌, Bool, not, ◌&&◌, ◌||◌, List,
  [], ◌∷◌, ◌++◌, Bytes, ltb, leb, ◌==◌, if◌then◌else◌, length, take, drop, replicate, bytes_eq, ◌≢◌,
  All,
}
use sneso_ip.Common.Int.{ℤ, pos, negsuc}

abbrev pub dot : ℕ
dot = b'.'

-- A string holds no NUL.
abbrev pub IsCstring : Bytes → Type 0
IsCstring = All (λ c. c ≢ 0)

-- The string that a buffer holds: its bytes up to the first NUL.
abbrev pub c_string : Bytes → Bytes
c_string [] = []
c_string (c ∷ s) = let rest = c_string s in if c == 0 then [] else c ∷ rest

-- The string of a buffer with a NUL behind it.
pub c_string-append : (s rest : Bytes) → IsCstring s → c_string (s ++ 0 ∷ rest) ≡ s
c_string-append [] rest h = refl
c_string-append (c ∷ s) rest (nonzero, h) =
    let other : (c == 0) ≡ false = ground arith in rw (other, c_string-append s rest h) refl

-- `memcmp(a, b, n) == 0`, and `strncmp(a, b, n) == 0` on strings.
abbrev pub memcmp_eq : Bytes → Bytes → ℕ → Bool
memcmp_eq a b n = bytes_eq (take n a) (take n b)

-- `memcpy(dst, src, n)` where `src` has at least `n` bytes.
abbrev pub memcpy : Bytes → Bytes → ℕ → Bytes
memcpy dst src n = take n src ++ drop n dst

-- What `strncpy(dst, src, n)` leaves in the first `n` bytes of `dst`.
abbrev pub strncpy : Bytes → ℕ → Bytes
strncpy src n = take n src ++ replicate (n - length src) 0

abbrev pub is_digit : ℕ → Bool
is_digit c = leb b'0' c && leb c b'9'

is_space : ℕ → Bool
is_space c = (c == 32) || (leb 9 c && leb c 13)

-- The digits of `atoi`, up to the first other byte.
unfoldable pub atoi_digits : ℕ → Bytes → ℕ
atoi_digits n [] = n
atoi_digits n (c ∷ s) =
    let rest = atoi_digits (n * 10 + (c - b'0')) s in if is_digit c then rest else n

atoi_sign : Bytes → ℤ
atoi_sign [] = pos 0
atoi_sign (c ∷ s) =
    if c == b'-'
    then negate (atoi_digits 0 s)
    else if c == b'+'
    then pos (atoi_digits 0 s)
    else pos (atoi_digits 0 (c ∷ s))
  where
    negate : ℕ → ℤ
    negate zero = pos 0
    negate (suc n) = negsuc n

-- `atoi`. A number that does not fit into an `int` is undefined in C; here it stays as it is.
unfoldable pub atoi : Bytes → ℤ
unfolding atoi_sign atoi_digits is_space
atoi [] = pos 0
atoi (c ∷ s) = let rest = atoi s in if is_space c then rest else atoi_sign (c ∷ s)

-- Conversion of an `int` to `uint8_t` and to `uint16_t`.
abbrev pub to_u8 : ℤ → ℕ
to_u8 (pos n) = n % 256
to_u8 (negsuc n) = 255 - n % 256

abbrev pub to_u16 : ℤ → ℕ
to_u16 (pos n) = n % 65536
to_u16 (negsuc n) = 65535 - n % 65536

-- All tokens that repeated calls of `strtok` with one separator return; `cur` is the token so far.
unfoldable pub tokens_from : ℕ → Bytes → Bytes → List Bytes
tokens_from sep [] [] = []
tokens_from sep [] (x ∷ cur) = (x ∷ cur) ∷ []
tokens_from sep (c ∷ s) cur =
    let more = tokens_from sep s (cur ++ (c ∷ [])) in
    let skip = tokens_from sep s [] in
    if c == sep then (if length cur == 0 then skip else cur ∷ skip) else more

unfoldable pub tokens : ℕ → Bytes → List Bytes
tokens sep s = tokens_from sep s []

-- `sprintf(out, "%u", n)` for a `uint8_t`.
unfoldable pub print_u8 : ℕ → Bytes
print_u8 n =
    if ltb n 10
    then (b'0' + n) ∷ []
    else if ltb n 100
    then (b'0' + n / 10) ∷ (b'0' + n % 10) ∷ []
    else (b'0' + n / 100) ∷ (b'0' + n / 10 % 10) ∷ (b'0' + n % 10) ∷ []

-- A hexadecimal digit, and its value.
abbrev pub is_xdigit : ℕ → Bool
is_xdigit c = is_digit c || ((leb b'A' c && leb c b'F') || (leb b'a' c && leb c b'f'))

abbrev pub xdigit_value : ℕ → ℕ
xdigit_value c = if is_digit c then c - b'0' else if leb b'a' c then c - 87 else c - 55

-- The digits of `strtol` in base 16.
unfoldable pub strtol_digits : ℕ → Bytes → ℕ
strtol_digits n [] = n
strtol_digits n (c ∷ s) =
    let rest = strtol_digits (n * 16 + xdigit_value c) s in if is_xdigit c then rest else n

-- An optional "0x" in front of a digit.
unfoldable pub strtol_prefix : Bytes → ℕ
unfolding strtol_digits
strtol_prefix (z ∷ x ∷ d ∷ s) =
    if (z == b'0') && (((x == b'x') || (x == b'X')) && is_xdigit d)
    then strtol_digits 0 (d ∷ s)
    else strtol_digits 0 (z ∷ x ∷ d ∷ s)
strtol_prefix s = strtol_digits 0 s

strtol_sign : Bytes → ℤ
unfolding strtol_prefix
strtol_sign [] = pos 0
strtol_sign (c ∷ s) =
    if c == b'-'
    then negative (strtol_prefix s)
    else if c == b'+'
    then positive (strtol_prefix s)
    else positive (strtol_prefix (c ∷ s))
  where
    positive : ℕ → ℤ
    positive n = pos (if leb n 0x7fff_ffff_ffff_ffff then n else 0x7fff_ffff_ffff_ffff)

    negative : ℕ → ℤ
    negative zero = pos 0
    negative (suc n) = negsuc (if leb n 0x7fff_ffff_ffff_ffff then n else 0x7fff_ffff_ffff_ffff)

-- `strtol(s, NULL, 16)`, with a `long` of 64 bits.
unfoldable pub strtol16 : Bytes → ℤ
unfolding strtol_sign is_space
strtol16 [] = pos 0
strtol16 (c ∷ s) = let rest = strtol16 s in if is_space c then rest else strtol_sign (c ∷ s)

unfoldable pub lacks : ℕ → Bytes → Bool
lacks sep [] = true
lacks sep (c ∷ s) = not (c == sep) && lacks sep s

-- What is documented of `snprintf`: a format without a percent sign is printed as it is.
abbrev pub PrintsPlain : (Bytes → Bytes) → Type 0
PrintsPlain printed = (s : Bytes) → lacks b'%' s ≡ true → printed s ≡ s
