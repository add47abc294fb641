-- ===== src/Vsnesoip/Password.antt =====
-- The password on its way from the client to the login server: `_SNESoIP_password` in
-- Archive/Rev2/utils/vsnesoip/login.c, and the session of the server.
use sneso_ip.Common.{
  ℕ, zero, suc, ◌+◌, ◌*◌, ◌/◌, ◌%◌, ◌^◌, ◌<◌, ◌≡◌, refl, ap, false, [], ◌∷◌, arith, Bytes, length,
  take, All,
}
use native.Mathlib.Nat.{pow-suc}
use sneso_ip.Cstring.{IsCstring, c_string-append}
use sneso_ip.Cstring.Strtol.{hex_digit-Reads, prefixed_digits}
use sneso_ip.CommonInclude.Number.Hex.{hex_digit}
use sneso_ip.Login.{Setting}
use sneso_ip.Login.Credentials.{unhex, xor_digit, xor_from, mix, plain}

-- `raw_crypt`: two digits for each byte.
unfoldable pub hex_text : Bytes → Bytes
hex_text [] = []
hex_text (c ∷ s) = hex_digit false (c / 16) ∷ hex_digit false (c % 16) ∷ hex_text s

-- `passwd_` and `raw_crypt` for the keystream.
unfoldable pub raw_crypt : (ℕ → ℕ) → Bytes → Bytes
raw_crypt stream passwd = hex_text (mix stream 0 passwd)

halves : (d v : ℕ) → d < 2 → ((d + 2 * v) / 2 ≡ v) × ((d + 2 * v) % 2 ≡ d)
halves d v h = omega arith

xor_digit-lt : (a b : ℕ) → xor_digit a b < 2
xor_digit-lt a b = ground arith

-- Twice the same byte of the keystream.
xor_from-xor_from : (n a b : ℕ) → a < 2 ^ n → xor_from n (xor_from n a b) b ≡ a
unfolding xor_from
xor_from-xor_from zero a b h = omega arith
xor_from-xor_from (suc n) a b h =
    let d = xor_digit (a % 2) (b % 2) in
    let v = xor_from n (a / 2) (b / 2) in
    let (high, low) = halves d v (xor_digit-lt (a % 2) (b % 2)) in
    let power = pow-suc 2 n in
    rw (high, low, xor_from-xor_from n (a / 2) (b / 2) (omega arith)) (ground arith)

xor_from-lt : (n a b : ℕ) → xor_from n a b < 2 ^ n
unfolding xor_from
xor_from-lt zero a b = omega arith
xor_from-lt (suc n) a b =
    let power = pow-suc 2 n in
    omega (arith, xor_digit-lt (a % 2) (b % 2), xor_from-lt n (a / 2) (b / 2))

abbrev pub IsBytes : Bytes → Type 0
IsBytes = All (λ c. c < 256)

mix-IsBytes : (stream : ℕ → ℕ) (i : ℕ) (s : Bytes) → IsBytes (mix stream i s)
unfolding mix
mix-IsBytes stream i [] = tt
mix-IsBytes stream i (c ∷ s) = (xor_from-lt 8 c (stream i), mix-IsBytes stream (i + 1) s)

mix-mix : (stream : ℕ → ℕ) (i : ℕ) (s : Bytes) → IsBytes s → mix stream i (mix stream i s) ≡ s
unfolding mix
mix-mix stream i [] h = refl
mix-mix stream i (c ∷ s) (lt, h) =
    rw (xor_from-xor_from 8 c (stream i) lt, mix-mix stream (i + 1) s h) refl

unhex-hex_text : (s : Bytes) → IsBytes s → unhex (hex_text s) ≡ s
unfolding unhex hex_text
unhex-hex_text [] h = refl
unhex-hex_text (c ∷ s) (lt, h) =
    let high = hex_digit-Reads false (c / 16) (omega arith) in
    let low = hex_digit-Reads false (c % 16) (omega arith) in
    let value =
      prefixed_digits (hex_digit false (c / 16)) (hex_digit false (c % 16)) (c / 16) (c % 16) high
        low (omega arith) (omega arith) in
    let same : (c / 16 * 16 + c % 16) % 256 ≡ c = omega arith in
    rw (value, same, unhex-hex_text s h) refl

pub length-hex_text : (s : Bytes) → length (hex_text s) ≡ 2 * length s
unfolding hex_text
length-hex_text [] = omega arith
length-hex_text (c ∷ s) = omega (arith, length-hex_text s)

take-length : (s : Bytes) → take (length s) s ≡ s
take-length [] = refl
take-length (c ∷ s) = ap (λ (t : Bytes). c ∷ t) (take-length s)

-- The login server recovers the client's password, if both use the same key and initial vector, the
-- password holds no NUL, and a NUL stands behind the server's array.
pub plain-raw_crypt :
    {Db : Type 0} (env : Setting Db) (key iv passwd rest : Bytes)
    → IsBytes passwd
    → IsCstring passwd
    → env.behind ≡ 0 ∷ rest
    → plain env key iv (raw_crypt (env.keystream key (take 10 iv)) passwd) ≡ passwd
unfolding plain raw_crypt
plain-raw_crypt env key iv passwd rest bytes cstring behind =
    let stream = env.keystream key (take 10 iv) in
    let mixed = mix stream 0 passwd in
    let whole : length (hex_text mixed) / 2 ≡ length mixed = omega (arith, length-hex_text mixed) in
    rw
      (
        whole,
        unhex-hex_text mixed (mix-IsBytes stream 0 passwd),
        take-length mixed,
        mix-mix stream 0 passwd bytes,
        behind,
      )
      (c_string-append passwd rest cstring)
