-- ===== src/CommonInclude/Number/Decimal.antt =====
-- What `StrToUint32` reads: the conversion from the last digit to the first, in 32-bit arithmetic,
-- against the value of the digits from left to right.
use sneso_ip.Common.{
  ℕ, zero, suc, ◌+◌, ◌-◌, ◌*◌, ◌/◌, ◌%◌, ◌^◌, ◌<◌, ◌≡◌, refl, sym, ap, ◌∙◌, Bool, true, ◌&&◌, [],
  ◌∷◌, arith, Bytes, ◌==◌, if◌then◌else◌, get_or, length,
}
use native.Mathlib.Nat.{mod-add-div, add-mul-mod_self_left, pow-suc}
use sneso_ip.Cstring.{is_digit}
use sneso_ip.CommonInclude.Ip.Spec.{value}
use sneso_ip.CommonInclude.Number.{strn_loop, strn_to_uint32, str_to_uint32}

unfoldable pub all_digits : Bytes → Bool
all_digits [] = true
all_digits (c ∷ s) = is_digit c && all_digits s

-- The number that a string stands for, modulo `2 ^ 32`: digits, at least none, behind at most one
-- sign. Any other string stands for the error.
unfoldable pub number : Bytes → ℕ
number [] = 0
number (c ∷ s) =
    if c == b'-'
    then (if all_digits s
        then (0x1_0000_0000 - value 0 s % 0x1_0000_0000) % 0x1_0000_0000
        else 0xffff_ffff)
    else if all_digits (c ∷ s)
    then value 0 (c ∷ s) % 0x1_0000_0000
    else 0xffff_ffff

mod_factor : (m a b : ℕ) → a % m * b % m ≡ a * b % m
mod_factor m a b =
    let split = ap (λ x. x * b % m) (mod-add-div a m) in
    let parts = add-mul-mod_self_left (a % m * b) m (a / m * b) in
    let e : (a % m + m * (a / m)) * b ≡ a % m * b + m * (a / m * b) = omega arith in
    sym parts ∙ (ap (λ x. x % m) (sym e) ∙ split)

-- The first `n` bytes are digits, and the number that they spell.
unfoldable digits_to : Bytes → ℕ → Bool
digits_to s zero = true
digits_to s (suc n) = digits_to s n && is_digit (get_or s n 0)

unfoldable spelt : Bytes → ℕ → ℕ
spelt s zero = 0
spelt s (suc n) = spelt s n * 10 + (get_or s n 0 - b'0')

digits_to-suc :
    (c : ℕ) (s : Bytes) (n : ℕ) → digits_to (c ∷ s) (suc n) ≡ (is_digit c && digits_to s n)
unfolding digits_to
digits_to-suc c s zero = ground arith
digits_to-suc c s (suc n) = ground (arith, digits_to-suc c s n)

all_digits-to : (s : Bytes) → digits_to s (length s) ≡ all_digits s
unfolding all_digits digits_to
all_digits-to [] = refl
all_digits-to (c ∷ s) = digits_to-suc c s (length s) ∙ ap (λ b. is_digit c && b) (all_digits-to s)

spread : (n d k : ℕ) → ((n * 10 + d) * k ≡ n * 10 * k + d * k) × (d * (k * 10) ≡ d * k * 10)
spread n d k = (omega arith, omega arith)

spelt-suc : (c : ℕ) (s : Bytes) (n : ℕ) → spelt (c ∷ s) (suc n) ≡ (c - b'0') * 10 ^ n + spelt s n
unfolding spelt
spelt-suc c s zero = omega arith
spelt-suc c s (suc n) =
    rw (pow-suc 10 n) (omega (arith, spelt-suc c s n, spread 0 (c - b'0') (10 ^ n)))

value-spelt : (s : Bytes) (n : ℕ) → value n s ≡ n * 10 ^ length s + spelt s (length s)
unfolding spelt
value-spelt [] n = omega arith
value-spelt (c ∷ s) n = rw (pow-suc 10 (length s)) (
    omega (
      arith,
      value-spelt s (n * 10 + (c - b'0')),
      spelt-suc c s (length s),
      spread n (c - b'0') (10 ^ length s),
    ))

-- A round at an index above 0.
strn_loop-round :
    (s : Bytes) (n place ret : ℕ)
    → strn_loop s (suc (suc n)) 1 place ret ≡ (
        let c = get_or s (suc n) 0 in
        if is_digit c
        then strn_loop s
            (suc n)
            1
            (place * 10 % 0x1_0000_0000)
            ((ret + (c - b'0') * place) % 0x1_0000_0000)
        else 0xffff_ffff)
unfolding strn_loop
strn_loop-round s n place ret = ground arith

step_place : (p : ℕ) → p % 0x1_0000_0000 * 10 % 0x1_0000_0000 ≡ p * 10 % 0x1_0000_0000
step_place p = omega arith

step_ret :
    (r d p : ℕ)
    → (r % 0x1_0000_0000 + d * (p % 0x1_0000_0000)) % 0x1_0000_0000 ≡ (r + d * p) % 0x1_0000_0000
step_ret r d p = omega (arith, mod_factor 0x1_0000_0000 p d)

step_spelt :
    (r d p v k : ℕ) → (r + d * p + p * 10 * v ≡ r + p * (v * 10 + d)) × (p * 10 * k ≡ p * (k * 10))
step_spelt r d p v k = (omega arith, omega arith)

-- The rounds of the loop over all bytes but the first.
strn_loop-tail :
    (c : ℕ) (s : Bytes) (n p r : ℕ)
    → strn_loop (c ∷ s) (suc n) 1 (p % 0x1_0000_0000) (r % 0x1_0000_0000) ≡ (
        if digits_to s n
        then strn_loop
            (c ∷ s)
            1
            1
            (p * 10 ^ n % 0x1_0000_0000)
            ((r + p * spelt s n) % 0x1_0000_0000)
        else 0xffff_ffff)
unfolding digits_to spelt
strn_loop-tail c s zero p r = rw (mul_one p, add_none r p) refl
  where
    mul_one : (p : ℕ) → p * 1 ≡ p
    mul_one p = omega arith

    add_none : (r p : ℕ) → r + p * 0 ≡ r
    add_none r p = omega arith
strn_loop-tail c s (suc n) p r =
    let d = get_or s n 0 - b'0' in
    let e = step_spelt r d p (spelt s n) (10 ^ n) in
    rw
      (
        strn_loop-round (c ∷ s) n (p % 0x1_0000_0000) (r % 0x1_0000_0000),
        step_place p,
        step_ret r d p,
        strn_loop-tail c s n (p * 10) (r + d * p),
        e.0,
        e.1,
        pow-suc 10 n,
      )
      (ground arith)

-- The last round, at the first byte.
strn_loop-head :
    (c : ℕ) (s : Bytes) (place ret : ℕ)
    → ret < 0x1_0000_0000
    → strn_loop (c ∷ s) 1 1 place ret ≡ (
        if c == b'-'
        then (0x1_0000_0000 - ret) % 0x1_0000_0000
        else if is_digit c
        then (ret + (c - b'0') * place) % 0x1_0000_0000
        else 0xffff_ffff)
unfolding strn_loop
strn_loop-head c s place ret h = ground (arith, minus_one ret)
  where
    minus_one :
        (r : ℕ)
        → r < 0x1_0000_0000
        → 0xffff_ffff * r % 0x1_0000_0000 ≡ (0x1_0000_0000 - r) % 0x1_0000_0000
    minus_one r h = omega arith

-- For a string of fewer than `2 ^ 31` bytes `StrToUint32` gives, modulo `2 ^ 32`, the number that its
-- digits spell, negated behind a minus sign, and 0 for the empty string; for any string other than
-- digits behind at most one minus sign it gives 0xffffffff.
pub str_to_uint32-number : (s : Bytes) → length s < 0x8000_0000 → str_to_uint32 s ≡ number s
unfolding str_to_uint32 strn_to_uint32 number all_digits
str_to_uint32-number [] h = unfold strn_loop in refl
str_to_uint32-number (c ∷ s) h =
    let len = length s in
    let count : suc len % 0x1_0000_0000 ≡ suc len = omega arith in
    let place : 1 * 10 ^ len ≡ 10 ^ len = omega arith in
    let ret : 0 + 1 * spelt s len ≡ value 0 s = omega (arith, value-spelt s 0) in
    let head =
      strn_loop-head c s (10 ^ len % 0x1_0000_0000) (value 0 s % 0x1_0000_0000) (omega arith) in
    let sum : (value 0 s % 0x1_0000_0000 + (c - b'0') * (10 ^ len % 0x1_0000_0000)) % 0x1_0000_0000
        ≡ value (0 + (c - b'0')) s % 0x1_0000_0000 =
      omega (
        arith,
        value-spelt s 0,
        value-spelt s (0 + (c - b'0')),
        mod_factor 0x1_0000_0000 (10 ^ len) (c - b'0'),
      ) in
    rw (count, strn_loop-tail c s len 1 0, place, ret, head, sum, all_digits-to s) (either c s)
  where
    either :
        (c : ℕ) (s : Bytes)
        → (if all_digits s
            then (if c == b'-'
                then (0x1_0000_0000 - value 0 s % 0x1_0000_0000) % 0x1_0000_0000
                else if is_digit c
                then value (0 + (c - b'0')) s % 0x1_0000_0000
                else 0xffff_ffff)
            else 0xffff_ffff)
          ≡ number (c ∷ s)
    either c s = ground arith

-- Digits stand for their value.
pub number-digits : (s : Bytes) → all_digits s ≡ true → number s ≡ value 0 s % 0x1_0000_0000
unfolding number all_digits
number-digits [] h = refl
number-digits (c ∷ s) h = ground arith
