-- ===== src/Terminal/Text.antt =====
-- The answer to "input".
use sneso_ip.Common.{
  ℕ, zero, suc, ◌+◌, ◌-◌, ◌*◌, ◌/◌, ◌%◌, ◌^◌, ◌<◌, ◌≡◌, ◌↔◌, refl, ap, ◌∙◌, some, [], ◌∷◌, ◌++◌,
  arith, Bytes, codes, ◌==◌, if◌then◌else◌, length, length-append,
}
use native.Mathlib.Nat.{mod-eq_of_lt, pow-suc, one-le-pow}
use sneso_ip.Common.Word.{bit}
use sneso_ip.Terminal.{write_bits, input_text, check_command, reply}

-- The number that binary digits spell behind `n`, the highest first.
abbrev pub read_binary : ℕ → Bytes → ℕ
read_binary n [] = n
read_binary n (c ∷ s) = read_binary (n * 2 + (c - b'0')) s

-- The lowest `n` binary digits of a number, the highest first.
digits : ℕ → ℕ → Bytes
digits zero w = []
digits (suc n) w = digits n (w / 2) ++ ((if w % 2 == 1 then b'1' else b'0') ∷ [])

input_text-digits : (w : ℕ) → input_text w ≡ digits 16 w ++ codes "\r\n"
unfolding input_text write_bits digits bit
input_text-digits w = refl

read_binary-append :
    (n : ℕ) (s t : Bytes) → read_binary n (s ++ t) ≡ read_binary (read_binary n s) t
read_binary-append n [] t = refl
read_binary-append n (c ∷ s) t = read_binary-append (n * 2 + (c - b'0')) s t

mod_double : (m w : ℕ) → 0 < m → w % (m * 2) ≡ w / 2 % m * 2 + w % 2
mod_double m w h = grind arith

read_binary-digits : (n w : ℕ) → read_binary 0 (digits n w) ≡ w % 2 ^ n
unfolding digits
read_binary-digits zero w = omega arith
read_binary-digits (suc n) w =
    let ih = read_binary-digits n (w / 2) in
    let split =
      read_binary-append 0 (digits n (w / 2)) ((if w % 2 == 1 then b'1' else b'0') ∷ []) in
    let e = mod_double (2 ^ n) w (one-le-pow n 2 (omega arith)) in
    let p = pow-suc 2 n in rw (split, ih, p, e) (ground arith)

length-digits : (n w : ℕ) → length (digits n w) ≡ n
unfolding digits
length-digits zero w = refl
length-digits (suc n) w = omega (
  arith,
  length-append (digits n (w / 2)) ((if w % 2 == 1 then b'1' else b'0') ∷ []),
  length-digits n (w / 2),
)

empty_of : (s : Bytes) → length s ≡ 0 → s ≡ []
empty_of [] h = refl
empty_of (c ∷ s) h = absurd (omega arith)

-- For input data of 16 bits, the answer to "input" begins with 16 digits that spell the input data in
-- binary, and a line end. Behind them it has what `strlen` finds behind the array, up to a NUL,
-- and no more, so that it takes 18 bytes only where a NUL stands there.
pub reply-input :
    (w : ℕ) (behind : Bytes)
    → w < 2 ^ 16
    → (s : Bytes) × (reply w behind (codes "input\r\n") ≡ some (s ++ codes "\r\n" ++ behind))
      × (length s ≡ 16)
      × (read_binary 0 s ≡ w)
      × ((length (s ++ codes "\r\n" ++ behind) ≡ 18) ↔ (behind ≡ []))
unfolding reply check_command
reply-input w behind h =
    let s = digits 16 w in
    let size = length-digits 16 w in
    let sum = length-append (s ++ codes "\r\n") behind in
    let line = length-append s (codes "\r\n") in
    (
      s,
      ap (λ (t : Bytes). some (t ++ behind)) (input_text-digits w),
      size,
      read_binary-digits 16 w ∙ mod-eq_of_lt h,
      ((λ e. empty_of behind (omega arith)), (λ e. let none = ap length e in omega arith)),
    )
