-- ===== src/Login/Mysql/Print.antt =====
-- `atoi` reads a printed number back.
use sneso_ip.Common.{
  ℕ, zero, suc, ◌+◌, ◌-◌, ◌*◌, ◌/◌, ◌%◌, ◌^◌, ◌<◌, ◌≡◌, refl, ap, ◌∙◌, Bool, true, false, ◌&&◌,
  ◌||◌, [], ◌∷◌, ◌++◌, arith, Bytes, ltb, leb, ◌==◌, length, length-append, Bool-cases, inl, inr,
}
use native.Mathlib.Nat.{pow-suc}
use sneso_ip.Common.Int.{pos}
use sneso_ip.Cstring.{atoi, atoi_digits, is_digit}
use sneso_ip.Login.Mysql.{digits, print_int}

abbrev pub all_digits : Bytes → Bool
all_digits [] = true
all_digits (c ∷ s) = is_digit c && all_digits s

all_digits-append :
    (s t : Bytes) → all_digits s ≡ true → all_digits t ≡ true → all_digits (s ++ t) ≡ true
all_digits-append [] t h e = e
all_digits-append (c ∷ s) t h e = ground (arith, all_digits-append s t)

atoi_digits-append :
    (n : ℕ) (s t : Bytes)
    → all_digits s ≡ true
    → atoi_digits n (s ++ t) ≡ atoi_digits (atoi_digits n s) t
unfolding atoi_digits
atoi_digits-append n [] t h = refl
atoi_digits-append n (c ∷ s) t h =
    let is : is_digit c ≡ true = ground arith in
    rw (is, atoi_digits-append (n * 10 + (c - b'0')) s t (ground arith)) refl

digit-all_digits : (k : ℕ) → k < 10 → all_digits ((b'0' + k) ∷ []) ≡ true
digit-all_digits k h = ground arith

pub digits-all_digits : (n k : ℕ) → all_digits (digits n k) ≡ true
unfolding digits
digits-all_digits zero k = refl
digits-all_digits (suc n) k =
    let high = digits-all_digits n (k / 10) in
    elim (Bool-cases (ltb k 10)) [
      | inl small ↦ rw small (digit-all_digits k (ground arith))
      | inr large ↦ rw large (
          all_digits-append (digits n (k / 10)) ((b'0' + k % 10) ∷ []) high
            (digit-all_digits (k % 10) (omega arith)))
    ]

digits-positive : (n k : ℕ) → 0 < length (digits (suc n) k)
unfolding digits
digits-positive n k = ground (arith, length-append (digits n (k / 10)) ((b'0' + k % 10) ∷ []))

one_digit : (m k : ℕ) → k < 10 → atoi_digits m ((b'0' + k) ∷ []) ≡ m * 10 + k
unfolding atoi_digits
one_digit m k h = ground arith

atoi_digits-digits : (n k : ℕ) → k < 10 ^ n → atoi_digits 0 (digits n k) ≡ k
unfolding digits
atoi_digits-digits zero k h = unfold atoi_digits in omega arith
atoi_digits-digits (suc n) k h =
    let power = pow-suc 10 n in
    let high = atoi_digits-digits n (k / 10) (omega arith) in
    let last = b'0' + k % 10 in
    elim (Bool-cases (ltb k 10)) [
      | inl small ↦ rw small (one_digit 0 k (ground arith) ∙ omega arith)
      | inr large ↦ rw large (
          atoi_digits-append 0 (digits n (k / 10)) (last ∷ []) (digits-all_digits n (k / 10))
          ∙ (ap (λ (m : ℕ). atoi_digits m (last ∷ [])) high
              ∙ (one_digit (k / 10) (k % 10) (omega arith) ∙ omega arith)))
    ]

-- A text of digits has no white space and no sign.
atoi_plain :
    (s t : Bytes)
    → all_digits s ≡ true
    → 0 < length s
    → atoi (s ++ t) ≡ pos (atoi_digits 0 (s ++ t))
unfolding atoi
atoi_plain [] t h e = absurd (omega arith)
atoi_plain (c ∷ s) t h e =
    let space : ((c == 32) || (leb 9 c && leb c 13)) ≡ false = ground arith in
    let minus : (c == b'-') ≡ false = ground arith in
    let plus : (c == b'+') ≡ false = ground arith in rw (space, minus, plus) refl

pub atoi-print_int : (k : ℕ) (t : Bytes) → k < 10 ^ 10 → atoi (print_int (pos k) ++ 10 ∷ t) ≡ pos k
unfolding print_int
atoi-print_int k t h =
    let all = digits-all_digits 10 k in
    atoi_plain (digits 10 k) (10 ∷ t) all (digits-positive 9 k)
    ∙ ap pos (
        atoi_digits-append 0 (digits 10 k) (10 ∷ t) all
        ∙ (ap (λ (m : ℕ). atoi_digits m (10 ∷ t)) (atoi_digits-digits 10 k h) ∙ line_end k t))
  where
    line_end : (m : ℕ) (t : Bytes) → atoi_digits m (10 ∷ t) ≡ m
    line_end m t = unfold atoi_digits in refl
