-- ===== src/CommonInclude/Ip/Read.antt =====
-- `StrToIP` on a dotted address: which bytes it writes.
use sneso_ip.Common.{
  ℕ, ◌+◌, ◌-◌, ◌*◌, ◌≤◌, ◌<◌, ◌≡◌, ◌≢◌, ◌∙◌, ap, refl, sym, true, some, [], ◌∷◌, ◌++◌, append-nil,
  append_assoc, arith, Bytes, length, length-append, All, All-append,
}
use sneso_ip.Common.Int.{pos}
use sneso_ip.Cstring.{dot, IsCstring, tokens, tokens_from, atoi, atoi_digits, print_u8}
use sneso_ip.CommonInclude.Ip.{ip_is_valid, str_to_ip, write_tokens}
use sneso_ip.CommonInclude.Ip.Spec.{IsDigit, value, IsOctet, join4, dotted_quad}
use sneso_ip.CommonInclude.Ip.Valid.{ip_is_valid-IsDotted}

-- One token up to its separator, and the token at the end.
tokens_digits :
    (a rest cur : Bytes)
    → All IsDigit a
    → tokens_from dot (a ++ rest) cur ≡ tokens_from dot rest (cur ++ a)
unfolding tokens_from
tokens_digits [] rest cur h = ap (tokens_from dot rest) (sym (append-nil cur))
tokens_digits (c ∷ a) rest cur h =
    ground (arith, tokens_digits a rest (cur ++ (c ∷ [])) h.1, append_assoc cur (c ∷ []) a)

tokens_at_dot :
    (a rest : Bytes) → a ≢ [] → tokens_from dot (dot ∷ rest) a ≡ a ∷ tokens_from dot rest []
unfolding tokens_from
tokens_at_dot [] rest h = absurd (h refl)
tokens_at_dot (c ∷ a) rest h = ground arith

tokens_end : (a : Bytes) → a ≢ [] → tokens_from dot [] a ≡ a ∷ []
unfolding tokens_from
tokens_end [] h = absurd (h refl)
tokens_end (c ∷ a) h = refl

tokens_part :
    (a rest : Bytes)
    → All IsDigit a
    → a ≢ []
    → tokens_from dot (a ++ (dot ∷ rest)) [] ≡ a ∷ tokens_from dot rest []
tokens_part a rest h ne = tokens_digits a (dot ∷ rest) [] h ∙ tokens_at_dot a rest ne

tokens_last : (a : Bytes) → All IsDigit a → a ≢ [] → tokens_from dot a [] ≡ a ∷ []
tokens_last a h ne =
    ap (λ (t : Bytes). tokens_from dot t []) (sym (append-nil a))
    ∙ tokens_digits a [] [] h
    ∙ tokens_end a ne

atoi_digits-value : (n : ℕ) (a : Bytes) → All IsDigit a → atoi_digits n a ≡ value n a
unfolding atoi_digits
atoi_digits-value n [] h = refl
atoi_digits-value n (c ∷ a) h = ground (arith, atoi_digits-value (n * 10 + (c - b'0')) a h.1)

atoi_octet : (a : Bytes) → All IsDigit a → a ≢ [] → atoi a ≡ pos (value 0 a)
unfolding atoi
atoi_octet [] h ne = absurd (ne refl)
atoi_octet (c ∷ a) h ne = ground (arith, atoi_digits-value (0 * 10 + (c - b'0')) a h.1)

module _ (a b c d : Bytes) (o : IsOctet a × IsOctet b × IsOctet c × IsOctet d)
    (ne : (a ≢ []) × (b ≢ []) × (c ≢ []) × (d ≢ [])) where
  tokens-join4 : tokens dot (join4 a b c d) ≡ a ∷ b ∷ c ∷ d ∷ []
  unfolding tokens
  tokens-join4 =
      tokens_part a _ o.0.0 ne.0
      ∙ ap (◌∷◌ a) (
          tokens_part b _ o.1.0 ne.1
          ∙ ap (◌∷◌ b) (tokens_part c d o.2.0 ne.2 ∙ ap (◌∷◌ c) (tokens_last d o.3.0 ne.3)))

  -- On four octets, none empty, `StrToIP` writes their four values to the first four bytes of its
  -- destination and leaves what follows.
  pub str_to_ip-join4 :
      (x₀ x₁ x₂ x₃ : ℕ) (tail : Bytes)
      → str_to_ip (join4 a b c d) (x₀ ∷ x₁ ∷ x₂ ∷ x₃ ∷ tail)
        ≡ value 0 a ∷ value 0 b ∷ value 0 c ∷ value 0 d ∷ tail
  unfolding str_to_ip write_tokens
  str_to_ip-join4 x₀ x₁ x₂ x₃ tail =
      rw
        (
          tokens-join4,
          atoi_octet a o.0.0 ne.0,
          atoi_octet b o.1.0 ne.1,
          atoi_octet c o.2.0 ne.2,
          atoi_octet d o.3.0 ne.3,
        )
        (ground arith)

-- The print of a byte is an octet, not empty, of at most three digits, with the byte for its value.
pub print_u8-IsOctet :
    (n : ℕ)
    → n < 256
    → IsOctet (print_u8 n)
      × (value 0 (print_u8 n) ≡ n)
      × (print_u8 n ≢ [])
      × (length (print_u8 n) ≤ 3)
      × IsCstring (print_u8 n)
unfolding print_u8
print_u8-IsOctet n h = ground arith

pub join4-IsCstring :
    (a b c d : Bytes)
    → IsCstring a
    → IsCstring b
    → IsCstring c
    → IsCstring d
    → IsCstring (join4 a b c d)
join4-IsCstring a b c d ha hb hc hd =
    let join = λ (x y : Bytes) (hx : IsCstring x) (hy : IsCstring y).
      All-append (λ (n : ℕ). n ≢ 0) x (dot ∷ y) hx (omega arith, hy) in
    join a _ ha (join b _ hb (join c d hc hd))

pub length-join4 :
    (a b c d : Bytes) → length (join4 a b c d) ≡ length a + length b + length c + length d + 3
length-join4 a b c d = omega (
  arith,
  length-append a (dot ∷ (b ++ (dot ∷ (c ++ (dot ∷ d))))),
  length-append b (dot ∷ (c ++ (dot ∷ d))),
  length-append c (dot ∷ d),
)

-- The text of an address is accepted by `IpIsValid`, and `StrToIP` reads its four bytes back.
pub str_to_ip-dotted_quad :
    (a b c d x₀ x₁ x₂ x₃ : ℕ) (tail : Bytes)
    → a < 256
    → b < 256
    → c < 256
    → d < 256
    → (ip_is_valid (dotted_quad a b c d) ≡ some true)
      × (str_to_ip (dotted_quad a b c d) (x₀ ∷ x₁ ∷ x₂ ∷ x₃ ∷ tail) ≡ a ∷ b ∷ c ∷ d ∷ tail)
str_to_ip-dotted_quad a b c d x₀ x₁ x₂ x₃ tail ha hb hc hd =
    let (oa, va, na, la, ca) = print_u8-IsOctet a ha in
    let (ob, vb, nb, lb, cb) = print_u8-IsOctet b hb in
    let (oc, vc, nc, lc, cc') = print_u8-IsOctet c hc in
    let (od, vd, nd, ld, cd) = print_u8-IsOctet d hd in
    let size = length-join4 (print_u8 a) (print_u8 b) (print_u8 c) (print_u8 d) in
    let valid =
      ip_is_valid-IsDotted (dotted_quad a b c d) (join4-IsCstring _ _ _ _ ca cb cc' cd)
        (omega arith) in
    (
      valid.1.1 (_, _, _, _, refl, oa, ob, oc, od, nb, nc),
      str_to_ip-join4 _ _ _ _ (oa, ob, oc, od) (na, nb, nc, nd) x₀ x₁ x₂ x₃ tail
          ∙ (rw (va, vb, vc, vd)),
    )
