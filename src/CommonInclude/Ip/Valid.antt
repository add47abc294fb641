-- ===== src/CommonInclude/Ip/Valid.antt =====
-- `IpIsValid` accepts exactly the dotted addresses of `Spec`.
use sneso_ip.Common.{
  ℕ, zero, suc, ◌+◌, ◌-◌, ◌*◌, ◌%◌, ◌≤◌, ◌<◌, ◌≡◌, ◌≢◌, ◌↔◌, ◌∙◌, ap, refl, sym, Bool, true, false,
  some, [], ◌∷◌, ◌++◌, append-nil, if◌then◌else◌, arith, Bytes, length, get_or, All,
}
use sneso_ip.Cstring.{dot, IsCstring}
use sneso_ip.CommonInclude.Ip.{parse_loop, parse_ip, ip_is_valid, ip_is_valid_fuel, scan_dots}
use sneso_ip.CommonInclude.Ip.Spec.{IsDigit, value, OctetFrom, IsOctet, IsDotted}
use sneso_ip.CommonInclude.Ip.Scan.{few_dots, scan_dots-few_dots}
use sneso_ip.CommonInclude.Ip.Parse.{
  le-value, Peel, last, more, peel, parse_digit, parse_dot, few_dots_digit,
}

-- What is left of an address: one octet, or two, three or four with dots between them.
abbrev Rest : ℕ → Bytes → Type 0
Rest zero s = IsOctet s
Rest (suc n) s =
    (a : Bytes) × (rest : Bytes) × (s ≡ a ++ (dot ∷ rest))
    × IsOctet a
    × (get_or rest 0 0 ≢ dot)
    × Rest n rest

Peel-Rest : (n : ℕ) (s : Bytes) (pos : ℕ) → pos + n ≡ 3 → Peel s 0 pos → Rest n s
Peel-Rest zero s pos e (last o p) = o
Peel-Rest (suc n) s pos e (last o p) = absurd (omega arith)
Peel-Rest zero s pos e (more a rest out q o lt ne few ok) = absurd (omega arith)
Peel-Rest (suc n) s pos e (more a rest out q o lt ne few ok) = (
  a,
  rest,
  q,
  o,
  ne,
  Peel-Rest n rest (pos + 1) (omega arith)
      (peel rest 0 (pos + 1) out (omega arith) (omega arith) few ok),
)

ne-nil : (s a rest : Bytes) → s ≡ a ++ (dot ∷ rest) → get_or s 0 0 ≢ dot → a ≢ []
ne-nil s a rest e h nil =
    h (ap (λ (t : Bytes). get_or t 0 0) (e ∙ ap (λ (t : Bytes). t ++ (dot ∷ rest)) nil))

Rest-IsDotted : (s : Bytes) → Rest 3 s → IsDotted s
Rest-IsDotted s (a, s₁, e₁, oa, h₁, (b, s₂, e₂, ob, h₂, (c, d, e₃, oc, h₃, od))) = (
  a,
  b,
  c,
  d,
  e₁ ∙ ap (λ (t : Bytes). a ++ (dot ∷ t)) (e₂ ∙ ap (λ (t : Bytes). b ++ (dot ∷ t)) e₃),
  oa,
  ob,
  oc,
  od,
  ne-nil s₁ b s₂ e₂ h₁,
  ne-nil s₂ c d e₃ h₂,
)

parse_octet :
    (a rest : Bytes) (seg exp out : ℕ)
    → seg ≤ 255
    → OctetFrom seg a
    → parse_loop (a ++ rest) seg exp out ≡ parse_loop rest (value seg a) exp out
parse_octet [] rest seg exp out hs o = refl
parse_octet (c ∷ a) rest seg exp out hs o =
    let fits = le-value (seg * 10 + (c - b'0')) a in
    let ih = parse_octet a rest (seg * 10 + (c - b'0')) exp out (omega arith) (o.0.1, o.1) in
    ground (arith, parse_digit c (a ++ rest) seg exp out hs o.0.0, ih)

few_dots_octet :
    (a rest : Bytes) (pos : ℕ) → All IsDigit a → few_dots (a ++ rest) pos ≡ few_dots rest pos
few_dots_octet [] rest pos h = refl
few_dots_octet (c ∷ a) rest pos h =
    few_dots_digit c (a ++ rest) pos (omega arith) ∙ few_dots_octet a rest pos h.1

few_dots_more :
    (s : Bytes) (pos : ℕ)
    → pos < 3
    → get_or s 0 0 ≢ dot
    → few_dots (dot ∷ s) pos ≡ few_dots s (pos + 1)
unfolding few_dots
few_dots_more s pos lt ne = ground arith

-- Both tests go over one octet and its dot.
module _ (a rest : Bytes) (pos out : ℕ) (o : IsOctet a) (lt : pos < 3) where
  few_dots_part : get_or rest 0 0 ≢ dot → few_dots (a ++ (dot ∷ rest)) pos ≡ few_dots rest (pos + 1)
  few_dots_part ne = few_dots_octet a (dot ∷ rest) pos o.0 ∙ few_dots_more rest pos lt ne

  parse_part :
      parse_loop (a ++ (dot ∷ rest)) 0 pos out
      ≡ parse_loop rest 0 (pos + 1) ((out * 256 + value 0 a) % 65536)
  parse_part =
      parse_octet a (dot ∷ rest) 0 pos out (omega arith) o
      ∙ parse_dot rest (value 0 a) pos out (omega arith)

few_dots-Rest : (n : ℕ) (s : Bytes) (pos : ℕ) → pos + n ≡ 3 → Rest n s → few_dots s pos ≡ true
few_dots-Rest zero s pos e r =
    ap (λ (t : Bytes). few_dots t pos) (sym (append-nil s))
    ∙ few_dots_octet s [] pos r.0
    ∙ (unfold few_dots in refl)
few_dots-Rest (suc n) s pos e (a, rest, q, o, ne, r) =
    rw q (
      few_dots_part a rest pos 0 o (omega arith) ne
      ∙ few_dots-Rest n rest (pos + 1) (omega arith) r)

parse-Rest :
    (n : ℕ) (s : Bytes) (pos out : ℕ) → pos + n ≡ 3 → Rest n s → (parse_loop s 0 pos out).0 ≡ true
parse-Rest zero s pos out e r =
    ap (λ (t : Bytes). (parse_loop t 0 pos out).0) (sym (append-nil s))
    ∙ ap (λ (t : Bool × ℕ). t.0) (parse_octet s [] 0 pos out (omega arith) r)
    ∙ (unfold parse_loop in ground arith)
parse-Rest (suc n) s pos out e (a, rest, q, o, ne, r) =
    rw (q, parse_part a rest pos out o (omega arith))
      (parse-Rest n rest (pos + 1) _ (omega arith) r)

octet_head : (a rest : Bytes) → All IsDigit a → a ≢ [] → get_or (a ++ rest) 0 0 ≢ dot
octet_head [] rest h ne = absurd (ne refl)
octet_head (c ∷ a) rest h ne = omega arith

last_head : (a : Bytes) → All IsDigit a → get_or a 0 0 ≢ dot
last_head [] h = omega arith
last_head (c ∷ a) h = omega arith

IsDotted-Rest : (s : Bytes) → IsDotted s → Rest 3 s
IsDotted-Rest s (a, b, c, d, e, oa, ob, oc, od, hb, hc) = (
  a,
  b ++ (dot ∷ (c ++ (dot ∷ d))),
  e,
  oa,
  octet_head b _ ob.0 hb,
  (b, c ++ (dot ∷ d), refl, ob, octet_head c _ oc.0 hc, (c, d, refl, oc, last_head d od.0, od)),
)

parse_ip-parse_loop : (s : Bytes) → (parse_ip s).0 ≡ (parse_loop s 0 0 0).0
unfolding parse_ip
parse_ip-parse_loop [] = refl
parse_ip-parse_loop (c ∷ s) = refl

valid_of_scan :
    (fuel : ℕ) (s : Bytes) (few : Bool)
    → scan_dots fuel s 0 0 ≡ some few
    → ip_is_valid_fuel fuel s ≡ some (if few then (parse_ip s).0 else false)
unfolding ip_is_valid_fuel parse_ip
valid_of_scan fuel s few e = ground arith

-- On a string that the index does not go round, the result is that of the two tests.
ip_is_valid-tests :
    (s : Bytes)
    → IsCstring s
    → length s < 256
    → ip_is_valid s ≡ some (if few_dots s 0 then (parse_loop s 0 0 0).0 else false)
unfolding ip_is_valid
ip_is_valid-tests s cs short = rw (← parse_ip-parse_loop s) (
    valid_of_scan 256 s (few_dots s 0)
      (scan_dots-few_dots 256 [] s 0 0 cs (omega arith) (omega arith) (omega arith) (omega arith)))

-- For a string of fewer than 256 bytes `IpIsValid` returns, and its result is true exactly when the
-- string consists of four octets, digits that spell at most 255, with dots between them, of which
-- the first and the last may be empty and those in the middle are not.
pub ip_is_valid-IsDotted :
    (s : Bytes)
    → IsCstring s
    → length s < 256
    → ((r : Bool) × (ip_is_valid s ≡ some r)) × ((ip_is_valid s ≡ some true) ↔ IsDotted s)
ip_is_valid-IsDotted s cs short =
    ((_, tests), (λ ok. sound (ground (arith, tests)) (ground (arith, tests)), complete))
  where
    tests : ip_is_valid s ≡ some (if few_dots s 0 then (parse_loop s 0 0 0).0 else false)
    tests = ip_is_valid-tests s cs short

    sound : few_dots s 0 ≡ true → (parse_loop s 0 0 0).0 ≡ true → IsDotted s
    sound few ok =
        Rest-IsDotted s
          (Peel-Rest 3 s 0 (omega arith) (peel s 0 0 0 (omega arith) (omega arith) few ok))

    complete : IsDotted s → ip_is_valid s ≡ some true
    complete h =
        let r = IsDotted-Rest s h in
        let few = few_dots-Rest 3 s 0 (omega arith) r in
        let ok = parse-Rest 3 s 0 0 (omega arith) r in tests ∙ (rw (few, ok))
