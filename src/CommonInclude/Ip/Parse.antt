-- ===== src/CommonInclude/Ip/Parse.antt =====
-- What the two loops of `IpIsValid` do on one octet and its dot, and what they say of a string that
-- both accept.
use sneso_ip.Common.{
  ℕ, ◌+◌, ◌-◌, ◌*◌, ◌%◌, ◌≤◌, ◌<◌, ◌≡◌, ◌≢◌, refl, sym, subst, true, false, [], ◌∷◌, ◌++◌, arith,
  Bytes, ltb, if◌then◌else◌, get_or,
}
use native.Mathlib.Decide.{ℕ_discrete}
use sneso_ip.Cstring.{dot}
use sneso_ip.CommonInclude.Ip.{parse_loop}
use sneso_ip.CommonInclude.Ip.Spec.{IsDigit, value, OctetFrom}
use sneso_ip.CommonInclude.Ip.Scan.{few_dots}

pub le-value : (n : ℕ) (s : Bytes) → n ≤ value n s
le-value n [] = omega arith
le-value n (c ∷ s) = omega (arith, le-value (n * 10 + (c - b'0')) s)

-- What the two tests say of a string that they accept, `pos` dots after its start and `seg` into an
-- octet: it ends in the fourth octet, or an octet, a dot and the rest of the address follow.
pub data Peel (s : Bytes) (seg pos : ℕ) : Type 0 where
  last : OctetFrom seg s → pos ≡ 3 → Peel s seg pos
  more :
      (a rest : Bytes) (out : ℕ)
      → s ≡ a ++ (dot ∷ rest)
      → OctetFrom seg a
      → pos < 3
      → get_or rest 0 0 ≢ dot
      → few_dots rest (pos + 1) ≡ true
      → (parse_loop rest 0 (pos + 1) out).0 ≡ true
      → Peel s seg pos

-- One digit before what is peeled off.
Peel-cons :
    (c : ℕ) (s : Bytes) (seg pos : ℕ)
    → IsDigit c
    → Peel s (seg * 10 + (c - b'0')) pos
    → Peel (c ∷ s) seg pos
Peel-cons c s seg pos d (last o e) = last ((d, o.0), o.1) e
Peel-cons c s seg pos d (more a rest out e o lt ne few ok) =
    more (c ∷ a) rest out (rw e) ((d, o.0), o.1) lt ne few ok

-- The `uint16_t` arithmetic on a digit does not wrap.
digit_seg :
    (c seg : ℕ)
    → IsDigit c
    → seg ≤ 255
    → (10 * seg + (c + 65536 - b'0')) % 65536 ≡ seg * 10 + (c - b'0')
digit_seg c seg d h = omega arith

parse_IsDigit :
    (c : ℕ) (s : Bytes) (seg exp out : ℕ)
    → c ≢ dot
    → (parse_loop (c ∷ s) seg exp out).0 ≡ true
    → IsDigit c
unfolding parse_loop
parse_IsDigit c s seg exp out nd ok = ground arith

-- On a digit the loop goes on with the larger number, if that is an octet, and otherwise refuses.
pub parse_digit :
    (c : ℕ) (s : Bytes) (seg exp out : ℕ)
    → seg ≤ 255
    → IsDigit c
    → parse_loop (c ∷ s) seg exp out ≡ (
        if ltb 255 (seg * 10 + (c - b'0'))
        then (false, out)
        else parse_loop s (seg * 10 + (c - b'0')) exp out)
unfolding parse_loop
parse_digit c s seg exp out hs d = rw (digit_seg c seg d hs) (ground arith)

pub parse_dot :
    (s : Bytes) (seg exp out : ℕ)
    → exp ≤ 3
    → parse_loop (dot ∷ s) seg exp out ≡ parse_loop s 0 (exp + 1) ((out * 256 + seg) % 65536)
unfolding parse_loop
parse_dot s seg exp out h = let e : (exp + 1) % 65536 ≡ exp + 1 = omega arith in rw e

few_dots-dot :
    (s : Bytes) (pos : ℕ)
    → few_dots (dot ∷ s) pos ≡ true
    → (pos < 3) × (get_or s 0 0 ≢ dot) × (few_dots s (pos + 1) ≡ true)
unfolding few_dots
few_dots-dot s pos h = ground arith

pub few_dots_digit : (c : ℕ) (s : Bytes) (pos : ℕ) → c ≢ dot → few_dots (c ∷ s) pos ≡ few_dots s pos
unfolding few_dots
few_dots_digit c s pos h = ground arith

Peel-dot :
    (s : Bytes) (seg pos out : ℕ)
    → seg ≤ 255
    → pos ≤ 3
    → few_dots (dot ∷ s) pos ≡ true
    → (parse_loop (dot ∷ s) seg pos out).0 ≡ true
    → Peel (dot ∷ s) seg pos
Peel-dot s seg pos out hs hp few ok =
    let (lt, ne, fs) = few_dots-dot s pos few in
    more [] s ((out * 256 + seg) % 65536) refl (tt, hs) lt ne fs
      (rw (parse_dot s seg pos out hp) at ok)

pub peel :
    (s : Bytes) (seg pos out : ℕ)
    → seg ≤ 255
    → pos ≤ 3
    → few_dots s pos ≡ true
    → (parse_loop s seg pos out).0 ≡ true
    → Peel s seg pos
peel [] seg pos out hs hp few ok = last (tt, hs) (unfold parse_loop in ground arith)
peel (c ∷ s) seg pos out hs hp few ok = elim (ℕ_discrete c dot) [
  | yes e ↦
      subst (λ (x : ℕ). Peel (x ∷ s) seg pos) (sym e)
        (Peel-dot s seg pos out hs hp (rw e at few) (rw e at ok))
  | no ne ↦
      let d = parse_IsDigit c s seg pos out ne ok in
      let ok' = rw (parse_digit c s seg pos out hs d) at ok in
      Peel-cons c s seg pos d (
        peel s (seg * 10 + (c - b'0')) pos out (ground arith) hp
          (rw (few_dots_digit c s pos ne) at few) (ground arith))
]
