-- ===== src/CommonInclude/Ip/Scan.antt =====
-- The first loop of `IpIsValid`: when it ends, and what it tests.
use sneso_ip.Common.{
  ℕ, zero, suc, ◌+◌, ◌%◌, ◌≤◌, ◌<◌, ◌≡◌, ◌≢◌, refl, Bool, true, false, none, some, [], ◌∷◌, ◌++◌,
  append_assoc, arith, Bytes, ltb, ◌==◌, if◌then◌else◌, length, length-append, get_or, All,
}
use sneso_ip.Cstring.{dot, IsCstring}
use sneso_ip.CommonInclude.Ip.{scan_dots, ip_is_valid_fuel}

-- The tests of the loop on the rest of the string, with `pos` dots before it.
unfoldable pub few_dots : Bytes → ℕ → Bool
few_dots [] pos = true
few_dots (c ∷ s) pos =
    let more = few_dots s pos in
    let more_pos = few_dots s (pos + 1) in
    if c == dot
    then (if ltb 2 pos then false else if get_or s 0 0 == dot then false else more_pos)
    else more

get_or-append : (pre s : Bytes) → get_or (pre ++ s) (length pre) 0 ≡ get_or s 0 0
get_or-append [] s = refl
get_or-append (x ∷ pre) s = get_or-append pre s

get_or-append_suc :
    (pre s : Bytes) (c i : ℕ) → i ≡ length pre + 1 → get_or (pre ++ (c ∷ s)) i 0 ≡ get_or s 0 0
get_or-append_suc [] s c i e = rw e
get_or-append_suc (x ∷ pre) s c zero e = absurd (omega arith)
get_or-append_suc (x ∷ pre) s c (suc i) e = get_or-append_suc pre s c i (omega arith)

-- One round, with the results of the two possible next rounds given.
scan_step :
    (fuel : ℕ) (t s : Bytes) (c i pos : ℕ)
    → c ≢ 0
    → get_or t i 0 ≡ c
    → get_or t (i + 1) 0 ≡ get_or s 0 0
    → pos ≤ 3
    → scan_dots fuel t ((i + 1) % 256) pos ≡ some (few_dots s pos)
    → (pos + 1 ≤ 3 → scan_dots fuel t ((i + 1) % 256) (pos + 1) ≡ some (few_dots s (pos + 1)))
    → scan_dots (suc fuel) t i pos ≡ some (few_dots (c ∷ s) pos)
unfolding scan_dots few_dots
scan_step fuel t s c i pos nz here ahead hp same more = ground arith

-- With an index that does not wrap and fuel for each byte and the NUL, the loop ends.
pub scan_dots-few_dots :
    (fuel : ℕ) (pre s : Bytes) (i pos : ℕ)
    → IsCstring s
    → i ≡ length pre
    → length pre + length s < 256
    → length s < fuel
    → pos ≤ 3
    → scan_dots fuel (pre ++ s) i pos ≡ some (few_dots s pos)
scan_dots-few_dots zero pre s i pos cs e hi hf hp = absurd (omega arith)
scan_dots-few_dots (suc fuel) pre [] i pos cs e hi hf hp =
    unfold scan_dots few_dots in rw (e, get_or-append pre [])
scan_dots-few_dots (suc fuel) pre (c ∷ s) i pos cs e hi hf hp =
    let grown = length-append pre (c ∷ []) in
    let next = λ (p : ℕ) (h : p ≤ 3). rw append_assoc at (
      scan_dots-few_dots fuel (pre ++ (c ∷ [])) s ((i + 1) % 256) p cs.1 (omega arith) (omega arith)
        (omega arith) h) in
    scan_step fuel (pre ++ (c ∷ s)) s c i pos cs.0 (rw e (get_or-append pre (c ∷ s)))
      (get_or-append_suc pre s c (i + 1) (omega arith)) hp (next pos hp) (next (pos + 1))

get_or-All : (P : ℕ → Type 0) (s : Bytes) (i : ℕ) → All P s → i < length s → P (get_or s i 0)
get_or-All P [] i h lt = absurd (omega arith)
get_or-All P (x ∷ s) zero h lt = h.0
get_or-All P (x ∷ s) (suc i) h lt = get_or-All P s i h.1 (omega arith)

scan_dots-endless :
    (fuel : ℕ) (s : Bytes) (i pos : ℕ)
    → All (λ c. (c ≢ 0) × (c ≢ dot)) s
    → 256 ≤ length s
    → i < 256
    → scan_dots fuel s i pos ≡ none
unfolding scan_dots
scan_dots-endless zero s i pos h long lt = refl
scan_dots-endless (suc fuel) s i pos h long lt =
    let (nz, nd) = get_or-All (λ c. (c ≢ 0) × (c ≢ dot)) s i h (omega arith) in
    ground (arith, scan_dots-endless fuel s ((i + 1) % 256) pos h long (omega arith))

-- On a string of 256 bytes or more with no dot `IpIsValid` never returns, whatever number of rounds
-- its loop is given: the `uint8_t` index goes round.
pub ip_is_valid_endless :
    (fuel : ℕ) (s : Bytes)
    → All (λ c. (c ≢ 0) × (c ≢ dot)) s
    → 256 ≤ length s
    → ip_is_valid_fuel fuel s ≡ none
unfolding ip_is_valid_fuel
ip_is_valid_endless fuel s h long =
    rw (scan_dots-endless fuel s 0 0 h long (omega arith), ip_is_valid_fuel)
