-- ===== src/Rev2/Start/Block.antt =====
-- What is read of a block that was stored, and which addresses `main` takes.
use sneso_ip.Common.{
  ℕ, zero, suc, ◌+◌, ◌-◌, ◌≤◌, ◌<◌, ◌≡◌, ◌↔◌, ◌⊎◌, inl, inr, refl, ap, Bool, true, false, none,
  some, [], ◌∷◌, ◌++◌, arith, Bytes, ltb, leb, ◌==◌, if◌then◌else◌, get_or, Bool-cases, length,
  Option,
}
use sneso_ip.Cstring.{c_string}
use sneso_ip.CommonInclude.Ip.{scan_dots, parse_ip, ip_is_valid_fuel, str_to_ip}
use sneso_ip.CommonInclude.Ip as Ip
use sneso_ip.Rev2.Network.{ip_is_valid}
use sneso_ip.Rev2.Cli.{Eeprom, set_config_param, get_config_param}
use sneso_ip.Rev2.Start.{count, uses_dhcp}

-- Three bytes of one value.
abbrev pub AllAre : ℕ → ℕ → ℕ → ℕ → Type 0
AllAre v a b c = (a ≡ v) × (b ≡ v) × (c ≡ v)

-- `main` asks DHCP exactly when the first three bytes of the stored address are all 0 or all 255,
-- whatever the fourth is.
pub uses_dhcp_iff :
    (a b c d : ℕ) → (uses_dhcp (a ∷ b ∷ c ∷ d ∷ []) ≡ true) ↔ (AllAre 0 a b c ⊎ AllAre 255 a b c)
unfolding uses_dhcp count
uses_dhcp_iff a b c d = ground arith

pub is_static :
    (a b c d : ℕ) → ¬ AllAre 0 a b c → ¬ AllAre 255 a b c → uses_dhcp (a ∷ b ∷ c ∷ d ∷ []) ≡ false
is_static a b c d no_zeros no_ones = elim (Bool-cases (uses_dhcp (a ∷ b ∷ c ∷ d ∷ []))) [
  | inl yes_dhcp ↦ ground (arith, uses_dhcp_iff a b c d)
  | inr other ↦ other
]

-- The check of the firmware accepts what the one of the tools does.
valid_answer :
    (o : Option Bool) (b : Bool)
    → ◌≡◌ {A = Option Bool}
        (elim o [ none ↦ none | some true ↦ some b | some false ↦ some false ])
        (some true)
    → ◌≡◌ {A = Option ℕ}
        (elim o [ none ↦ none | some true ↦ some (if b then 1 else 0) | some false ↦ some 255 ])
        (some 1)
valid_answer none b h = absurd (ground arith)
valid_answer (some true) true h = refl
valid_answer (some true) false h = absurd (ground arith)
valid_answer (some false) b h = absurd (ground arith)

pub ip_is_valid-true : (s : Bytes) → Ip.ip_is_valid s ≡ some true → ip_is_valid s ≡ some 1
unfolding ip_is_valid Ip.ip_is_valid ip_is_valid_fuel
ip_is_valid-true s h = valid_answer (scan_dots 256 s 0 0) (parse_ip s).0 h

-- A stored block, read from an index on.
abbrev pub window : Bytes → ℕ → ℕ → Bytes
window p i zero = []
window p i (suc n) = get_or p i 0 ∷ window p (suc i) n

pub get-set :
    (e : Eeprom) (p : Bytes) (offset len i j n : ℕ)
    → j ≡ offset + i
    → i + n ≤ len
    → get_config_param (set_config_param e p offset len) j n ≡ window p i n
unfolding get_config_param set_config_param
get-set e p offset len i j zero same h = refl
get-set e p offset len i j (suc n) same h =
    let low : leb offset j ≡ true = ground arith in
    let high : ltb j (offset + len) ≡ true = ground arith in
    let index : j - offset ≡ i = omega arith in
    let next = get-set e p offset len (suc i) (j + 1) n (omega arith) (omega arith) in
    rw (low, high, index, next) refl

window-suc : (c : ℕ) (p : Bytes) (i n : ℕ) → window (c ∷ p) (suc i) n ≡ window p i n
window-suc c p i zero = refl
window-suc c p i (suc n) = ap (λ (t : Bytes). get_or p i 0 ∷ t) (window-suc c p (suc i) n)

pub c_string-window :
    (p : Bytes) (n : ℕ) (behind : Bytes)
    → length (c_string p) < n
    → c_string (window p 0 n ++ behind) ≡ c_string p
c_string-window p zero behind h = absurd (omega arith)
c_string-window [] (suc n) behind h = refl
c_string-window (c ∷ p) (suc n) behind h = elim (Bool-cases (c == 0)) [
  | inl end ↦ rw end refl
  | inr other ↦
      let short : length (c_string p) < n = ground arith in
      rw (other, window-suc c p 0 n, c_string-window p n behind short) refl
]
