-- ===== src/Rev2/Cli/Mac.antt =====
-- The command "mymac" on the text of a MAC address.
use sneso_ip.Common.{
  ℕ, suc, ◌+◌, ◌/◌, ◌%◌, ◌<◌, ◌≡◌, ◌∙◌, refl, Bool, true, false, some, [], ◌∷◌, arith, Bytes, codes,
  ◌==◌, get_or, drop, lt→ltb,
}
use sneso_ip.Common.Int.{pos}
use sneso_ip.Cstring.{c_string, is_xdigit}
use sneso_ip.CommonInclude.Number.{hex_to_uint8}
use sneso_ip.CommonInclude.Number.Hex.{hex_digit, hex_to_uint8-hex_digit}
use sneso_ip.Rev2.Network.{mac_is_valid, mac_digits}
use sneso_ip.Rev2.Cli.{Eeprom, set_config_param, get_config_param, set_mac, exec_command}

abbrev pub hex_pair : Bool → ℕ → Bytes → Bytes
hex_pair u n s = hex_digit u (n / 16) ∷ hex_digit u (n % 16) ∷ s

-- The text of a MAC address, its NUL, and what follows it in the buffer.
abbrev pub mac_text : Bool → ℕ → ℕ → ℕ → ℕ → ℕ → ℕ → Bytes → Bytes
mac_text u a b c d e f rest = hex_pair u a (
    b':'
    ∷ hex_pair u b (
        b':'
        ∷ hex_pair u c
            (b':' ∷ hex_pair u d (b':' ∷ hex_pair u e (b':' ∷ hex_pair u f (0 ∷ rest))))))

-- A character that is a hexadecimal digit is neither a colon nor the NUL.
abbrev IsXdigit : ℕ → Type 0
IsXdigit c = (is_xdigit c ≡ true) × ((c == b':') ≡ false) × ((c == 0) ≡ false)

hex_digit-IsXdigit : (u : Bool) (n : ℕ) → n < 16 → IsXdigit (hex_digit u n)
hex_digit-IsXdigit true n h = ground arith
hex_digit-IsXdigit false n h = ground arith

digit_round :
    (n : ℕ) (s : Bytes) (i : ℕ)
    → i < 17
    → IsXdigit (get_or s i 0)
    → mac_digits (suc n) s i ≡ mac_digits n s (i + 1)
unfolding mac_digits
digit_round n s i lt h = rw (h.1, h.0, lt→ltb i 17 lt) refl

colon_round :
    (n : ℕ) (s : Bytes) (i : ℕ)
    → i < 17
    → get_or s i 0 ≡ b':'
    → IsXdigit (get_or s (i + 1) 0)
    → mac_digits (suc n) s i ≡ mac_digits n s (i + 1 + 1)
unfolding mac_digits
colon_round n s i lt e h = rw (e, h.0, lt→ltb i 17 lt) refl

-- Six pairs of hexadecimal digits with colons between them.
module _ (a₀ a₁ b₀ b₁ c₀ c₁ d₀ d₁ e₀ e₁ f₀ f₁ : ℕ) where
  abbrev pairs : Bytes → Bytes
  pairs s =
      a₀ ∷ a₁ ∷ b':' ∷ b₀ ∷ b₁ ∷ b':' ∷ c₀ ∷ c₁ ∷ b':' ∷ d₀ ∷ d₁ ∷ b':' ∷ e₀ ∷ e₁ ∷ b':' ∷ f₀ ∷ f₁
      ∷ s

  module _ (ha₀ : IsXdigit a₀) (ha₁ : IsXdigit a₁) (hb₀ : IsXdigit b₀) (hb₁ : IsXdigit b₁)
      (hc₀ : IsXdigit c₀) (hc₁ : IsXdigit c₁) (hd₀ : IsXdigit d₀) (hd₁ : IsXdigit d₁)
      (he₀ : IsXdigit e₀) (he₁ : IsXdigit e₁) (hf₀ : IsXdigit f₀) (hf₁ : IsXdigit f₁) where
    c_string-pairs : (rest : Bytes) → c_string (pairs (0 ∷ rest)) ≡ pairs []
    c_string-pairs rest =
        rw (ha₀.2, ha₁.2, hb₀.2, hb₁.2, hc₀.2, hc₁.2, hd₀.2, hd₁.2, he₀.2, he₁.2, hf₀.2, hf₁.2) refl

    mac_digits-pairs : mac_digits 17 (pairs []) 0 ≡ 1
    mac_digits-pairs =
        let s = pairs [] in
        digit_round 16 s 0 (omega arith) ha₀
        ∙ (digit_round 15 s 1 (omega arith) ha₁
            ∙ (colon_round 14 s 2 (omega arith) refl hb₀
                ∙ (digit_round 13 s 4 (omega arith) hb₁
                    ∙ (colon_round 12 s 5 (omega arith) refl hc₀
                        ∙ (digit_round 11 s 7 (omega arith) hc₁
                            ∙ (colon_round 10 s 8 (omega arith) refl hd₀
                                ∙ (digit_round 9 s 10 (omega arith) hd₁
                                    ∙ (colon_round 8 s 11 (omega arith) refl he₀
                                        ∙ (digit_round 7 s 13 (omega arith) he₁
                                            ∙ (colon_round 6 s 14 (omega arith) refl hf₀
                                                ∙ (digit_round 5 s 16 (omega arith) hf₁
                                                    ∙ past 4 s)))))))))))
      where
        past : (n : ℕ) (s : Bytes) → mac_digits (suc n) s 17 ≡ 1
        past n s = unfold mac_digits in refl

    mac_is_valid-pairs : (rest : Bytes) → mac_is_valid (c_string (pairs (0 ∷ rest))) ≡ 1
    unfolding mac_is_valid
    mac_is_valid-pairs rest = rw (c_string-pairs rest) mac_digits-pairs

hex_pair-read : (u : Bool) (n : ℕ) (s : Bytes) → n < 256 → (hex_to_uint8 (hex_pair u n s)).0 ≡ n
hex_pair-read u n s h =
    hex_to_uint8-hex_digit u u (n / 16) (n % 16) s (omega arith) (omega arith) ∙ omega arith

mac_text-IsValid :
    (u : Bool) (a b c d e f : ℕ) (rest : Bytes)
    → (a < 256) × (b < 256) × (c < 256) × (d < 256) × (e < 256) × (f < 256)
    → mac_is_valid (c_string (mac_text u a b c d e f rest)) ≡ 1
mac_text-IsValid u a b c d e f rest h =
    let high = λ (n : ℕ) (lt : n < 256). hex_digit-IsXdigit u (n / 16) (omega arith) in
    let low = λ (n : ℕ). hex_digit-IsXdigit u (n % 16) (omega arith) in
    mac_is_valid-pairs _ _ _ _ _ _ _ _ _ _ _ _ (high a h.0) (low a) (high b h.1) (low b)
      (high c h.2) (low c) (high d h.3) (low d) (high e h.4) (low e) (high f h.5) (low f) rest

abbrev mac_bytes : Bytes → Bytes
mac_bytes s =
    let byte = λ (i : ℕ). (hex_to_uint8 (drop i s)).0 in
    byte 0 ∷ byte 3 ∷ byte 6 ∷ byte 9 ∷ byte 12 ∷ byte 15 ∷ []

set_mac-IsValid :
    (m : Eeprom) (s : Bytes)
    → mac_is_valid (c_string s) ≡ 1
    → set_mac m s ≡ some (pos 0, set_config_param m (mac_bytes s) 0x01 6)
unfolding set_mac
set_mac-IsValid m s h = rw h refl

get_set_mac :
    (m : Eeprom) (a b c d e f : ℕ)
    → get_config_param (set_config_param m (a ∷ b ∷ c ∷ d ∷ e ∷ f ∷ []) 0x01 6) 0x01 6
      ≡ a ∷ b ∷ c ∷ d ∷ e ∷ f ∷ []
unfolding get_config_param set_config_param
get_set_mac m a b c d e f = refl

-- The command "mymac" with six bytes in hexadecimal digits, in capitals or not, with colons between
-- them, succeeds, and the bytes are what is then read from the place of the MAC address.
pub mymac_stores :
    (u : Bool) (a b c d e f : ℕ) (rest stack : Bytes) (m : Eeprom)
    → (a < 256) × (b < 256) × (c < 256) × (d < 256) × (e < 256) × (f < 256)
    → (m' : Eeprom) × (exec_command stack m (codes "mymac") (mac_text u a b c d e f rest)
        ≡ some (pos 0, m'))
      × (get_config_param m' 0x01 6 ≡ a ∷ b ∷ c ∷ d ∷ e ∷ f ∷ [])
unfolding exec_command
mymac_stores u a b c d e f rest stack m h =
    let text = mac_text u a b c d e f rest in
    let read = λ (n : ℕ) (s : Bytes) (lt : n < 256). hex_pair-read u n s lt in
    (
      set_config_param m (mac_bytes text) 0x01 6,
      set_mac-IsValid m text (mac_text-IsValid u a b c d e f rest h),
      rw (read a _ h.0, read b _ h.1, read c _ h.2, read d _ h.3, read e _ h.4, read f _ h.5)
          (get_set_mac m a b c d e f),
    )
