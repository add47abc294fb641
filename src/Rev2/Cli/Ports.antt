-- ===== src/Rev2/Cli/Ports.antt =====
-- What `main` reads of the ports that the commands have stored.
use sneso_ip.Common.{
  ℕ, ◌+◌, ◌/◌, ◌%◌, ◌≤◌, ◌<◌, ◌≡◌, ◌≢◌, ◌∙◌, ◌⊎◌, inl, refl, true, false, some, [], ◌∷◌, arith,
  Bytes, codes, ◌==◌, get_or, length,
}
use sneso_ip.Common.Int.{pos}
use sneso_ip.Cstring.{c_string}
use sneso_ip.CommonInclude.Ip.Spec.{value}
use sneso_ip.CommonInclude.Number.{str_to_uint32}
use sneso_ip.CommonInclude.Number.Decimal.{all_digits, number-digits, str_to_uint32-number}
use sneso_ip.Rev2.Network.{port_is_valid}
use sneso_ip.Rev2.Cli.{Eeprom, set_config_param, get_config_param, set_port, exec_command, port_at}

-- Digits, at least one, that spell a port.
pub record IsPort (s : Bytes) : Type 0 where
  pub given : get_or s 0 0 ≢ 0
  pub short : length s < 0x8000_0000
  pub digits : all_digits s ≡ true
  pub below : value 0 s ≤ 65535

str_to_uint32-value : (s : Bytes) → IsPort s → str_to_uint32 s ≡ value 0 s
str_to_uint32-value s h =
    let lt = h.below in
    let small : value 0 s % 0x1_0000_0000 ≡ value 0 s = omega arith in
    str_to_uint32-number s h.short ∙ (number-digits s h.digits ∙ small)

-- The EEPROM with a port at an offset.
abbrev pub with_port : Eeprom → ℕ → ℕ → Eeprom
with_port e n = λ offset. set_config_param e (n % 256 ∷ n / 256 ∷ []) offset 2

port_valid :
    (s : Bytes) → get_or s 0 0 ≢ 0 → str_to_uint32 s ≤ 65535 → (port_is_valid s == 0) ≡ false
unfolding port_is_valid
port_valid s h lt = ground arith

pub set_port_lem :
    (e : Eeprom) (param : Bytes) (offset : ℕ)
    → IsPort (c_string param)
    → set_port e param offset ≡ some (pos 0, with_port e (value 0 (c_string param)) offset)
unfolding set_port
set_port_lem e param offset h =
    let read = str_to_uint32-value (c_string param) h in
    let lt = h.below in
    let small : value 0 (c_string param) % 65536 ≡ value 0 (c_string param) = omega arith in
    rw (port_valid (c_string param) h.given (omega (arith, read)), read, small) refl

pub port_at-with_port :
    (e : Eeprom) (n offset : ℕ) → n ≤ 65535 → port_at (with_port e n offset) offset ≡ n
unfolding port_at get_config_param set_config_param
port_at-with_port e n offset h = ground arith

pub port_at-with_port_ne :
    (e : Eeprom) (n offset other : ℕ)
    → (other + 2 ≤ offset) ⊎ (offset + 2 ≤ other)
    → port_at (with_port e n offset) other ≡ port_at e other
unfolding port_at get_config_param set_config_param
port_at-with_port_ne e n offset other h = ground arith

-- The commands "sourceport" and "serverport", one after the other, each with digits, at least one, for
-- a number up to 65535: `main`
-- reads both ports as the numbers that the digits spell.
pub ports_read_back :
    (stack : Bytes) (e : Eeprom) (p q : Bytes)
    → IsPort (c_string p)
    → IsPort (c_string q)
    → (e₁ : Eeprom) × (e₂ : Eeprom) × (exec_command stack e (codes "sourceport") p
        ≡ some (pos 0, e₁))
      × (exec_command stack e₁ (codes "serverport") q ≡ some (pos 0, e₂))
      × (port_at e₂ 0x5d ≡ value 0 (c_string p))
      × (port_at e₂ 0x5f ≡ value 0 (c_string q))
unfolding exec_command
ports_read_back stack e p q hp hq =
    let n = value 0 (c_string p) in
    let m = value 0 (c_string q) in
    let e₁ = with_port e n 0x5d in
    (
      e₁,
      with_port e₁ m 0x5f,
      set_port_lem e p 0x5d hp,
      set_port_lem e₁ q 0x5f hq,
      port_at-with_port_ne e₁ m 0x5f 0x5d (inl (omega arith)) ∙ port_at-with_port e n 0x5d hp.below,
      port_at-with_port e₁ m 0x5f hq.below,
    )
