-- ===== src/Rev2/Cli/Store.antt =====
-- Which values the EEPROM holds.
use sneso_ip.Common.{
  ℕ, zero, suc, ◌+◌, ◌-◌, ◌/◌, ◌%◌, ◌<◌, Bool, true, false, not, Option, none, some, List, [], ◌∷◌,
  Bytes, codes, arith, ltb, ◌==◌, if◌then◌else◌, get_or, set, drop, length, bytes_eq, All,
}
use sneso_ip.Common.Int.{ℤ, pos, negsuc}
use sneso_ip.Cstring.{c_string, dot, tokens, atoi, to_u8}
use sneso_ip.CommonInclude.Ip.{str_to_ip, write_tokens}
use sneso_ip.CommonInclude.Number.{str_to_uint32, hex_to_uint8}
use sneso_ip.Rev2.Network.{ip_is_valid, mac_is_valid, port_is_valid}
use sneso_ip.Rev2.Cli.{
  Eeprom, Result, set_config_param, wipe_eeprom, set_address, set_text, set_port, set_mac, set_key,
  exec_command,
}

abbrev pub IsByte : ℕ → Type 0
IsByte c = c < 256

abbrev pub HoldsBytes : Eeprom → Type 0
HoldsBytes e = (j : ℕ) → IsByte (e j)

-- A result comes with an EEPROM of bytes.
abbrev pub GivesBytes : Result → Type 0
GivesBytes none = Unit {0}
GivesBytes (some (answer, e)) = HoldsBytes e

get_or-IsByte : (s : Bytes) (i : ℕ) → All IsByte s → IsByte (get_or s i 0)
get_or-IsByte [] i h = omega arith
get_or-IsByte (c ∷ s) zero h = h.0
get_or-IsByte (c ∷ s) (suc i) h = get_or-IsByte s i h.1

pub set-IsByte : (s : Bytes) (i v : ℕ) → All IsByte s → IsByte v → All IsByte (set s i v)
set-IsByte [] i v h k = tt
set-IsByte (c ∷ s) zero v h k = (k, h.1)
set-IsByte (c ∷ s) (suc i) v h k = (h.0, set-IsByte s i v h.1 k)

to_u8-IsByte : (z : ℤ) → IsByte (to_u8 z)
to_u8-IsByte (pos n) = omega arith
to_u8-IsByte (negsuc n) = omega arith

write_tokens-IsByte :
    (ts : List Bytes) (i : ℕ) (dst : Bytes) → All IsByte dst → All IsByte (write_tokens ts i dst)
unfolding write_tokens
write_tokens-IsByte [] i dst h = h
write_tokens-IsByte (t ∷ ts) i dst h =
    write_tokens-IsByte ts ((i + 1) % 256) (set dst i (to_u8 (atoi t)))
      (set-IsByte dst i (to_u8 (atoi t)) h (to_u8-IsByte (atoi t)))

set_config_param-HoldsBytes :
    (e : Eeprom) (param : Bytes) (offset len : ℕ)
    → HoldsBytes e
    → All IsByte param
    → HoldsBytes (set_config_param e param offset len)
unfolding set_config_param
set_config_param-HoldsBytes e param offset len h p j =
    ground (arith, h j, get_or-IsByte param (j - offset) p)

if-GivesBytes :
    (b : Bool) (r r' : Result) → GivesBytes r → GivesBytes r' → GivesBytes (if b then r else r')
if-GivesBytes true r r' h h' = h
if-GivesBytes false r r' h h' = h'

hex_to_uint8-IsByte : (s : Bytes) → IsByte (hex_to_uint8 s).0
unfolding hex_to_uint8
hex_to_uint8-IsByte s = omega arith

module _ (e : Eeprom) (h : HoldsBytes e) where
  set_address-GivesBytes :
      (stack param : Bytes) (o : Option ℕ) (offset : ℕ)
      → All IsByte stack
      → GivesBytes (set_address e stack param o offset)
  unfolding set_address str_to_ip
  set_address-GivesBytes stack param none offset bytes = tt
  set_address-GivesBytes stack param (some valid) offset bytes =
      let text = c_string param in
      if-GivesBytes (valid == 0) (some (negsuc 1, e))
        (some (pos 0, set_config_param e (str_to_ip text stack) offset 4)) h
        (set_config_param-HoldsBytes e (str_to_ip text stack) offset 4 h
          (write_tokens-IsByte (tokens dot text) 0 stack bytes))

  set_text-GivesBytes :
      (param : Bytes) (offset len : ℕ) → All IsByte param → GivesBytes (set_text e param offset len)
  unfolding set_text
  set_text-GivesBytes param offset len bytes =
      if-GivesBytes (ltb len (length (c_string param))) (some (negsuc 1, e))
        (some (pos 0, set_config_param e param offset len)) h
        (set_config_param-HoldsBytes e param offset len h bytes)

  set_port-GivesBytes : (param : Bytes) (offset : ℕ) → GivesBytes (set_port e param offset)
  unfolding set_port
  set_port-GivesBytes param offset =
      let port = str_to_uint32 (c_string param) % 65536 in
      let block = port % 256 ∷ port / 256 ∷ [] in
      if-GivesBytes (port_is_valid (c_string param) == 0) (some (negsuc 1, e))
        (some (pos 0, set_config_param e block offset 2)) h
        (set_config_param-HoldsBytes e block offset 2 h (omega arith, (omega arith, tt)))

  set_mac-GivesBytes : (param : Bytes) → GivesBytes (set_mac e param)
  unfolding set_mac
  set_mac-GivesBytes param =
      let small = λ (i : ℕ). hex_to_uint8-IsByte (drop i param) in
      let byte = λ (i : ℕ). (hex_to_uint8 (drop i param)).0 in
      let block = byte 0 ∷ byte 3 ∷ byte 6 ∷ byte 9 ∷ byte 12 ∷ byte 15 ∷ [] in
      if-GivesBytes (mac_is_valid (c_string param) == 0) (some (negsuc 1, e))
        (some (pos 0, set_config_param e block 0x01 6)) h
        (set_config_param-HoldsBytes e block 0x01 6 h
          (small 0, (small 3, (small 6, (small 9, (small 12, (small 15, tt)))))))

  set_key-GivesBytes : (param : Bytes) → All IsByte param → GivesBytes (set_key e param)
  unfolding set_key
  set_key-GivesBytes param bytes =
      if-GivesBytes (not (length (c_string param) == 10)) (some (negsuc 1, e))
        (some (pos 0, set_config_param e param 0x53 10)) h
        (set_config_param-HoldsBytes e param 0x53 10 h bytes)

  wipe-HoldsBytes : HoldsBytes (wipe_eeprom e)
  unfolding wipe_eeprom
  wipe-HoldsBytes j = ground (arith, h j)

  pub exec_command-GivesBytes :
      (stack command param : Bytes)
      → All IsByte stack
      → All IsByte param
      → GivesBytes (exec_command stack e command param)
  unfolding exec_command
  exec_command-GivesBytes stack command param hs hp =
      let is = λ (word : Bytes). bytes_eq command word in
      let address = λ (offset : ℕ).
        set_address-GivesBytes stack param (ip_is_valid (c_string param)) offset hs in
      let text = λ (offset len : ℕ). set_text-GivesBytes param offset len hp in
      if-GivesBytes (is (codes "quit")) _ _ h (
        if-GivesBytes (is (codes "wipe")) _ _ wipe-HoldsBytes (
          if-GivesBytes (is (codes "mymac")) _ _ (set_mac-GivesBytes param) (
            if-GivesBytes (is (codes "myip")) _ _ (address 0x07) (
              if-GivesBytes (is (codes "gwip")) _ _ (address 0x0b) (
                if-GivesBytes (is (codes "netmask")) _ _ (address 0x0f) (
                  if-GivesBytes (is (codes "username")) _ _ (text 0x13 0x20) (
                    if-GivesBytes (is (codes "password")) _ _ (text 0x33 0x20) (
                      if-GivesBytes (is (codes "key")) _ _ (set_key-GivesBytes param hp) (
                        if-GivesBytes (is (codes "sourceport")) _ _ (set_port-GivesBytes param 0x5d)
                          (if-GivesBytes (is (codes "serverport")) _ _
                            (set_port-GivesBytes param 0x5f)
                            (if-GivesBytes (is (codes "serverhost")) _ _ (text 0x61 0x40)
                              h)))))))))))
