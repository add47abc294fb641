-- ===== src/Rev2/Cli.antt =====
-- `execCommand` and the access to the EEPROM of Archive/Rev2/firmware/src/cli.c, and the ports that
-- main.c reads there. Strings end at their NUL; `param` is a buffer, since a block of fixed length is
-- copied from it.
pub mod Settings
pub mod Ports
pub mod Mac
pub mod Editor
pub mod Store
mod Tests
use sneso_ip.Common.{
  ℕ, zero, suc, ◌+◌, ◌-◌, ◌*◌, ◌/◌, ◌%◌, Bool, true, false, ◌&&◌, not, Option, none, some, List, [],
  ◌∷◌, Bytes, codes, ltb, leb, ◌==◌, if◌then◌else◌, get_or, drop, length, bytes_eq,
}
use sneso_ip.Common.Int.{ℤ, pos, negsuc}
use sneso_ip.Cstring.{c_string}
use sneso_ip.CommonInclude.Ip.{str_to_ip}
use sneso_ip.CommonInclude.Number.{str_to_uint32, hex_to_uint8}
use sneso_ip.Rev2.Network.{ip_is_valid, mac_is_valid, port_is_valid}

-- The byte at each address.
abbrev pub Eeprom : Type 0
Eeprom = ℕ → ℕ

-- `setConfigParam`.
unfoldable pub set_config_param : Eeprom → Bytes → ℕ → ℕ → Eeprom
set_config_param e param offset len j =
    if leb offset j && ltb j (offset + len) then get_or param (j - offset) 0 else e j

-- `getConfigParam`: the block that it reads.
unfoldable pub get_config_param : Eeprom → ℕ → ℕ → Bytes
get_config_param e offset zero = []
get_config_param e offset (suc len) = e offset ∷ get_config_param e (offset + 1) len

-- `wipeEEPROM`.
unfoldable pub wipe_eeprom : Eeprom → Eeprom
wipe_eeprom e j = if ltb j 1024 then 0 else e j

-- What the loop waits for: the result of `execCommand` and the EEPROM, or nothing where a check does
-- not return.
abbrev pub Result : Type 0
Result = Option (ℤ × Eeprom)

-- The branches of `execCommand` that set an address, a text of limited length, or a port.
unfoldable pub set_address : Eeprom → Bytes → Bytes → Option ℕ → ℕ → Result
set_address e stack param none offset = none
set_address e stack param (some valid) offset =
    if valid == 0
    then some (negsuc 1, e)
    else some (pos 0, set_config_param e (str_to_ip (c_string param) stack) offset 4)

unfoldable pub set_text : Eeprom → Bytes → ℕ → ℕ → Result
set_text e param offset len =
    if ltb len (length (c_string param))
    then some (negsuc 1, e)
    else some (pos 0, set_config_param e param offset len)

unfoldable pub set_port : Eeprom → Bytes → ℕ → Result
set_port e param offset =
    let port = str_to_uint32 (c_string param) % 65536 in
    if port_is_valid (c_string param) == 0
    then some (negsuc 1, e)
    else some (pos 0, set_config_param e (port % 256 ∷ port / 256 ∷ []) offset 2)

unfoldable pub set_mac : Eeprom → Bytes → Result
set_mac e param =
    let byte = λ (i : ℕ). (hex_to_uint8 (drop i param)).0 in
    if mac_is_valid (c_string param) == 0
    then some (negsuc 1, e)
    else some (
      pos 0,
      set_config_param e (byte 0 ∷ byte 3 ∷ byte 6 ∷ byte 9 ∷ byte 12 ∷ byte 15 ∷ []) 0x01 6,
    )

unfoldable pub set_key : Eeprom → Bytes → Result
set_key e param =
    if not (length (c_string param) == 10)
    then some (negsuc 1, e)
    else some (pos 0, set_config_param e param 0x53 10)

-- `execCommand`: 1 to quit, 0 after a change, -1 for an unknown command, -2 for a bad parameter.
-- `stack` is what the local `buffer` holds before a byte is written to it.
unfoldable pub exec_command : Bytes → Eeprom → Bytes → Bytes → Result
exec_command stack e command param =
    if bytes_eq command (codes "quit")
    then some (pos 1, e)
    else if bytes_eq command (codes "wipe")
    then some (pos 0, wipe_eeprom e)
    else if bytes_eq command (codes "mymac")
    then set_mac e param
    else if bytes_eq command (codes "myip")
    then set_address e stack param (ip_is_valid (c_string param)) 0x07
    else if bytes_eq command (codes "gwip")
    then set_address e stack param (ip_is_valid (c_string param)) 0x0b
    else if bytes_eq command (codes "netmask")
    then set_address e stack param (ip_is_valid (c_string param)) 0x0f
    else if bytes_eq command (codes "username")
    then set_text e param 0x13 0x20
    else if bytes_eq command (codes "password")
    then set_text e param 0x33 0x20
    else if bytes_eq command (codes "key")
    then set_key e param
    else if bytes_eq command (codes "sourceport")
    then set_port e param 0x5d
    else if bytes_eq command (codes "serverport")
    then set_port e param 0x5f
    else if bytes_eq command (codes "serverhost")
    then set_text e param 0x61 0x40
    else some (negsuc 0, e)

-- The port that `main` reads at an offset.
unfoldable pub port_at : Eeprom → ℕ → ℕ
port_at e offset =
    let block = get_config_param e offset 2 in get_or block 1 0 * 256 + get_or block 0 0
