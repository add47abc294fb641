-- ===== src/Rev2/Cli/Settings.antt =====
-- The results of `execCommand`, against a table of the commands, and what becomes of the EEPROM.
use sneso_ip.Common.{
  ℕ, ◌≡◌, refl, Bool, true, false, not, Option, none, some, List, [], ◌∷◌, Bytes, codes, ltb, leb,
  ◌==◌, if◌then◌else◌, length, bytes_eq, arith,
}
use sneso_ip.Common.Int.{ℤ, pos, negsuc}
use sneso_ip.Cstring.{c_string}
use sneso_ip.Rev2.Network.{ip_is_valid, mac_is_valid, port_is_valid}
use sneso_ip.Rev2.Cli.{
  Eeprom, Result, set_address, set_text, set_port, set_mac, set_key, exec_command,
}

-- What a parameter has to be.
pub data Kind : Type 0 where
  quits wipes mac address port : Kind
  text : ℕ → Kind
  exactly : ℕ → Kind

-- The commands in the order of their tests.
abbrev pub commands : List (Bytes × Kind)
commands =
    (codes "quit", quits)
    ∷ (codes "wipe", wipes)
    ∷ (codes "mymac", mac)
    ∷ (codes "myip", address)
    ∷ (codes "gwip", address)
    ∷ (codes "netmask", address)
    ∷ (codes "username", text 32)
    ∷ (codes "password", text 32)
    ∷ (codes "key", exactly 10)
    ∷ (codes "sourceport", port)
    ∷ (codes "serverport", port)
    ∷ (codes "serverhost", text 64)
    ∷ []

-- 0 for a good parameter, and -2 for a bad one.
abbrev pub graded : Bool → Option ℤ
graded true = some (pos 0)
graded false = some (negsuc 1)

-- An address that the check takes; the check may not return.
abbrev pub graded_address : Option ℕ → Option ℤ
graded_address none = none
graded_address (some valid) = graded (not (valid == 0))

abbrev pub verdict : Kind → Bytes → Option ℤ
verdict quits s = some (pos 1)
verdict wipes s = some (pos 0)
verdict mac s = graded (not (mac_is_valid s == 0))
verdict address s = graded_address (ip_is_valid s)
verdict port s = graded (not (port_is_valid s == 0))
verdict (text n) s = graded (leb (length s) n)
verdict (exactly n) s = graded (length s == n)

-- -1 for a command that is not in the table.
abbrev pub judge : List (Bytes × Kind) → Bytes → Bytes → Option ℤ
judge [] command s = some (negsuc 0)
judge ((name, kind) ∷ rest) command s =
    if bytes_eq command name then verdict kind s else judge rest command s

-- The result is the expected one, and the EEPROM is still `e` where it is negative.
abbrev pub Answers : Eeprom → Option ℤ → Result → Type 0
Answers e v none = v ≡ none
Answers e v (some (pos n, e')) = v ≡ some (pos n)
Answers e v (some (negsuc n, e')) = (v ≡ some (negsuc n)) × (e' ≡ e)

checked-Answers :
    (bad good : Bool) (e e' : Eeprom)
    → good ≡ not bad
    → Answers e (graded good) (if bad then some (negsuc 1, e) else some (pos 0, e'))
checked-Answers true good e e' h = rw h (refl, refl)
checked-Answers false good e e' h = rw h refl

if-Answers :
    (b : Bool) (e : Eeprom) (v v' : Option ℤ) (r r' : Result)
    → Answers e v r
    → Answers e v' r'
    → Answers e (if b then v else v') (if b then r else r')
if-Answers true e v v' r r' h h' = h
if-Answers false e v v' r r' h h' = h'

set_address-Answers :
    (e : Eeprom) (stack param : Bytes) (o : Option ℕ) (offset : ℕ)
    → Answers e (graded_address o) (set_address e stack param o offset)
unfolding set_address
set_address-Answers e stack param none offset = refl
set_address-Answers e stack param (some n) offset = checked-Answers (n == 0) (not (n == 0)) e _ refl

set_text-Answers :
    (e : Eeprom) (param : Bytes) (offset len : ℕ)
    → Answers e (verdict (text len) (c_string param)) (set_text e param offset len)
unfolding set_text
set_text-Answers e param offset len =
    let n = length (c_string param) in checked-Answers (ltb len n) (leb n len) e _ (ground arith)

set_port-Answers :
    (e : Eeprom) (param : Bytes) (offset : ℕ)
    → Answers e (verdict port (c_string param)) (set_port e param offset)
unfolding set_port
set_port-Answers e param offset =
    let bad = port_is_valid (c_string param) == 0 in checked-Answers bad (not bad) e _ refl

set_mac-Answers :
    (e : Eeprom) (param : Bytes) → Answers e (verdict mac (c_string param)) (set_mac e param)
unfolding set_mac
set_mac-Answers e param =
    let bad = mac_is_valid (c_string param) == 0 in checked-Answers bad (not bad) e _ refl

set_key-Answers :
    (e : Eeprom) (param : Bytes)
    → Answers e (verdict (exactly 10) (c_string param)) (set_key e param)
unfolding set_key
set_key-Answers e param =
    let good = length (c_string param) == 10 in checked-Answers (not good) good e _ (ground arith)

-- `execCommand` has the result that the table of the commands gives: 1 for "quit", 0 after "wipe" and
-- after a good parameter of a known command, -2 for a bad parameter and -1 for an unknown command,
-- in the last two cases with every byte of the EEPROM as it was. It does not return exactly where
-- the check of an address that is asked for does not.
pub exec_command-Answers :
    (stack : Bytes) (e : Eeprom) (command param : Bytes)
    → Answers e (judge commands command (c_string param)) (exec_command stack e command param)
unfolding exec_command
exec_command-Answers stack e command param =
    let is = λ (s : Bytes). bytes_eq command s in
    let address = set_address-Answers e stack param (ip_is_valid (c_string param)) in
    if-Answers (is (codes "quit")) e _ _ _ _ refl (
      if-Answers (is (codes "wipe")) e _ _ _ _ refl (
        if-Answers (is (codes "mymac")) e _ _ _ _ (set_mac-Answers e param) (
          if-Answers (is (codes "myip")) e _ _ _ _ (address 0x07) (
            if-Answers (is (codes "gwip")) e _ _ _ _ (address 0x0b) (
              if-Answers (is (codes "netmask")) e _ _ _ _ (address 0x0f) (
                if-Answers (is (codes "username")) e _ _ _ _ (set_text-Answers e param 0x13 0x20) (
                  if-Answers (is (codes "password")) e _ _ _ _ (set_text-Answers e param 0x33 0x20)
                    (if-Answers (is (codes "key")) e _ _ _ _ (set_key-Answers e param) (
                      if-Answers (is (codes "sourceport")) e _ _ _ _ (set_port-Answers e param 0x5d)
                        (if-Answers (is (codes "serverport")) e _ _ _ _
                          (set_port-Answers e param 0x5f)
                          (if-Answers (is (codes "serverhost")) e _ _ _ _
                            (set_text-Answers e param 0x61 0x40) (refl, refl))))))))))))
