-- ===== src/Rev2/Network.antt =====
-- The checks on text of Archive/Rev2/firmware/src/network.c. `strToIP`, `parseIP` and the loop of
-- `ipIsValid` are those of Tools/CommonInclude, with `unsigned` of 16 bits, and so is `strtoint` of
-- utils.c. A result is a `uint8_t`, in which -1 is 255.
use sneso_ip.Common.{
  ℕ, zero, suc, ◌+◌, true, false, ◌&&◌, not, Option, none, some, Bytes, ltb, ◌==◌, if◌then◌else◌,
  get_or, length,
}
use sneso_ip.CommonInclude.Ip.{scan_dots, parse_ip}
use sneso_ip.CommonInclude.Number.{str_to_uint32}
use sneso_ip.Cstring.{is_xdigit}

-- `ipIsValid`: too many dots, or two in a row, give -1, which is not 0 either.
unfoldable pub ip_is_valid : Bytes → Option ℕ
ip_is_valid s = elim (scan_dots 256 s 0 0) [
  | none ↦ none
  | some true ↦ some (if (parse_ip s).0 then 1 else 0)
  | some false ↦ some 255
]

-- The second loop of `macIsValid`, for up to `n` rounds from the index on.
unfoldable pub mac_digits : ℕ → Bytes → ℕ → ℕ
mac_digits zero s i = 1
mac_digits (suc n) s i =
    let i' = if get_or s i 0 == b':' then i + 1 else i in
    let next = mac_digits n s (i' + 1) in
    if ltb i 17 then (if is_xdigit (get_or s i' 0) then next else 0) else 1

-- `macIsValid`; the first loop visits the indices 2, 5, 8 and 11.
unfoldable pub mac_is_valid : Bytes → ℕ
mac_is_valid s =
    let colon = λ (i : ℕ). get_or s i 0 == b':' in
    if not (length s == 17)
    then 0
    else if not (colon 2 && colon 5 && colon 8 && colon 11)
    then 255
    else mac_digits 17 s 0

-- `portIsValid`.
unfoldable pub port_is_valid : Bytes → ℕ
port_is_valid s = if get_or s 0 0 == 0 then 0 else if ltb 65535 (str_to_uint32 s) then 0 else 1
