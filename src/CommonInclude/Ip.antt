-- ===== src/CommonInclude/Ip.antt =====
-- `IpIsValid`, `_ParseIP` and `StrToIP` of Tools/CommonInclude/src/CommonInclude.c.
-- `char` is read as a number from 0 to 255: where it is signed, a byte from 128 on is a negative
-- number, which the same test `0x30 > *pacIn || 0x39 < *pacIn` refuses.
pub mod Spec
pub mod Scan
pub mod Parse
pub mod Valid
pub mod Read
mod Tests
use sneso_ip.Common.{
  ℕ, zero, suc, ◌+◌, ◌-◌, ◌*◌, ◌%◌, Bool, true, false, ◌||◌, Option, none, some, List, [], ◌∷◌,
  Bytes, ltb, ◌==◌, if◌then◌else◌, get_or, set,
}
use sneso_ip.Cstring.{dot, tokens, atoi, to_u8}

-- The loop of `IpIsValid`: `u8Index` and `u8Pos` are `uint8_t`. The result is `some true` where the
-- loop ends at the NUL, `some false` where it returns, and `none` where the fuel is used up.
unfoldable pub scan_dots : ℕ → Bytes → ℕ → ℕ → Option Bool
scan_dots zero s index pos = none
scan_dots (suc fuel) s index pos =
    let next = scan_dots fuel s ((index + 1) % 256) pos in
    let next_pos = scan_dots fuel s ((index + 1) % 256) ((pos + 1) % 256) in
    let c = get_or s index 0 in
    if c == 0
    then some true
    else if c == dot
    then (if ltb 3 ((pos + 1) % 256)
        then some false
        else if get_or s (index + 1) 0 == dot
        then some false
        else next_pos)
    else next

-- The loop of `_ParseIP` from one byte on, with its `uint16_t` variables: whether it returns 0, and
-- `*pu16Out` on return.
unfoldable pub parse_loop : Bytes → ℕ → ℕ → ℕ → Bool × ℕ
parse_loop [] seg exp out = (exp == 3, (out * 256 + seg) % 65536)
parse_loop (c ∷ s) seg exp out =
    let seg' = (10 * seg + (c + 65536 - b'0')) % 65536 in
    let after_dot = parse_loop s 0 ((exp + 1) % 65536) ((out * 256 + seg) % 65536) in
    let after_digit = parse_loop s seg' exp out in
    if c == dot
    then after_dot
    else if ltb c b'0' || ltb b'9' c || ltb 255 seg'
    then (false, out)
    else after_digit

-- `_ParseIP`. The loop reads a byte before its first test, which for the empty string is the NUL.
unfoldable pub parse_ip : Bytes → Bool × ℕ
unfolding parse_loop
parse_ip [] = (false, 0)
parse_ip (c ∷ s) = parse_loop (c ∷ s) 0 0 0

-- `IpIsValid` with fuel for its loop.
unfoldable pub ip_is_valid_fuel : ℕ → Bytes → Option Bool
unfolding scan_dots parse_ip
ip_is_valid_fuel fuel s = elim (scan_dots fuel s 0 0) [
  | none ↦ none
  | some true ↦ some (parse_ip s).0
  | some false ↦ some false
]

-- 256 rounds: the index of a further round would be one that the loop has visited before.
unfoldable pub ip_is_valid : Bytes → Option Bool
ip_is_valid s = ip_is_valid_fuel 256 s

-- The loop of `StrToIP` over the tokens; a write past the end of `dst` is left out.
unfoldable pub write_tokens : List Bytes → ℕ → Bytes → Bytes
write_tokens [] index dst = dst
write_tokens (t ∷ ts) index dst =
    write_tokens ts ((index + 1) % 256) (set dst index (to_u8 (atoi t)))

-- `StrToIP`.
unfoldable pub str_to_ip : Bytes → Bytes → Bytes
str_to_ip s dst = write_tokens (tokens dot s) 0 dst
