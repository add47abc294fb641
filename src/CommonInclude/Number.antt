-- ===== src/CommonInclude/Number.antt =====
-- `StrToUint32`, `_StrnToUint32` and `HexToUint8` of Tools/CommonInclude/src/CommonInclude.c.
pub mod Decimal
pub mod Hex
mod Tests
use sneso_ip.Common.{
  ℕ, zero, suc, ◌+◌, ◌-◌, ◌*◌, ◌%◌, ◌∷◌, Bytes, ltb, ◌==◌, if◌then◌else◌, get_or, set, length,
}
use sneso_ip.Cstring.{is_digit}

-- The loop of `_StrnToUint32` with `nIndex` one below the first number, its three variables, and the
-- `return` behind it. An error is the number -1, converted to `uint32_t`.
unfoldable pub strn_loop : Bytes → ℕ → ℕ → ℕ → ℕ → ℕ
strn_loop s zero sign place ret = sign * ret % 0x1_0000_0000
strn_loop s (suc index) sign place ret =
    let place' = place * 10 % 0x1_0000_0000 in
    let c = get_or s index 0 in
    let negative = strn_loop s index 0xffff_ffff place' ret in
    let next = strn_loop s index sign place' ((ret + (c - 48) * place) % 0x1_0000_0000) in
    if c == 45
    then (if index == 0 then negative else 0xffff_ffff)
    else if is_digit c
    then next
    else 0xffff_ffff

-- `_StrnToUint32`.
unfoldable pub strn_to_uint32 : Bytes → ℕ → ℕ
strn_to_uint32 s n = strn_loop s n 1 1 0

-- `StrToUint32`: the loop before the call counts the bytes of the string.
unfoldable pub str_to_uint32 : Bytes → ℕ
str_to_uint32 s = strn_to_uint32 s (length s % 0x1_0000_0000)

-- `pu8Hex[i] -= 7` where the byte is above '9'.
unfoldable pub lower : Bytes → ℕ → Bytes
lower s i = let c = get_or s i 0 in if ltb 0x39 c then set s i (c - 7) else s

-- `HexToUint8`: its result, and the buffer, which it changes.
unfoldable pub hex_to_uint8 : Bytes → ℕ × Bytes
hex_to_uint8 s =
    let s₁ = lower s 0 in
    let s₂ = lower s₁ 1 in ((get_or s₁ 0 0 % 16 * 16 + get_or s₂ 1 0 % 16) % 256, s₂)
