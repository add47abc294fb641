-- ===== src/CommonInclude/Number/Hex.antt =====
-- What `HexToUint8` reads.
use sneso_ip.Common.{
  ℕ, ◌+◌, ◌-◌, ◌*◌, ◌<◌, ◌≡◌, Bool, true, false, ◌∷◌, arith, Bytes, ltb, if◌then◌else◌,
}
use sneso_ip.CommonInclude.Number.{hex_to_uint8, lower}

-- The character of a hexadecimal digit, in capitals or not.
abbrev pub hex_digit : Bool → ℕ → ℕ
hex_digit capital n =
    if ltb n 10 then b'0' + n else if capital then b'A' + (n - 10) else b'a' + (n - 10)

-- `HexToUint8` reads two hexadecimal digits, each in capitals or not, as the
-- byte that they stand for.
pub hex_to_uint8-hex_digit :
    (u v : Bool) (h l : ℕ) (s : Bytes)
    → h < 16
    → l < 16
    → (hex_to_uint8 (hex_digit u h ∷ hex_digit v l ∷ s)).0 ≡ h * 16 + l
unfolding hex_to_uint8 lower
hex_to_uint8-hex_digit true true h l s hh hl = ground arith
hex_to_uint8-hex_digit true false h l s hh hl = ground arith
hex_to_uint8-hex_digit false true h l s hh hl = ground arith
hex_to_uint8-hex_digit false false h l s hh hl = ground arith
