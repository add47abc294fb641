-- ===== src/CommonInclude/Number/Tests.antt =====
-- Runs of the number conversions, and their theorems at concrete inputs.
use sneso_ip.Common.{◌≡◌, refl, arith, codes}
use sneso_ip.CommonInclude.Number.{hex_to_uint8, lower, str_to_uint32, strn_to_uint32, strn_loop}
use sneso_ip.CommonInclude.Number.Decimal.{number, str_to_uint32-number}

reads_port : str_to_uint32 (codes "4294967301") ≡ 5
unfolding str_to_uint32 strn_to_uint32 strn_loop
reads_port = refl

reads_negative : str_to_uint32 (codes "-1") ≡ 0xffff_ffff
unfolding str_to_uint32 strn_to_uint32 strn_loop
reads_negative = refl

-- The buffer is changed: read once more, "A0" is another number.
reads_twice : (hex_to_uint8 (hex_to_uint8 (codes "A0")).1).0 ≡ 0x30
unfolding hex_to_uint8 lower
reads_twice = refl

str_to_uint32-number_example : str_to_uint32 (codes "1337") ≡ number (codes "1337")
str_to_uint32-number_example = str_to_uint32-number (codes "1337") (omega arith)
