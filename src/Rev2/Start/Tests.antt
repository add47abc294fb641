-- ===== src/Rev2/Start/Tests.antt =====
-- A start at concrete settings.
use sneso_ip.Common.{◌≡◌, ◌↔◌, ◌⊎◌, refl, true, some, [], ◌∷◌, ◌++◌, arith, Bytes, codes}
use sneso_ip.Cstring.{c_string, print_u8}
use sneso_ip.CommonInclude.Ip.{scan_dots, parse_ip, parse_loop}
use sneso_ip.CommonInclude.Ip.Spec.{value}
use sneso_ip.CommonInclude.Number.Decimal.{all_digits}
use sneso_ip.Rev2.Network.{ip_is_valid}
use sneso_ip.Rev2.Cli.{Eeprom}
use sneso_ip.Rev2.Cli.Ports.{IsPort}
use sneso_ip.Rev2.Start.{uses_dhcp, Interface, dns_lookup, online, start}
use sneso_ip.Rev2.Start.Block.{AllAre, uses_dhcp_iff}
use sneso_ip.Rev2.Start.Configured.{IsQuad, Given, commands, configure, start-configure}

abbrev blank : Eeprom
blank j = 255

abbrev none_yet : Interface
none_yet = record { ip = []; netmask = []; gateway = [] }

abbrev answer : Bytes → Bytes
answer host = 93 ∷ 184 ∷ 216 ∷ 34 ∷ []

abbrev zeros : Bytes
zeros = 0 ∷ 0 ∷ 0 ∷ 0 ∷ []

abbrev given : Given
given = record {
  ip_text = codes "192.168.0.7" ++ (0 ∷ []);
  mask_text = codes "255.255.255.0" ++ (0 ∷ []);
  gate_text = codes "192.168.0.1" ++ (0 ∷ []);
  source_text = codes "1337" ++ (0 ∷ []);
  server_text = codes "6502" ++ (0 ∷ []);
  host_text = codes "sneso.ip" ++ (0 ∷ []);
}

source-IsPort : IsPort (c_string given.source_text)
unfolding all_digits
source-IsPort = record {
  given = omega arith;
  short = omega arith;
  digits = refl;
  below = omega arith;
}

server-IsPort : IsPort (c_string given.server_text)
unfolding all_digits
server-IsPort = record {
  given = omega arith;
  short = omega arith;
  digits = refl;
  below = omega arith;
}

ip-IsQuad : IsQuad given.ip_text 192 168 0 7
unfolding print_u8
ip-IsQuad = record {
  a_byte = omega arith;
  b_byte = omega arith;
  c_byte = omega arith;
  d_byte = omega arith;
  spelled = refl;
}

mask-IsQuad : IsQuad given.mask_text 255 255 255 0
unfolding print_u8
mask-IsQuad = record {
  a_byte = omega arith;
  b_byte = omega arith;
  c_byte = omega arith;
  d_byte = omega arith;
  spelled = refl;
}

gate-IsQuad : IsQuad given.gate_text 192 168 0 1
unfolding print_u8
gate-IsQuad = record {
  a_byte = omega arith;
  b_byte = omega arith;
  c_byte = omega arith;
  d_byte = omega arith;
  spelled = refl;
}

found : dns_lookup answer zeros (c_string given.host_text) ≡ some (93 ∷ 184 ∷ 216 ∷ 34 ∷ [])
unfolding dns_lookup ip_is_valid scan_dots parse_ip parse_loop
found = refl

start-configure_example :
    (e' : Eeprom) × (configure zeros blank (commands given) ≡ some e')
    × (start none_yet answer [] e'
        ≡ online (record {
          interface = record {
            ip = 192 ∷ 168 ∷ 0 ∷ 7 ∷ [];
            netmask = 255 ∷ 255 ∷ 255 ∷ 0 ∷ [];
            gateway = 192 ∷ 168 ∷ 0 ∷ 1 ∷ [];
          };
          server = 93 ∷ 184 ∷ 216 ∷ 34 ∷ [];
          source_port = value 0 (c_string given.source_text);
          server_port = value 0 (c_string given.server_text);
        }))
start-configure_example =
    start-configure blank 0 0 0 0 [] given 192 168 0 7 255 255 255 0 192 168 0 1 none_yet answer []
      (93 ∷ 184 ∷ 216 ∷ 34 ∷ []) ip-IsQuad mask-IsQuad gate-IsQuad source-IsPort server-IsPort
      (omega arith) (omega arith) (omega arith) (omega arith) found

-- 255.255.255.7 counts as no address.
uses_dhcp_iff_example :
    (uses_dhcp (255 ∷ 255 ∷ 255 ∷ 7 ∷ []) ≡ true) ↔ (AllAre 0 255 255 255 ⊎ AllAre 255 255 255 255)
uses_dhcp_iff_example = uses_dhcp_iff 255 255 255 7
