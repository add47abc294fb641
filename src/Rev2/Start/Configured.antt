-- ===== src/Rev2/Start/Configured.antt =====
-- What the firmware starts with after the commands of the command-line interface.
use sneso_ip.Common.{
  ℕ, zero, suc, ◌+◌, ◌/◌, ◌%◌, ◌≤◌, ◌<◌, ◌≡◌, ◌≢◌, refl, ap, ◌∙◌, false, none, some, [], ◌∷◌, ◌++◌,
  arith, Bytes, codes, ltb, leb, ◌==◌, get_or, drop, length, Option, List,
}
use sneso_ip.Common.Int.{pos, negsuc}
use sneso_ip.Cstring.{c_string}
use sneso_ip.CommonInclude.Ip.Spec.{value, dotted_quad}
use sneso_ip.CommonInclude.Ip.Read.{str_to_ip-dotted_quad}
use sneso_ip.Rev2.Network.{ip_is_valid}
use sneso_ip.Rev2.Cli.{
  Eeprom, set_config_param, get_config_param, set_address, set_text, Result, exec_command, port_at,
}
use sneso_ip.Rev2.Cli.Ports.{IsPort, with_port, set_port_lem, port_at-with_port}
use sneso_ip.Rev2.Start.{Interface, set_static, set_ip, dns_lookup, online, start}
use sneso_ip.Rev2.Start.Block.{AllAre, is_static, ip_is_valid-true, get-set, c_string-window}

-- The commands one after the other, where each answers 0.
abbrev succeed : Result → Option Eeprom
succeed none = none
succeed (some (pos zero, e)) = some e
succeed (some (pos (suc n), e)) = none
succeed (some (negsuc n, e)) = none

unfoldable pub configure : Bytes → Eeprom → List (Bytes × Bytes) → Option Eeprom
configure stack e [] = some e
configure stack e ((command, param) ∷ more) = elim (succeed (exec_command stack e command param)) [
  | none ↦ none
  | some e' ↦ configure stack e' more
]

configure-cons :
    (stack : Bytes) (e e' : Eeprom) (command param : Bytes) (more : List (Bytes × Bytes))
    → exec_command stack e command param ≡ some (pos 0, e')
    → configure stack e ((command, param) ∷ more) ≡ configure stack e' more
unfolding configure
configure-cons stack e e' command param more h = rw (h, configure) refl

-- Four bytes, and their text with a NUL.
pub record IsQuad (text : Bytes) (a b c d : ℕ) : Type 0 where
  pub a_byte : a < 256
  pub b_byte : b < 256
  pub c_byte : c < 256
  pub d_byte : d < 256
  pub spelled : c_string text ≡ dotted_quad a b c d

set_address-IsQuad :
    (e : Eeprom) (x₀ x₁ x₂ x₃ : ℕ) (tail text : Bytes) (a b c d offset : ℕ)
    → IsQuad text a b c d
    → set_address e (x₀ ∷ x₁ ∷ x₂ ∷ x₃ ∷ tail) text (ip_is_valid (c_string text)) offset
      ≡ some (pos 0, set_config_param e (a ∷ b ∷ c ∷ d ∷ tail) offset 4)
unfolding set_address
set_address-IsQuad e x₀ x₁ x₂ x₃ tail text a b c d offset q =
    let (valid, read) =
      str_to_ip-dotted_quad a b c d x₀ x₁ x₂ x₃ tail q.a_byte q.b_byte q.c_byte q.d_byte in
    rw (q.spelled, ip_is_valid-true (dotted_quad a b c d) valid) (rw (q.spelled, read) refl)

set_text-short :
    (e : Eeprom) (param : Bytes) (offset len : ℕ)
    → length (c_string param) ≤ len
    → set_text e param offset len ≡ some (pos 0, set_config_param e param offset len)
unfolding set_text
set_text-short e param offset len h =
    let fits : ltb len (length (c_string param)) ≡ false = ground arith in rw fits refl

port_at-below :
    (e : Eeprom) (param : Bytes) (offset len other : ℕ)
    → other + 2 ≤ offset
    → port_at (set_config_param e param offset len) other ≡ port_at e other
unfolding port_at get_config_param set_config_param
port_at-below e param offset len other h =
    let first : leb offset other ≡ false = ground arith in
    let second : leb offset (other + 1) ≡ false = ground arith in rw (first, second) refl

-- The settings that the commands make.
pub record Given : Type 0 where
  pub ip_text : Bytes
  pub mask_text : Bytes
  pub gate_text : Bytes
  pub source_text : Bytes
  pub server_text : Bytes
  pub host_text : Bytes

abbrev pub commands : Given → List (Bytes × Bytes)
commands g =
    (codes "myip", g.ip_text)
    ∷ (codes "netmask", g.mask_text)
    ∷ (codes "gwip", g.gate_text)
    ∷ (codes "sourceport", g.source_text)
    ∷ (codes "serverport", g.server_text)
    ∷ (codes "serverhost", g.host_text)
    ∷ []

module _ (e : Eeprom) (x₀ x₁ x₂ x₃ : ℕ) (tail : Bytes) (g : Given)
    (a b c d m₀ m₁ m₂ m₃ w₀ w₁ w₂ w₃ : ℕ) where
  abbrev block : ℕ → ℕ → ℕ → ℕ → Bytes
  block i j k l = i ∷ j ∷ k ∷ l ∷ tail

  abbrev with_addresses : Eeprom
  with_addresses =
      set_config_param
        (set_config_param (set_config_param e (block a b c d) 0x07 4) (block m₀ m₁ m₂ m₃) 0x0f 4)
        (block w₀ w₁ w₂ w₃) 0x0b 4

  abbrev with_ports : Eeprom
  with_ports =
      with_port (with_port with_addresses (value 0 (c_string g.source_text)) 0x5d)
        (value 0 (c_string g.server_text)) 0x5f

  abbrev configured : Eeprom
  configured = set_config_param with_ports g.host_text 0x61 0x40

  configure-commands :
      IsQuad g.ip_text a b c d
      → IsQuad g.mask_text m₀ m₁ m₂ m₃
      → IsQuad g.gate_text w₀ w₁ w₂ w₃
      → IsPort (c_string g.source_text)
      → IsPort (c_string g.server_text)
      → length (c_string g.host_text) < 64
      → configure (x₀ ∷ x₁ ∷ x₂ ∷ x₃ ∷ tail) e (commands g) ≡ some configured
  unfolding configure exec_command
  configure-commands ip mask gate source server host =
      let stack = x₀ ∷ x₁ ∷ x₂ ∷ x₃ ∷ tail in
      let m1 = set_config_param e (block a b c d) 0x07 4 in
      let m2 = set_config_param m1 (block m₀ m₁ m₂ m₃) 0x0f 4 in
      let m4 = with_port with_addresses (value 0 (c_string g.source_text)) 0x5d in
      configure-cons stack e m1 (codes "myip") g.ip_text (drop 1 (commands g))
        (set_address-IsQuad e x₀ x₁ x₂ x₃ tail g.ip_text a b c d 0x07 ip)
      ∙ configure-cons stack m1 m2 (codes "netmask") g.mask_text (drop 2 (commands g))
          (set_address-IsQuad m1 x₀ x₁ x₂ x₃ tail g.mask_text m₀ m₁ m₂ m₃ 0x0f mask)
      ∙ configure-cons stack m2 with_addresses (codes "gwip") g.gate_text (drop 3 (commands g))
          (set_address-IsQuad m2 x₀ x₁ x₂ x₃ tail g.gate_text w₀ w₁ w₂ w₃ 0x0b gate)
      ∙ configure-cons stack with_addresses m4 (codes "sourceport") g.source_text
          (drop 4 (commands g)) (set_port_lem with_addresses g.source_text 0x5d source)
      ∙ configure-cons stack m4 with_ports (codes "serverport") g.server_text (drop 5 (commands g))
          (set_port_lem m4 g.server_text 0x5f server)
      ∙ configure-cons stack with_ports configured (codes "serverhost") g.host_text
          (drop 6 (commands g)) (set_text-short with_ports g.host_text 0x61 0x40 (omega arith))

  -- What `main` reads of it.
  read_addresses :
      (get_config_param configured 0x07 4 ≡ a ∷ b ∷ c ∷ d ∷ [])
      × (get_config_param configured 0x0f 4 ≡ m₀ ∷ m₁ ∷ m₂ ∷ m₃ ∷ [])
      × (get_config_param configured 0x0b 4 ≡ w₀ ∷ w₁ ∷ w₂ ∷ w₃ ∷ [])
  unfolding get_config_param set_config_param
  read_addresses = (refl, refl, refl)

  read_ports :
      IsPort (c_string g.source_text)
      → IsPort (c_string g.server_text)
      → (port_at configured 0x5d ≡ value 0 (c_string g.source_text))
        × (port_at configured 0x5f ≡ value 0 (c_string g.server_text))
  read_ports source server =
      let n = value 0 (c_string g.source_text) in
      let m = value 0 (c_string g.server_text) in
      let m4 = with_port with_addresses n 0x5d in
      (
        port_at-below with_ports g.host_text 0x61 0x40 0x5d (omega arith)
            ∙ port_at-below m4 (m % 256 ∷ m / 256 ∷ []) 0x5f 2 0x5d (omega arith)
            ∙ port_at-with_port with_addresses n 0x5d source.below,
        port_at-below with_ports g.host_text 0x61 0x40 0x5f (omega arith)
            ∙ port_at-with_port m4 m 0x5f server.below,
      )

  read_host :
      (behind : Bytes)
      → length (c_string g.host_text) < 64
      → c_string (get_config_param configured 0x61 0x40 ++ behind) ≡ c_string g.host_text
  read_host behind short =
      ap (λ (t : Bytes). c_string (t ++ behind))
        (get-set with_ports g.host_text 0x61 0x40 0 0x61 0x40 (omega arith) (omega arith))
      ∙ c_string-window g.host_text 0x40 behind short

  -- The first byte of the host.
  some_host :
      get_or g.host_text 0 0 ≢ 0 → (get_or (get_config_param configured 0x61 0x40) 0 0 == 0) ≡ false
  some_host h =
      ap (λ (t : Bytes). get_or t 0 0 == 0)
        (get-set with_ports g.host_text 0x61 0x40 0 0x61 0x40 (omega arith) (omega arith))
      ∙ (ground arith)

  -- After the commands "myip", "netmask" and "gwip" with the texts of four bytes each, "sourceport"
  -- and "serverport" with digits for a port, and "serverhost" with a name of 1 to 63 bytes, each of
  -- which answers 0, the firmware starts with these addresses and ports and the server that
  -- `dnsLookup` finds for the name, whatever was set before. This is for an address whose first three
  -- bytes are neither all 0 nor all 255.
  pub start-configure :
      (dhcp : Interface) (dns : Bytes → Bytes) (behind server : Bytes)
      → IsQuad g.ip_text a b c d
      → IsQuad g.mask_text m₀ m₁ m₂ m₃
      → IsQuad g.gate_text w₀ w₁ w₂ w₃
      → IsPort (c_string g.source_text)
      → IsPort (c_string g.server_text)
      → ¬ AllAre 0 a b c
      → ¬ AllAre 255 a b c
      → get_or g.host_text 0 0 ≢ 0
      → length (c_string g.host_text) < 64
      → dns_lookup dns (0 ∷ 0 ∷ 0 ∷ 0 ∷ []) (c_string g.host_text) ≡ some server
      → (e' : Eeprom) × (configure (x₀ ∷ x₁ ∷ x₂ ∷ x₃ ∷ tail) e (commands g) ≡ some e')
        × (start dhcp dns behind e'
            ≡ online (record {
              interface = record {
                ip = a ∷ b ∷ c ∷ d ∷ [];
                netmask = m₀ ∷ m₁ ∷ m₂ ∷ m₃ ∷ [];
                gateway = w₀ ∷ w₁ ∷ w₂ ∷ w₃ ∷ [];
              };
              server = server;
              source_port = value 0 (c_string g.source_text);
              server_port = value 0 (c_string g.server_text);
            }))
  unfolding start set_ip set_static
  start-configure dhcp dns behind server ip mask gate source port no_zeros no_ones given short
        found =
      let (own, net, gw) = read_addresses in
      let (from, to) = read_ports source port in
      (
        configured,
        configure-commands ip mask gate source port short,
        rw
            (
              some_host given,
              read_host behind short,
              found,
              own,
              net,
              gw,
              from,
              to,
              is_static a b c d no_zeros no_ones,
            )
            refl,
      )
