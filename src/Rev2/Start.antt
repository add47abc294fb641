-- ===== src/Rev2/Start.antt =====
-- The start of Archive/Rev2/firmware/src/main.c from the settings in the EEPROM to the main loop, and
-- `dnsLookup` of network.c. The network interface and the name server are not under the firmware's
-- own code: the address that a name server gives is an argument, and so is what DHCP gives.
pub mod Block
pub mod Configured
mod Tests
use sneso_ip.Common.{
  ℕ, zero, suc, ◌+◌, Bool, ◌||◌, Option, none, some, [], ◌∷◌, ◌++◌, Bytes, ◌==◌, if◌then◌else◌,
  get_or, take,
}
use sneso_ip.Cstring.{c_string}
use sneso_ip.CommonInclude.Ip.{str_to_ip}
use sneso_ip.Rev2.Network.{ip_is_valid}
use sneso_ip.Rev2.Cli.{Eeprom, get_config_param, port_at}

-- `cnt1` and `cnt2`: how many of `n` bytes from an index on are `b`.
unfoldable pub count : ℕ → Bytes → ℕ → ℕ → ℕ
count b ip i zero = 0
count b ip i (suc n) = (if get_or ip i 0 == b then 1 else 0) + count b ip (i + 1) n

-- Whether the address is asked of DHCP. The loop visits three of the four bytes.
unfoldable pub uses_dhcp : Bytes → Bool
uses_dhcp ip = (count 0 ip 0 3 == 3) || (count 255 ip 0 3 == 3)

-- `myip`, `netmask` and `gwip`.
pub record Interface : Type 0 where
  pub ip : Bytes
  pub netmask : Bytes
  pub gateway : Bytes

-- `setIPviaStaticIP`.
unfoldable pub set_static : Bytes → Bytes → Bytes → Interface
set_static ip nmask gw = record { ip = take 4 ip; netmask = take 4 nmask; gateway = take 4 gw }

-- The interface, with what DHCP gives.
unfoldable pub set_ip : Interface → Eeprom → Interface
set_ip dhcp e =
    let ip = get_config_param e 0x07 4 in
    if uses_dhcp ip
    then dhcp
    else set_static ip (get_config_param e 0x0f 4) (get_config_param e 0x0b 4)

-- `dnsLookup`: the address of a host, with what `serverip` holds before. Nothing where `ipIsValid`
-- does not return.
unfoldable pub dns_lookup : (Bytes → Bytes) → Bytes → Bytes → Option Bytes
dns_lookup dns serverip host = elim (ip_is_valid host) [
  | none ↦ none
  | some zero ↦ some (dns host)
  | some (suc n) ↦ some (str_to_ip host serverip)
]

-- What the main loop starts with.
pub record Online : Type 0 where
  pub interface : Interface
  pub server : Bytes
  pub source_port : ℕ
  pub server_port : ℕ

-- `main` stops where no host is set.
pub data Start : Type 0 where
  stopped : Start
  hangs : Start
  online : Online → Start

abbrev pub go_online : Interface → Option Bytes → Eeprom → Start
go_online interface none e = hangs
go_online interface (some server) e = online (record {
  interface = interface;
  server = server;
  source_port = port_at e 0x5d;
  server_port = port_at e 0x5f;
})

-- `main` up to its loop; `behind` is what lies behind the 64 bytes of `tmp1`.
unfoldable pub start : Interface → (Bytes → Bytes) → Bytes → Eeprom → Start
start dhcp dns behind e =
    let tmp1 = get_config_param e 0x61 0x40 in
    let host = c_string (tmp1 ++ behind) in
    if get_or tmp1 0 0 == 0
    then stopped
    else go_online (set_ip dhcp e) (dns_lookup dns (0 ∷ 0 ∷ 0 ∷ 0 ∷ []) host) e
