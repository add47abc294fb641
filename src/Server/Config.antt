-- ===== src/Server/Config.antt =====
-- The server's configuration: `Config` and `_ConfigHandler` of Server/src/Server.c. The ini parser
-- calls the handler for each line of the file, with strings.
use sneso_ip.Common.{ℕ, Bool, ◌&&◌, Bytes, codes, if◌then◌else◌, bytes_eq}
use sneso_ip.Cstring.{strncpy, atoi, to_u8, to_u16}

pub record Config : Type 0 where
  pub port : ℕ
  pub max_clients : ℕ
  pub verbose : ℕ
  pub addr : Bytes

-- The macro `MATCH`.
abbrev match_key : Bytes → Bytes → Bytes → Bytes → Bool
match_key section name s n = bytes_eq section s && bytes_eq name n

-- `_ConfigHandler`: the new configuration, and the result 1 or 0.
unfoldable pub config_handler : Config → Bytes → Bytes → Bytes → Config × ℕ
config_handler c section name value =
    if match_key section name (codes "General") (codes "port")
    then (record c { port = to_u16 (atoi value) }, 1)
    else if match_key section name (codes "General") (codes "addr")
    then (record c { addr = strncpy value 15 }, 1)
    else if match_key section name (codes "General") (codes "max_clients")
    then (record c { max_clients = to_u8 (atoi value) }, 1)
    else if match_key section name (codes "General") (codes "verbose")
    then (record c { verbose = to_u8 (atoi value) }, 1)
    else (c, 0)
