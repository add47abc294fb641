-- ===== src/Server/State.antt =====
-- The server's shared data: `Client` and `Server` of Server/src/Server.c, and `_GetInAddr`.
use sneso_ip.Common.{ℕ, Bool, Bytes, ◌==◌, if◌then◌else◌}
use sneso_ip.Server.Config.{Config}

pub data Family : Type 0 where
  inet inet6 : Family

-- `struct sockaddr_storage`, with the address of each family that the server looks at.
pub record SockAddr : Type 0 where
  pub family : Family
  pub sin_addr : Bytes
  pub sin6_addr : Bytes

pub record Client : Type 0 where
  pub port_data : ℕ
  pub ip : Bytes

-- `astClient` is a flexible array member of a static object: the table is what lies in memory behind
-- it, a record at each index.
pub record Server : Type 0 where
  pub client_addr : SockAddr
  pub is_running : Bool
  pub num_clients : ℕ
  pub config : Config
  pub clients : ℕ → Client

-- `_GetInAddr`.
unfoldable pub get_in_addr : SockAddr → Bytes
get_in_addr a = elim a.family [ inet ↦ a.sin_addr | inet6 ↦ a.sin6_addr ]

-- A write to `astClient[i].au8IP`.
abbrev pub set_ip : (ℕ → Client) → ℕ → Bytes → ℕ → Client
set_ip t i v j = if i == j then record { port_data = (t j).port_data; ip = v } else t j
