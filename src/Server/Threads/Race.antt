-- ===== src/Server/Threads/Race.antt =====
-- IDs that two clients share.
use sneso_ip.Server.State.{Server}
