-- ===== src/Vsnesoip/Config/Tests.antt =====
-- A configuration with a port of 0.
use sneso_ip.Common.{◌≡◌, some, codes, if◌then◌else◌, bytes_eq}
use sneso_ip.Common.Int.{pos}
use sneso_ip.Vsnesoip.Config.{Config, read_config}
use sneso_ip.Vsnesoip.Config.Keys.{required, first_unset, complaint, read_config-complaint}

abbrev config : Config
config = record {
  lookup_string = λ key. some (codes "text");
  lookup_int = λ key. some (if bytes_eq key (codes "tcp_min_port") then pos 0 else pos 7);
}

read_config-complaint_example : complaint (read_config config) ≡ first_unset config required
read_config-complaint_example = read_config-complaint config
