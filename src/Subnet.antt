-- ===== src/Subnet.antt =====
-- internal/types/subnet.go: the allocation of one client in one network.
use smuggle.Prelude.{String, ◌<>◌, Bool, Option}
use smuggle.Prelude.Int.{ℤ, pos}
use smuggle.Ipv4.{Ipv4Net}

-- Texts of times and JSON stay opaque. `IP` is the standard library's address type; times and
-- durations are nanoseconds, as signed integers of any size.
pub record Subnet (IP : Type 0) : Type 0 where
  pub client_id : String
  pub network_name : String
  pub provider : String
  pub host_ipv4 : Option IP
  pub config : Option String
  pub expiration : ℤ
  pub expired : Bool
  pub ipv4_network : Option Ipv4Net
  pub mtu : ℤ

unfoldable pub subnet_interface_name : {IP : Type 0} → Subnet IP → String
subnet_interface_name s = s.network_name <> "0"

-- 24 hours.
abbrev pub default_subnet_ttl : ℤ
default_subnet_ttl = pos 86400000000000

-- `Copy`: the fields that are pointers are copied too, so the copy is an equal value.
abbrev pub copy : {IP : Type 0} → Subnet IP → Subnet IP
copy s = record {
  client_id = s.client_id;
  network_name = s.network_name;
  provider = s.provider;
  host_ipv4 = s.host_ipv4;
  config = s.config;
  expiration = s.expiration;
  expired = s.expired;
  ipv4_network = s.ipv4_network;
  mtu = s.mtu;
}
