-- ===== src/Vxlan.antt =====
-- internal/network/provider/vxlan: the entries of the host's network for remote subnets, and
-- internal/helper/retry. Package netlink is the record `Netlink`.
pub mod Interface
pub mod Retry
pub mod Remote
pub mod Local
pub mod Published
use smuggle.Prelude.{ℕ, suc, String, Bool, true, false, Option, none, some, List, [], ◌∷◌}
use smuggle.Prelude.Error.{Error, Result, ok, err, panic, errorf, wrap, wrapf, map_err}
use smuggle.Prelude.Int.{ℤ, pos}
use smuggle.Prelude.State.{St, return, lift, on_error, ◌>>=◌, ◌>>◌}
use smuggle.Ipv4.{Ipv4Net, Net, next_addr, to_net_ip}
use smuggle.Subnet.{Subnet, subnet_interface_name}
use Interface.{Netlink, Link, vxlan_link, other_link, Config, Neigh, Route, inet, bridge}
use Retry.{retry}

abbrev pub default_vni : ℤ
default_vni = pos 1

-- The zero value of `Config`.
abbrev pub empty_config : Config
empty_config = record { vni = pos 0; port = pos 0; mtu = pos 0; vtep_mac = "" }

-- `link.(*netlink.Vxlan)`, with the error text of the caller.
abbrev pub as_vxlan : Error → Link → Result ℕ
as_vxlan e (vxlan_link index) = ok index
as_vxlan e other_link = err e

abbrev pub deref : {A : Type 0} → Option A → Result A
deref none = panic "nil pointer dereference"
deref (some a) = ok a

module _ (N : Net) (K : Netlink N.IP) (attempts : ℕ) where
  open K use {
    State, unmarshal, parse_mac, link_by_name, neigh_set, neigh_del, route_replace, route_del,
  }

  -- `ToIPNet`: the address and the length of the mask.
  unfoldable pub to_ip_net : Ipv4Net → N.IP × ℕ
  unfolding to_net_ip
  to_ip_net i = (to_net_ip N i.ip, i.size)

  -- `message` is the format of the caller's error.
  unfoldable pub parse_config : String → Option String → Result Config
  parse_config message none = ok (record empty_config { vni = default_vni })
  parse_config message (some text) = map_err (wrap message) (unmarshal text empty_config)

  abbrev pub fdb_entry : ℕ → N.IP → String → Neigh N.IP
  fdb_entry index host mac = record {
    link_index = index;
    family = bridge;
    own = true;
    ip = host;
    hardware_addr = mac;
  }

  abbrev pub arp_entry : ℕ → N.IP → String → Neigh N.IP
  arp_entry index gateway mac = record {
    link_index = index;
    family = inet;
    own = false;
    ip = gateway;
    hardware_addr = mac;
  }

  abbrev pub gateway_ip : Ipv4Net → N.IP
  gateway_ip net = to_net_ip N (next_addr net).ip

  abbrev pub remote_route : ℕ → Ipv4Net → Route N.IP
  remote_route index net = record {
    link_index = index;
    dst = to_ip_net net;
    gw = gateway_ip net;
    onlink = true;
  }

  -- `SetRemote` behind the look-up of the link, for its index and the address of the remote end.
  unfoldable pub set_entries : Subnet N.IP → ℕ → String → St State (Unit {0})
  set_entries x index mac = do
    host ← lift (deref x.host_ipv4)
    retry attempts (neigh_set (fdb_entry index host mac))
    net ← lift (deref x.ipv4_network)
    retry attempts (neigh_set (arp_entry index (gateway_ip net) mac))
    retry attempts (route_replace (remote_route index net))

  unfoldable pub set_remote : Subnet N.IP → St State (Unit {0})
  set_remote x = do
    cfg ← lift (parse_config "failed to unmarshal vxlan config: %w" x.config)
    let name = subnet_interface_name x
    link ← on_error (wrapf "failed to find vxlan link %s: %w" (name ∷ [])) (link_by_name name)
    index ← lift (as_vxlan (errorf "link %s is not a vxlan interface" (name ∷ [])) link)
    mac ← lift (map_err (wrap "failed to parse VTEP MAC address: %w") (parse_mac cfg.vtep_mac))
    set_entries x index mac

  -- `DeleteRemote` likewise.
  unfoldable pub delete_entries : Subnet N.IP → ℕ → String → St State (Unit {0})
  delete_entries x index mac = do
    net ← lift (deref x.ipv4_network)
    retry attempts (route_del (remote_route index net))
    retry attempts (neigh_del (arp_entry index (gateway_ip net) mac))
    host ← lift (deref x.host_ipv4)
    retry attempts (neigh_del (fdb_entry index host mac))

  unfoldable pub delete_remote : Subnet N.IP → St State (Unit {0})
  delete_remote x = do
    cfg ← lift (parse_config "failed to unmarshal config: %w" x.config)
    let name = subnet_interface_name x
    link ← on_error (wrap "failed to find VXLAN link: %w") (link_by_name name)
    index ← lift (as_vxlan (errorf "link %q is not a VXLAN interface" (name ∷ [])) link)
    mac ← lift (map_err (wrap "failed to parse MAC address: %w") (parse_mac cfg.vtep_mac))
    delete_entries x index mac
