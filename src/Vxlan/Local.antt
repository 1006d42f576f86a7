-- ===== src/Vxlan/Local.antt =====
-- internal/network/provider/vxlan: `SetLocal`, which makes the host's own VXLAN interface.
use smuggle.Prelude.{
  ℕ, String, ◌<>◌, Bool, false, not, ◌&&◌, ◌||◌, Option, none, some, [], ◌∷◌, if◌then◌else◌, ◌==◌,
  string_eq,
}
use smuggle.Prelude.Error.{
  Result, ok, err, panic, errorf, new_error, wrap, wrapf, map_err, is_error,
}
use smuggle.Prelude.Int.{ℤ, pos, ◌-ℤ◌, ltb_ℤ}
use smuggle.Prelude.State.{St, return, lift, on_error, ◌>>=◌, ◌>>◌}
use smuggle.Subnet.{Subnet, subnet_interface_name, copy}
use smuggle.Vxlan.{default_vni, deref}
use smuggle.Vxlan.Interface.{Config}

abbrev pub default_port : ℤ
default_port = pos 4789

abbrev pub vxlan_encapsulation_overhead : ℤ
vxlan_encapsulation_overhead = pos 50

-- The fields of `netlink.Vxlan` that the code sets or compares. An address without bytes is none.
pub record Vxlan (IP : Type 0) : Type 0 where
  pub name : String
  pub mtu : ℤ
  pub hardware_addr : String
  pub vxlan_id : ℤ
  pub vtep_dev_index : ℤ
  pub src_addr : Option IP
  pub group : Option IP
  pub l2miss : Bool
  pub port : ℤ
  pub gbp : Bool

-- A link of the host, of that type or of another one with its index.
pub data Device (IP : Type 0) : Type 0 where
  vxlan_device : Vxlan IP → Device IP
  other_device : ℕ → Device IP

-- `req.HostInteface`
pub record HostInterface : Type 0 where
  pub index : ℤ
  pub mtu : ℤ

-- What is used of netlink, sysctl and JSON, where `link_add` gives the index that it sets, and of
-- package net `ip_equal`.
pub record Links (IP : Type 0) : Type 1 where
  pub State : Type 0
  pub ip_equal : IP → IP → Bool
  pub marshal : Config → Result String
  pub unmarshal : String → Config → Result Config
  pub link_add : Vxlan IP → St State ℕ
  pub link_by_name : String → St State (Device IP)
  pub link_by_index : ℕ → St State (Device IP)
  pub link_del : Device IP → St State (Unit {0})
  pub link_set_up : Vxlan IP → St State (Unit {0})
  pub sysctl : String → String → St State (Unit {0})

abbrev pub eexist : String
eexist = "file exists"

abbrev pub differ : ℤ → ℤ → Bool
differ a b = ltb_ℤ a b || ltb_ℤ b a

abbrev pub flags_differ : Bool → Bool → Bool
flags_differ a b = (a && not b) || (not a && b)

-- A difference of two fields that counts only where both are set.
abbrev pub both_differ : ℤ → ℤ → Bool
both_differ a b = ltb_ℤ (pos 0) a && (ltb_ℤ (pos 0) b && differ a b)

-- The test of a link for being the one wanted: another type differs.
module _ {IP : Type 0} (K : Links IP) where
  abbrev pub ips_differ : Option IP → Option IP → Bool
  ips_differ none b = false
  ips_differ (some a) none = false
  ips_differ (some a) (some b) = not (K.ip_equal a b)

  abbrev pub vxlans_equal : Vxlan IP → Vxlan IP → Bool
  vxlans_equal v w =
      not (differ v.vxlan_id w.vxlan_id)
      && (not (both_differ v.vtep_dev_index w.vtep_dev_index)
          && (not (ips_differ v.src_addr w.src_addr)
              && (not (ips_differ v.group w.group)
                  && (not (flags_differ v.l2miss w.l2miss)
                      && (not (both_differ v.port w.port) && not (flags_differ v.gbp w.gbp))))))

  -- The end of `ensureLink`, for the index of the link; its errors are without the index.
  abbrev pub as_device : Device IP → Result (Vxlan IP)
  as_device (vxlan_device w) = ok w
  as_device (other_device index) = err (errorf "vxlan device with index %v is not VXLAN" [])

  abbrev pub located : {A : Type 0} → St K.State A → St K.State A
  located = on_error (λ e. errorf "failed to locate VXLAN device with index %v" [])

  unfoldable pub find_link : ℕ → St K.State (Vxlan IP)
  find_link index = do link ← located (K.link_by_index index); lift (as_device link)

  unfoldable pub recreate : Vxlan IP → Device IP → St K.State (Vxlan IP)
  recreate v existing = do
    on_error (wrap "failed to delete VXLAN interface: %w") (K.link_del existing)
    index ← on_error (wrap "failed to create VXLAN interface: %w") (K.link_add v)
    find_link index

  abbrev pub reuse : Vxlan IP → Device IP → St K.State (Vxlan IP)
  reuse v (other_device index) s = recreate v (other_device index) s
  reuse v (vxlan_device w) s = if vxlans_equal v w then (ok w, s) else recreate v (vxlan_device w) s

  abbrev pub added : Vxlan IP → Result ℕ → St K.State (Vxlan IP)
  added v (ok index) s = find_link index s
  added v (err e) s =
      if is_error e eexist
      then (K.link_by_name v.name >>= λ existing. reuse v existing) s
      else (err e, s)
  added v (panic p) s = (panic p, s)

  unfoldable pub ensure_link : Vxlan IP → St K.State (Vxlan IP)
  ensure_link v s = let (r, t) = K.link_add v s in added v r t

  -- A sysctl whose error is not looked at.
  abbrev pub ignore : St K.State (Unit {0}) → St K.State (Unit {0})
  ignore m s = let (r, t) = m s in (elim r [ ok u ↦ ok u | err e ↦ ok tt | panic p ↦ panic p ], t)

  abbrev pub wanted : Subnet IP → Config → ℤ → IP → Vxlan IP
  wanted x cfg vtep_dev_index host = record {
    name = subnet_interface_name x;
    mtu = cfg.mtu;
    hardware_addr = "";
    vxlan_id = cfg.vni;
    vtep_dev_index = vtep_dev_index;
    src_addr = some host;
    group = none;
    l2miss = false;
    port = cfg.port;
    gbp = false;
  }

  unfoldable pub create_ipv4 : Subnet IP → Config → ℤ → St K.State (Vxlan IP)
  create_ipv4 x cfg vtep_dev_index = do
    host ← lift (deref x.host_ipv4)
    let name = subnet_interface_name x
    link ← ensure_link (wanted x cfg vtep_dev_index host)
    ignore (K.sysctl ("net/ipv6/conf/" <> (name <> "/accept_ra")) "0")
    on_error (wrap "failed to configure interface state: %w") (K.link_set_up link)
    on_error (wrap "failed to enable ipv4 forwarding: %w") (K.sysctl "net/ipv4/ip_forward" "1")
    on_error (wrapf "failed to disable rp_filter for %s: %w" (name ∷ []))
        (K.sysctl ("net/ipv4/conf/" <> (name <> "/rp_filter")) "0")
    on_error (wrap "failed to disable rp_filter for all interfaces: %w")
        (K.sysctl "net/ipv4/conf/all/rp_filter" "0")
    return link

  abbrev pub local_config : HostInterface → Config
  local_config i = record {
    vni = default_vni;
    port = default_port;
    mtu = i.mtu -ℤ vxlan_encapsulation_overhead;
    vtep_mac = "";
  }

  abbrev pub parse_local : Option String → Config → Result Config
  parse_local none cfg = ok cfg
  parse_local (some text) cfg = K.unmarshal text cfg

  abbrev pub check_mac : String → Result (Unit {0})
  check_mac mac =
      if mac == "" then err (new_error "VXLAN interface MAC address is empty") else ok tt

  unfoldable pub set_local : Subnet IP → HostInterface → St K.State (Subnet IP)
  set_local x i = do
    cfg ← lift (parse_local x.config (local_config i))
    link ← create_ipv4 x cfg i.index
    lift (check_mac link.hardware_addr)
    text ← lift (
        map_err (wrap "failed to marshal vxlan config: %v")
          (K.marshal (record cfg { vtep_mac = link.hardware_addr })))
    return (record (copy x) { config = some text })
