-- ===== src/Vxlan/Interface.antt =====
-- The calls of netlink and the parsing that the provider uses, with what netlink documents of them.
use smuggle.Prelude.{ℕ, String, Bool, true, false, ◌≡◌, ◌≢◌}
use smuggle.Prelude.Error.{Error, Result, ok, err, is_error}
use smuggle.Prelude.Int.{ℤ}
use smuggle.Prelude.State.{St}

-- A link that is a VXLAN interface, by its index, or of another type.
pub data Link : Type 0 where
  vxlan_link : ℕ → Link
  other_link : Link

-- internal/network/provider/vxlan/config_linux.go
pub record Config : Type 0 where
  pub vni : ℤ
  pub port : ℤ
  pub mtu : ℤ
  pub vtep_mac : String

-- `AF_INET` for ARP entries and `AF_BRIDGE` for entries of the forwarding database.
pub data Family : Type 0 where
  inet bridge : Family

-- A permanent neighbour entry; `own` is the flag `NTF_SELF`.
pub record Neigh (IP : Type 0) : Type 0 where
  pub link_index : ℕ
  pub family : Family
  pub own : Bool
  pub ip : IP
  pub hardware_addr : String

pub record Route (IP : Type 0) : Type 0 where
  pub link_index : ℕ
  pub dst : IP × ℕ
  pub gw : IP
  pub onlink : Bool

-- `unmarshal` fills in a configuration from a JSON text.
pub record Netlink (IP : Type 0) : Type 1 where
  pub State : Type 0
  pub unmarshal : String → Config → Result Config
  pub parse_mac : String → Result String
  pub link_by_name : String → St State Link
  pub neigh_set : Neigh IP → St State (Unit {0})
  pub neigh_del : Neigh IP → St State (Unit {0})
  pub route_replace : Route IP → St State (Unit {0})
  pub route_del : Route IP → St State (Unit {0})

abbrev pub deadline_exceeded : String
deadline_exceeded = "context deadline exceeded"

-- A call whose errors are those of the kernel, never the deadline of a context.
abbrev pub IsKernelCall : {S : Type 0} → St S (Unit {0}) → Type 0
IsKernelCall {S = S} f =
    (s : S) (e : Error) → (f s).0 ≡ err e → is_error e deadline_exceeded ≡ false

-- `has_neigh` and `has_route` are the entries that the kernel holds. Calls on neighbours keep the
-- routes and the entries of the other family, and calls on routes keep the neighbours.
pub record IsLawful {IP : Type 0} (K : Netlink IP) : Type 0 where
  pub has_neigh : K.State → Neigh IP → Bool
  pub has_route : K.State → Route IP → Bool
  pub neigh_set_ok :
      (x : Neigh IP) (s : K.State)
      → (K.neigh_set x s).0 ≡ ok tt
      → has_neigh (K.neigh_set x s).1 x ≡ true
  pub neigh_del_ok :
      (x : Neigh IP) (s : K.State)
      → (K.neigh_del x s).0 ≡ ok tt
      → has_neigh (K.neigh_del x s).1 x ≡ false
  pub route_replace_ok :
      (x : Route IP) (s : K.State)
      → (K.route_replace x s).0 ≡ ok tt
      → has_route (K.route_replace x s).1 x ≡ true
  pub route_del_ok :
      (x : Route IP) (s : K.State)
      → (K.route_del x s).0 ≡ ok tt
      → has_route (K.route_del x s).1 x ≡ false
  pub neigh_set_other :
      (x y : Neigh IP) (s : K.State)
      → x.family ≢ y.family
      → has_neigh (K.neigh_set x s).1 y ≡ has_neigh s y
  pub neigh_del_other :
      (x y : Neigh IP) (s : K.State)
      → x.family ≢ y.family
      → has_neigh (K.neigh_del x s).1 y ≡ has_neigh s y
  pub route_replace_neigh :
      (x : Route IP) (y : Neigh IP) (s : K.State)
      → has_neigh (K.route_replace x s).1 y ≡ has_neigh s y
  pub neigh_del_route :
      (x : Neigh IP) (y : Route IP) (s : K.State) → has_route (K.neigh_del x s).1 y ≡ has_route s y
  pub neigh_set_kernel : (x : Neigh IP) → IsKernelCall (K.neigh_set x)
  pub neigh_del_kernel : (x : Neigh IP) → IsKernelCall (K.neigh_del x)
  pub route_replace_kernel : (x : Route IP) → IsKernelCall (K.route_replace x)
  pub route_del_kernel : (x : Route IP) → IsKernelCall (K.route_del x)
