-- ===== src/Tests/Kernel.antt =====
-- The provider's theorems on a kernel in memory that has room for one entry of each kind.
use smuggle.Prelude.{ℕ, String, Bool, true, false, none, some, ◌≡◌, ◌≢◌, refl}
use smuggle.Prelude.Error.{is_error, Error, Result, ok, err}
use smuggle.Ipv4.{Net}
use smuggle.Subnet.{Subnet}
use smuggle.Vxlan.{set_remote, delete_remote, set_entries, delete_entries, parse_config}
use smuggle.Vxlan.Interface.{deadline_exceeded, Netlink, IsLawful, Family, inet, bridge, vxlan_link}
use smuggle.Vxlan.Retry.{retry, retry_from}
use smuggle.Vxlan.Remote.{HasEntries, IsNamed, set_remote_lem, delete_remote_lem}
use smuggle.Tests.Plans.{owned, net_b}

abbrev texts : Net
texts = record {
  IP = ℕ;
  parse_ip = λ t. none;
  to4 = λ i. none;
  ipv4 = λ q. 1;
  ip_string = λ i. "10.10.0.0";
  decimal = λ i. "16";
  parse_cidr = λ t. ok (0, 16);
}

record Kernel : Type 0 where
  forwarding : Bool
  arp : Bool
  routed : Bool

abbrev set_flag : Bool → Family → Kernel → Kernel
set_flag b inet s = record s { arp = b }
set_flag b bridge s = record s { forwarding = b }

abbrev flag : Family → Kernel → Bool
flag inet s = s.arp
flag bridge s = s.forwarding

abbrev kernel : Netlink ℕ
kernel = record {
  State = Kernel;
  unmarshal = λ t cfg. ok (record cfg { vtep_mac = t });
  parse_mac = λ t. ok t;
  link_by_name = λ name s. (ok (vxlan_link 3), s);
  neigh_set = λ x s. (ok tt, set_flag true x.family s);
  neigh_del = λ x s. (ok tt, set_flag false x.family s);
  route_replace = λ x s. (ok tt, record s { routed = true });
  route_del = λ x s. (ok tt, record s { routed = false });
}

flag-set_flag : (b : Bool) (f : Family) (s : Kernel) → flag f (set_flag b f s) ≡ b
flag-set_flag b inet s = refl
flag-set_flag b bridge s = refl

flag-set_flag_other :
    (b : Bool) (f g : Family) (s : Kernel) → f ≢ g → flag g (set_flag b f s) ≡ flag g s
flag-set_flag_other b inet inet s h = absurd (h refl)
flag-set_flag_other b inet bridge s h = refl
flag-set_flag_other b bridge inet s h = refl
flag-set_flag_other b bridge bridge s h = absurd (h refl)

routed-set_flag : (b : Bool) (f : Family) (s : Kernel) → (set_flag b f s).routed ≡ s.routed
routed-set_flag b inet s = refl
routed-set_flag b bridge s = refl

flag-route : (b : Bool) (f : Family) (s : Kernel) → flag f (record s { routed = b }) ≡ flag f s
flag-route b inet s = refl
flag-route b bridge s = refl

no_error :
    (e : Error) → ◌≡◌ {A = Result (Unit {0})} (ok tt) (err e) → is_error e deadline_exceeded ≡ false
no_error e h = cc

abbrev kernel-IsLawful : IsLawful kernel
kernel-IsLawful = record {
  has_neigh = λ s y. flag y.family s;
  has_route = λ s y. s.routed;
  neigh_set_ok = λ x s h. flag-set_flag true x.family s;
  neigh_del_ok = λ x s h. flag-set_flag false x.family s;
  route_replace_ok = λ x s h. refl;
  route_del_ok = λ x s h. refl;
  neigh_set_other = λ x y s h. flag-set_flag_other true x.family y.family s h;
  neigh_del_other = λ x y s h. flag-set_flag_other false x.family y.family s h;
  route_replace_neigh = λ x y s. flag-route true y.family s;
  neigh_del_route = λ x y s. routed-set_flag false x.family s;
  neigh_set_kernel = λ x s e h. no_error e h;
  neigh_del_kernel = λ x s e h. no_error e h;
  route_replace_kernel = λ x s e h. no_error e h;
  route_del_kernel = λ x s e h. no_error e h;
}

abbrev remote : Subnet ℕ
remote = record (owned "b" net_b) { config = some "02:00:00:00:00:01" }

abbrev idle : Kernel
idle = record { forwarding = false; arp = false; routed = false }

set_remote_ok : (set_remote texts kernel 3 remote idle).0 ≡ ok tt
unfolding set_remote set_entries parse_config retry retry_from
set_remote_ok = refl

set_remote_lem_example :
    (index : ℕ) × (mac : String) × IsNamed texts kernel kernel-IsLawful 3 remote
      "failed to unmarshal vxlan config: %w" index mac idle
    × HasEntries texts kernel kernel-IsLawful 3 true remote index mac
        (set_remote texts kernel 3 remote idle).1
set_remote_lem_example = set_remote_lem texts kernel kernel-IsLawful 3 remote idle set_remote_ok

delete_remote_ok : (delete_remote texts kernel 3 remote idle).0 ≡ ok tt
unfolding delete_remote delete_entries parse_config retry retry_from
delete_remote_ok = refl

delete_remote_lem_example :
    (index : ℕ) × (mac : String) × IsNamed texts kernel kernel-IsLawful 3 remote
      "failed to unmarshal config: %w" index mac idle
    × HasEntries texts kernel kernel-IsLawful 3 false remote index mac
        (delete_remote texts kernel 3 remote idle).1
delete_remote_lem_example =
    delete_remote_lem texts kernel kernel-IsLawful 3 remote idle delete_remote_ok
