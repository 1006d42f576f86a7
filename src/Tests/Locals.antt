-- ===== src/Tests/Locals.antt =====
-- A host whose VXLAN interface is there already, and what it publishes.
use smuggle.Prelude.{
  ℕ, ◌+◌, sym, nat_eq, String, Bool, true, false, ◌&&◌, not, none, some, ◌≡◌, ◌≢◌, refl, arith, ap,
  if◌then◌else◌, ◌==◌, ==_eq, string_eq, Bool-cases, inl, inr,
}
use smuggle.Prelude.Error.{Result, ok, err, sentinel, new_error}
use smuggle.Prelude.Int.{ℤ, pos, negsuc}
use smuggle.Subnet.{Subnet}
use smuggle.Vxlan.{parse_config, empty_config}
use smuggle.Vxlan.Interface.{Config, Netlink, other_link}
use smuggle.Vxlan.Local.{
  Vxlan, Links, HostInterface, vxlan_device, eexist, create_ipv4, set_local, parse_local,
  local_config, ensure_link, differ,
}
use smuggle.Vxlan.Published.{set_local-parse_config}
use smuggle.Tests.Rules.{texts}
use smuggle.Tests.Plans.{owned, net_b}

-- What the host publishes, and the one text of the JSON here.
abbrev published : Config
published = record { vni = pos 7; port = pos 4789; mtu = pos 1450; vtep_mac = "aa:bb" }

abbrev given : Config
given = record published { vtep_mac = "" }

-- `empty` is what the configuration of a user says, and any other text is what is published.
abbrev unmarshal : String → Config → Result Config
unmarshal t c = if t == "user" then ok given else ok published

abbrev same_config : Config → Config → Bool
same_config c d =
    not (differ c.vni d.vni)
    && (not (differ c.port d.port) && (not (differ c.mtu d.mtu) && c.vtep_mac == d.vtep_mac))

abbrev marshal : Config → Result String
marshal c = if same_config c published then ok "published" else err (new_error "unknown")

differ-pos : (a : ℤ) (n : ℕ) → differ a (pos n) ≡ false → a ≡ pos n
differ-pos (pos m) n h = let same : m ≡ n = ground (arith, h) in ap pos same
differ-pos (negsuc m) n h = absurd (ground (arith, h))

both : (a b : Bool) → (a && b) ≡ true → (a ≡ true) × (b ≡ true)
both true b h = (refl, h)
both false b h = cc h

not-true : (a : Bool) → not a ≡ true → a ≡ false
not-true true h = cc h
not-true false h = refl

of_fields :
    (v p m : ℤ) (mac : String)
    → v ≡ pos 7
    → p ≡ pos 4789
    → m ≡ pos 1450
    → mac ≡ "aa:bb"
    → ◌≡◌ {A = Config} published (record { vni = v; port = p; mtu = m; vtep_mac = mac })
of_fields v p m mac at_v at_p at_m at_mac = rw (at_v, at_p, at_m, at_mac) refl

published-same_config : (c : Config) → same_config c published ≡ true → published ≡ c
published-same_config c h =
    let (v, rest) = both (not (differ c.vni (pos 7))) _ h in
    let (p, rest') = both (not (differ c.port (pos 4789))) _ rest in
    let (m, mac) = both (not (differ c.mtu (pos 1450))) _ rest' in
    of_fields c.vni c.port c.mtu c.vtep_mac (differ-pos c.vni 7 (not-true _ v))
      (differ-pos c.port 4789 (not-true _ p)) (differ-pos c.mtu 1450 (not-true _ m))
      (==_eq c.vtep_mac "aa:bb" mac)

codec : (c : Config) (t : String) → marshal c ≡ ok t → unmarshal t empty_config ≡ ok c
codec c t h = elim (Bool-cases (same_config c published)) [
  | inl same ↦
      let text : "published" ≡ t = cc (rw same at h) in
      rw (sym text) (ap ok (published-same_config c same))
  | inr other ↦ cc (rw other at h)
]

-- The state counts the calls.
abbrev counted : ℕ → Result (Unit {0}) × ℕ
counted n = (ok tt, n + 1)

abbrev remote : Netlink ℕ
remote = record {
  State = ℕ;
  unmarshal = unmarshal;
  parse_mac = λ t. ok t;
  link_by_name = λ name n. (ok other_link, n);
  neigh_set = λ x. counted;
  neigh_del = λ x. counted;
  route_replace = λ x. counted;
  route_del = λ x. counted;
}

-- The interface of the host, which is there already.
abbrev device : Vxlan ℕ
device = record {
  name = "blue0";
  mtu = pos 1450;
  hardware_addr = "aa:bb";
  vxlan_id = pos 7;
  vtep_dev_index = pos 2;
  src_addr = some 1;
  group = none;
  l2miss = false;
  port = pos 4789;
  gbp = false;
}

abbrev links : Links ℕ
links = record {
  State = ℕ;
  ip_equal = λ a b. a == b;
  marshal = marshal;
  unmarshal = unmarshal;
  link_add = λ v n. (err (sentinel eexist), n);
  link_by_name = λ t n. (ok (vxlan_device device), n);
  link_by_index = λ i n. (ok (vxlan_device device), n);
  link_del = λ d. counted;
  link_set_up = λ v. counted;
  sysctl = λ k v. counted;
}

abbrev local : Subnet ℕ
local = record (owned "a" net_b) { config = some "user"; host_ipv4 = some 1 }

abbrev eth : HostInterface
eth = record { index = pos 2; mtu = pos 1500 }

abbrev reply : Subnet ℕ
reply = record local { config = some "published" }

set_local_ok : (set_local links local eth 0).0 ≡ ok reply
unfolding set_local create_ipv4 ensure_link
set_local_ok = refl

set_local-parse_config_example :
    (c : Config) × (link : Vxlan ℕ) × (parse_local links local.config (local_config links eth)
      ≡ ok c)
    × ((create_ipv4 links local c eth.index 0).0 ≡ ok link)
    × (parse_config texts remote 3 "failed to unmarshal vxlan config: %w" reply.config
        ≡ ok (record c { vtep_mac = link.hardware_addr }))
    × (link.hardware_addr ≢ "")
    × (reply ≡ record local { config = reply.config })
set_local-parse_config_example =
    set_local-parse_config texts remote 3 links "failed to unmarshal vxlan config: %w" local reply
      eth 0 codec set_local_ok
