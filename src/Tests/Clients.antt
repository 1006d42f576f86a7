-- ===== src/Tests/Clients.antt =====
-- A client that finds its subnet in the store.
use smuggle.Prelude.{ℕ, Option, some, ◌≡◌, refl, ap, sym, list_eq, list_beq}
use smuggle.Prelude.Error.{ok}
use smuggle.Prelude.Int.{pos}
use smuggle.Ipv4.{shl32}
use smuggle.Network.{validate, bridge_interface_name, interface_name, canonicalize, canonical_masq}
use smuggle.Subnet.{Subnet}
use smuggle.Firewall.{
  setup_masq_rules, setup_forward_rules, setup_forward_cidr, network_cidr, subnet_cidr,
  ensure_chain, apply_all, apply_forward, masq_rules, forward_rules, accept_rules, apply_rule,
  ensure_jump_rule_first, delete_if,
}
use smuggle.Client.Init.{
  Local, World, init_network, own_subnet, init_subnet, setup_masq, generate_cni_config,
}
use smuggle.Client.Init.Stored.{heartbeat_overwrites}
use smuggle.Client.Heartbeat.{heartbeat}
use smuggle.Client.Init.Allocation.{IsOwn, init_network_lem}
use smuggle.Tests.Memory.{Shelf, memory_store, memory_store-IsLawful, memory_tables}
use smuggle.Tests.Plans.{blue, green, host, zeros}
use smuggle.Tests.Rules.{texts, bare}
use smuggle.Tests.Entries.{mine, shelf}

-- A provider that changes nothing, and a CNI store that takes everything.
abbrev local : Local ℕ
local = record { State = ℕ; set_local = λ x s. (ok x, s); set_cni = λ c s. (ok tt, s) }

abbrev world : World memory_store memory_tables texts local
world = record { stored = shelf; tables = bare; host = 0 }

init_ok :
    (init_network memory_store memory_tables texts local
      (λ n. zeros)
      host
      (λ n. pos 0)
      "a"
      blue
      world).0
    ≡ ok (green, mine)
unfolding init_network own_subnet init_subnet setup_masq generate_cni_config validate canonicalize
    canonical_masq setup_masq_rules setup_forward_rules setup_forward_cidr network_cidr subnet_cidr
    ensure_chain apply_all apply_forward masq_rules forward_rules accept_rules apply_rule
    ensure_jump_rule_first delete_if list_eq list_beq shl32 bridge_interface_name interface_name
init_ok = refl

init_network_lem_example :
    (known : Option (Subnet ℕ)) × (validate blue ≡ ok tt)
    × ((memory_store.get_subnet "blue" "a" shelf).0 ≡ ok known)
    × (canonicalize blue ≡ ok green)
    × IsOwn memory_store memory_tables texts local
        (λ n. zeros)
        host
        (λ n. pos 0)
        "a"
        green
        known
        mine
        shelf
init_network_lem_example =
    init_network_lem memory_store memory_tables texts local (λ n. zeros) host (λ n. pos 0) "a" blue
      green mine world init_ok

-- A provider that fills in its configuration.
abbrev filled : Local ℕ
filled = record local { set_local = λ x s. (ok (record x { config = some "mac" }), s) }

abbrev filled_world : World memory_store memory_tables texts filled
filled_world = record { stored = shelf; tables = bare; host = 0 }

filled_ok :
    (init_network memory_store memory_tables texts filled
      (λ n. zeros)
      host
      (λ n. pos 0)
      "a"
      blue
      filled_world).0
    ≡ ok (green, mine)
unfolding init_network own_subnet init_subnet setup_masq generate_cni_config validate canonicalize
    canonical_masq setup_masq_rules setup_forward_rules setup_forward_cidr network_cidr subnet_cidr
    ensure_chain apply_all apply_forward masq_rules forward_rules accept_rules apply_rule
    ensure_jump_rule_first delete_if list_eq list_beq shl32 bridge_interface_name interface_name
filled_ok = refl

filled_key :
    (y r : Subnet ℕ) (h : ℕ)
    → (filled.set_local y h).0 ≡ ok r
    → (r.network_name ≡ y.network_name) × (r.client_id ≡ y.client_id)
filled_key y r h e =
    let same : record y { config = some "mac" } ≡ r = cc e in
    (
      ap (λ (z : Subnet ℕ). z.network_name) (sym same),
      ap (λ (z : Subnet ℕ). z.client_id) (sym same),
    )

-- The store when the client has set up its network.
abbrev published : Shelf
published =
    (init_network memory_store memory_tables texts filled (λ n. zeros) host (λ n. pos 0) "a" blue
      filled_world).1.stored

heartbeat_overwrites_example :
    (v : World memory_store memory_tables texts filled) × (r : Subnet ℕ) × ((filled.set_local mine
        v.host).0
      ≡ ok r)
    × (published "blue" "a" ≡ some r)
    × ((heartbeat memory_store mine (pos 0) published).1 "blue" "a" ≡ some mine)
heartbeat_overwrites_example =
    heartbeat_overwrites memory_store memory_tables texts filled memory_store-IsLawful (λ n. zeros)
      host (λ n. pos 0) "a" blue green mine filled_world (pos 0) filled_key filled_ok refl
