-- ===== src/Client/Init.antt =====
-- internal/agent/client/client.go: `Init` and `initSubnet`, with `GenerateCNIConfig` of
-- internal/types/cni.go. The local side of the provider and the CNI store are interfaces.
pub mod Allocation
pub mod Stored
use smuggle.Prelude.{
  ℕ, String, ◌<>◌, Bool, true, false, not, Option, none, some, List, [], ◌∷◌, map,
}
use smuggle.Prelude.Error.{Result, ok, err, panic, new_error, wrap, map_err}
use smuggle.Prelude.Error.{◌>>=◌ as ◌then_try◌}
use smuggle.Prelude.Int.{ℤ}
use smuggle.Prelude.State.{St, return, fail, lift, on_error, ◌>>=◌, ◌>>◌}
use smuggle.Ipv4.{Ipv4Net, Net, net_string, addr_string, next_addr}
use smuggle.Network.{Network, validate, canonicalize}
use smuggle.Subnet.{Subnet}
use smuggle.Fingerprint.{Fingerprint}
use smuggle.Allocator.{generate_ipv4_subnet}
use smuggle.Store.{Store}
use smuggle.Firewall.{setup_masq_rules, setup_forward_rules, ensure_isolation, network_cidr}
use smuggle.Firewall.Interface.{IpTables}

pub record Ipv4CniConfig : Type 0 where
  pub network : String
  pub subnet : String
  pub gateway : String

pub record CniConfig : Type 0 where
  pub name : String
  pub bridge : String
  pub mtu : ℤ
  pub ip_masq : Bool
  pub ipv4 : Ipv4CniConfig

-- What the client calls of the provider for its own subnets, and of the CNI store.
pub record Local (IP : Type 0) : Type 1 where
  pub State : Type 0
  pub set_local : Subnet IP → St State (Subnet IP)
  pub set_cni : CniConfig → St State (Unit {0})

abbrev pub deref : {A : Type 0} → Option A → Result A
deref none = panic "nil pointer dereference"
deref (some a) = ok a

module _ {IP : Type 0} (S : Store IP) (I : IpTables) (N : Net) (H : Local IP) where
  -- The state of all that the client writes to.
  pub record World : Type 0 where
    pub stored : S.State
    pub tables : I.State
    pub host : H.State

  abbrev pub in_store : {A : Type 0} → St S.State A → St World A
  in_store f w = let (r, t) = f w.stored in (r, record w { stored = t })

  abbrev pub in_tables : {A : Type 0} → St I.State A → St World A
  in_tables f w = let (r, t) = f w.tables in (r, record w { tables = t })

  abbrev pub in_host : {A : Type 0} → St H.State A → St World A
  in_host f w = let (r, t) = f w.host in (r, record w { host = t })

  unfoldable pub generate_cni_config : Network → Subnet IP → Result CniConfig
  generate_cni_config n x = deref n.ip_masq then_try λ masq. network_cidr I N n then_try λ network.
      deref x.ipv4_network then_try λ net. ok (record {
        name = n.name;
        bridge = n.name <> "brd0";
        mtu = x.mtu;
        ip_masq = not masq;
        ipv4 = record {
          network = network;
          subnet = net_string N (next_addr net);
          gateway = addr_string N (next_addr net).ip;
        };
      })

  unfoldable pub init_subnet : Network → Subnet IP → St World (Unit {0})
  init_subnet n x = do
    response ← on_error (wrap "failed to set up local subnet: %w") (in_host (H.set_local x))
    on_error (wrap "failed to store client subnet: %w") (in_store (S.set_subnet response))
    cni ← lift (generate_cni_config n x)
    on_error (wrap "failed to write CNI config: %w") (in_host (H.set_cni cni))

  -- `if networkConfig.IPMasq != nil && *networkConfig.IPMasq`
  unfoldable pub setup_masq : Option Bool → Network → Subnet IP → St World (Unit {0})
  setup_masq none n x = return tt
  setup_masq (some false) n x = return tt
  setup_masq (some true) n x =
      on_error (wrap "failed to set up firewall masquerade rules: %w")
        (in_tables (setup_masq_rules I N n x))

  -- The random numbers and the time of the allocation for a network.
  module _ (draws : Network → ℕ → ℕ → ℕ) (fp : Fingerprint IP) (now : Network → ℤ)
      (id : String) where
    -- A subnet that the store has for the client is kept, and otherwise one is allocated.
    unfoldable pub own_subnet : Network → Option (Subnet IP) → St World (Subnet IP)
    own_subnet n (some x) = return x
    own_subnet n none = do
      subnets ←
          on_error (wrap "failed to list existing client subnets: %w")
            (in_store (S.list_subnets n.name))
      lift (
          map_err (wrap "failed to generate IPv4 subnet: %w")
            (generate_ipv4_subnet (draws n) fp (now n) id n subnets))

    -- The body of the loop over the networks: the network with its defaults, and the subnet.
    unfoldable pub init_network : Network → St World (Network × Subnet IP)
    init_network n = do
      lift (map_err (wrap "invalid network: %w") (validate n))
      known ←
          on_error (wrap "failed to get client subnet config: %w")
            (in_store (S.get_subnet n.name id))
      m ← lift (canonicalize n)
      x ← own_subnet m known
      on_error (wrap "failed to initialize subnet: %w") (init_subnet m x)
      setup_masq m.ip_masq m x
      on_error (wrap "failed to set up firewall forward rules: %w")
          (in_tables (setup_forward_rules I N m))
      return (m, x)

    unfoldable pub init_all : List Network → St World (List (Network × Subnet IP))
    init_all [] = return []
    init_all (n ∷ rest) = do one ← init_network n; others ← init_all rest; return (one ∷ others)

    unfoldable pub init_listed : List Network → St World (List (Network × Subnet IP))
    init_listed [] = fail (new_error "no networks configurations found")
    init_listed (n ∷ rest) = do
      all ← init_all (n ∷ rest)
      on_error (wrap "failed to ensure network isolation: %w")
          (in_tables (ensure_isolation I (map (λ (p : Network × Subnet IP). p.0) all)))
      return all

    -- `Init`, which gives the networks and the subnets that the client keeps.
    unfoldable pub init : St World (List (Network × Subnet IP))
    init = do
      networks ← on_error (wrap "failed to get network configs: %w") (in_store S.list_networks)
      init_listed networks
