-- ===== src/Firewall.antt =====
-- internal/network/firewall/iptables: the rules of a network, and the calls that put them in place.
-- Package go-iptables is the parameter `IpTables`; `IsLawful` says what it documents of its calls.
mod Rules
pub mod Interface
pub mod Chains
pub mod Missing
pub mod Behind
pub mod Forward
pub mod Masquerade
pub mod Isolation
use smuggle.Prelude.{String, ◌<>◌, Bool, true, false, Option, none, some, List, [], ◌∷◌, ◌++◌, ltb}
use smuggle.Prelude.{length, contains, if◌then◌else◌, ◌==◌, string_eq, ℕ}
use smuggle.Prelude.Error.{Result, ok, err, panic, errorf, wrap, wrapf}
use smuggle.Prelude.State.{St, return, lift, on_error, ◌>>=◌, ◌>>◌}
use smuggle.Ipv4.{Ipv4Net, Net, net_string}
use smuggle.Network.{Network, interface_name, bridge_interface_name}
use smuggle.Subnet.{Subnet}
use Interface.{IpTables}
unfoldable pub use Rules.*

module _ (I : IpTables) where
  open I use {State, list_chains, new_chain, exists, append, insert, delete, has_random_fully}

  unfoldable pub ensure_chain : String → String → St State (Unit {0})
  ensure_chain table chain = do
    chains ← on_error (wrap "failed to list chains: %w") (list_chains table)
    if contains chains chain
        then return tt
        else on_error (wrap "failed to create chain: %w") (new_chain table chain)

  unfoldable pub apply_rule : Rule → St State (Unit {0})
  apply_rule r = do
    there ← on_error (wrap "failed to check if rule exists: %w") (exists r.table r.chain r.spec)
    if there
        then return tt
        else on_error (wrap "failed to apply rule: %w") (append r.table r.chain r.spec)

  -- The loop of `SetupMasqRules`.
  unfoldable pub apply_all : List Rule → St State (Unit {0})
  apply_all [] = return tt
  apply_all (r ∷ rest) = do
    on_error (wrap "failed to apply rule: %w") (apply_rule r)
    apply_all rest

  -- The loop of `SetupForwardRules`, which skips the rule of the FORWARD chain.
  unfoldable pub apply_forward : List Rule → St State (Unit {0})
  apply_forward [] = return tt
  apply_forward (r ∷ rest) =
      let later = apply_forward rest in
      if r.chain == forward_chain
      then later
      else on_error (wrap "failed to apply rule: %w") (apply_rule r) >> later

  -- A deletion that fails is only logged.
  unfoldable pub delete_if : Bool → String → String → List String → St State (Unit {0})
  delete_if false table chain spec s = (ok tt, s)
  delete_if true table chain spec s = (ok tt, (delete table chain spec s).1)

  unfoldable pub ensure_jump_rule_first : String → String → String → St State (Unit {0})
  ensure_jump_rule_first table chain target = do
    let spec = comment "smuggle forward" ("-j" ∷ target ∷ [])
    there ← on_error (wrap "failed to check if jump rule exists: %w") (exists table chain spec)
    delete_if there table chain spec
    on_error (wrap "failed to insert jump rule at position 1: %w") (insert table chain 1 spec)

  unfoldable pub ensure_isolation_rule : Rule → St State (Unit {0})
  ensure_isolation_rule r = do
    there ← on_error (wrap "failed to check if rule exists: %w") (exists r.table r.chain r.spec)
    if there
        then return tt
        else on_error (wrap "failed to insert isolation rule: %w") (insert r.table r.chain 2 r.spec)

  unfoldable pub ensure_all : List Rule → St State (Unit {0})
  ensure_all [] = return tt
  ensure_all (r ∷ rest) = do
    on_error (wrap "failed to apply isolation rule: %w") (ensure_isolation_rule r)
    ensure_all rest

  unfoldable pub ensure_isolation : List Network → St State (Unit {0})
  ensure_isolation networks =
      if ltb (length networks) 2
      then return tt
      else on_error (wrap "failed to ensure chain: %w")
          (ensure_chain filter_table smuggle_forward_chain)
        >> ensure_all (isolation_rules networks)

  -- `SetupForwardRules` behind the text of the network.
  unfoldable pub setup_forward_cidr : Network → String → St State (Unit {0})
  setup_forward_cidr n cidr = do
    on_error (wrapf "failed to ensure chain %s: %w" (smuggle_forward_chain ∷ []))
        (ensure_chain filter_table smuggle_forward_chain)
    apply_forward (forward_rules cidr (bridge_interface_name n) (interface_name n))
    on_error (wrap "failed to ensure jump rule is first: %w")
        (ensure_jump_rule_first filter_table forward_chain smuggle_forward_chain)

  module _ (N : Net) where
    -- `network.IPv4.Network.String()`
    unfoldable pub network_cidr : Network → Result String
    network_cidr n = elim n.ipv4 [
      | none ↦ panic "nil pointer dereference"
      | some c ↦ elim c.network [
        | none ↦ panic "nil pointer dereference"
        | some net ↦ ok (net_string N net)
      ]
    ]

    unfoldable pub subnet_cidr : Option Ipv4Net → Result String
    subnet_cidr none = panic "nil pointer dereference"
    subnet_cidr (some net) = ok (net_string N net)

    unfoldable pub setup_masq_rules : {IP : Type 0} → Network → Subnet IP → St State (Unit {0})
    unfolding subnet_cidr
    setup_masq_rules n subnet = do
      network ← lift (network_cidr n)
      local ← lift (subnet_cidr subnet.ipv4_network)
      on_error (wrap "failed to ensure chain: %w")
          (ensure_chain nat_table smuggle_postrouting_chain)
      apply_all (masq_rules has_random_fully network local)

    unfoldable pub setup_forward_rules : Network → St State (Unit {0})
    setup_forward_rules n = do cidr ← lift (network_cidr n); setup_forward_cidr n cidr
