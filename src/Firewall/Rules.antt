-- ===== src/Firewall/Rules.antt =====
-- internal/network/firewall/iptables: the rules as values (`rule.go`, `masqRules`, `forwardRules`,
-- and the loops of `EnsureIsolation` that build its rules).
use smuggle.Prelude.{String, ◌<>◌, Bool, List, [], ◌∷◌, ◌++◌, if◌then◌else◌, ◌==◌, string_eq}
use smuggle.Network.{Network}

pub record Rule : Type 0 where
  pub id : String
  pub table : String
  pub chain : String
  pub spec : List String

abbrev pub nat_table : String
nat_table = "nat"

abbrev pub filter_table : String
filter_table = "filter"

abbrev pub smuggle_postrouting_chain : String
smuggle_postrouting_chain = "SMUGGLE-POSTROUTING"

abbrev pub smuggle_forward_chain : String
smuggle_forward_chain = "SMUGGLE-FORWARD"

abbrev pub postrouting_chain : String
postrouting_chain = "POSTROUTING"

abbrev pub forward_chain : String
forward_chain = "FORWARD"

-- A comment match.
abbrev pub comment : String → List String → List String
comment text rest = "-m" ∷ "comment" ∷ "--comment" ∷ text ∷ rest

abbrev pub forward_rule : String → List String → Rule
forward_rule id spec = record {
  id = id;
  table = filter_table;
  chain = smuggle_forward_chain;
  spec = spec;
}

abbrev pub masq_rule : String → String → List String → Rule
masq_rule id chain spec = record { id = id; table = nat_table; chain = chain; spec = spec }

unfoldable pub masq_rules : Bool → String → String → List Rule
masq_rules random_fully network subnet =
    masq_rule "jump-to-smuggle-chain" postrouting_chain
      (comment "smuggle masq" ("-j" ∷ smuggle_postrouting_chain ∷ []))
    ∷ (if random_fully
        then masq_rule "masquerade-to-external-random-fully" smuggle_postrouting_chain (
            "-s"
            ∷ subnet
            ∷ "!"
            ∷ "-d"
            ∷ network
            ∷ comment "smuggle masq" ("-j" ∷ "MASQUERADE" ∷ "--random-fully" ∷ []))
        else masq_rule "masquerade-to-external" smuggle_postrouting_chain (
            "-s"
            ∷ subnet
            ∷ "!"
            ∷ "-d"
            ∷ network
            ∷ comment "smuggle masq" ("-j" ∷ "MASQUERADE" ∷ [])))
    ∷ []

abbrev pub jump_spec : List String
jump_spec = comment "smuggle forward" ("-j" ∷ smuggle_forward_chain ∷ [])

abbrev pub jump_rule : Rule
jump_rule = record {
  id = "jump-to-forward-chain";
  table = filter_table;
  chain = forward_chain;
  spec = jump_spec;
}

-- The rules of `forwardRules` behind the jump.
unfoldable pub accept_rules : String → String → String → List Rule
accept_rules cidr bridge iface =
    forward_rule "accept-established-related" (
      "-m"
      ∷ "conntrack"
      ∷ "--ctstate"
      ∷ "RELATED,ESTABLISHED"
      ∷ comment "smuggle forward established" ("-j" ∷ "ACCEPT" ∷ []))
    ∷ forward_rule "accept-forward-from-bridge-to-external" (
        "-i"
        ∷ bridge
        ∷ "-s"
        ∷ cidr
        ∷ "!"
        ∷ "-d"
        ∷ cidr
        ∷ comment "smuggle forward to external" ("-j" ∷ "ACCEPT" ∷ []))
    ∷ forward_rule "accept-forward-to-bridge-from-external" (
        "-o"
        ∷ bridge
        ∷ "-d"
        ∷ cidr
        ∷ "!"
        ∷ "-s"
        ∷ cidr
        ∷ comment "smuggle forward from external" ("-j" ∷ "ACCEPT" ∷ []))
    ∷ forward_rule "accept-forward-within-network-local" (
        "-i"
        ∷ bridge
        ∷ "-o"
        ∷ bridge
        ∷ "-s"
        ∷ cidr
        ∷ "-d"
        ∷ cidr
        ∷ comment "smuggle forward intra-network local" ("-j" ∷ "ACCEPT" ∷ []))
    ∷ forward_rule "accept-forward-bridge-to-vxlan" (
        "-i"
        ∷ bridge
        ∷ "-o"
        ∷ iface
        ∷ "-s"
        ∷ cidr
        ∷ "-d"
        ∷ cidr
        ∷ comment "smuggle forward bridge to vxlan" ("-j" ∷ "ACCEPT" ∷ []))
    ∷ forward_rule "accept-forward-smuggle-to-bridge" (
        "-i"
        ∷ iface
        ∷ "-o"
        ∷ bridge
        ∷ "-s"
        ∷ cidr
        ∷ "-d"
        ∷ cidr
        ∷ comment "smuggle forward vxlan to bridge" ("-j" ∷ "ACCEPT" ∷ []))
    ∷ []

unfoldable pub forward_rules : String → String → String → List Rule
unfolding accept_rules
forward_rules cidr bridge iface = jump_rule ∷ accept_rules cidr bridge iface

-- The rule that rejects what goes from one network's interfaces to the other's.
unfoldable pub isolation_rule : String → String → Rule
isolation_rule source dest = record {
  id = "reject-" <> source <> "-to-" <> dest;
  table = filter_table;
  chain = smuggle_forward_chain;
  spec =
      "-i"
      ∷ (source <> "+")
      ∷ "-o"
      ∷ (dest <> "+")
      ∷ comment ("smuggle isolate " <> source <> " from " <> dest)
          ("-j" ∷ "REJECT" ∷ "--reject-with" ∷ "icmp-net-prohibited" ∷ []);
}

-- The inner loop over the destinations, and the outer one over the sources.
unfoldable pub isolate_from : String → List Network → List Rule
isolate_from source [] = []
isolate_from source (dest ∷ rest) =
    let later = isolate_from source rest in
    if source == dest.name then later else isolation_rule source dest.name ∷ later

unfoldable pub isolate_each : List Network → List Network → List Rule
isolate_each [] all = []
isolate_each (source ∷ rest) all = isolate_from source.name all ++ isolate_each rest all

unfoldable pub isolation_rules : List Network → List Rule
unfolding isolate_each isolate_from isolation_rule
isolation_rules networks = isolate_each networks networks
