-- ===== src/Tests/Rules.antt =====
-- The firewall's theorems on a rule table in memory.
use smuggle.Prelude.{
  ℕ, String, Bool, true, none, [], ◌∷◌, ◌++◌, ◌≡◌, ◌≢◌, refl, arith, inl, inr, In, All, contains,
  list_eq, list_beq, string_eq, ◌⊎◌,
}
use smuggle.Prelude.Error.{ok}
use smuggle.Ipv4.{Net, net_string}
use smuggle.Network.{Network, bridge_interface_name, interface_name}
use smuggle.Firewall.{
  ensure_isolation, ensure_chain, ensure_all, ensure_isolation_rule, isolation_rules,
  isolation_rule, isolate_each, isolate_from, setup_forward_rules, setup_forward_cidr, network_cidr,
  apply_forward, apply_rule, ensure_jump_rule_first, delete_if, forward_rules, accept_rules,
  filter_table, forward_chain, smuggle_forward_chain, jump_spec,
}
use smuggle.Firewall.Interface.{Specs, erase}
use smuggle.Firewall.Missing.{add_missing}
use smuggle.Firewall.Forward.{accept_specs, setup_forward_rules_lem}
use smuggle.Firewall.Isolation.{
  IsPrefixMatch, specs_of, ensure_isolation_lem, ensure_isolation_rejects,
  isolation_rules_block_own,
}
use smuggle.Tests.Memory.{Table, memory_tables, memory_tables-IsLawful}
use smuggle.Tests.Plans.{blue}
use text.Mathlib.TextEquality.{eq_iff}

-- The texts of addresses do not matter here.
abbrev pub texts : Net
texts = record {
  IP = ℕ;
  parse_ip = λ t. none;
  to4 = λ i. none;
  ipv4 = λ q. 0;
  ip_string = λ i. "10.10.0.0";
  decimal = λ i. "16";
  parse_cidr = λ t. ok (0, 16);
}

abbrev pub bare : Table
bare t c = []

abbrev once : Table
once = (setup_forward_rules memory_tables texts blue bare).1

once_ok : (setup_forward_rules memory_tables texts blue bare).0 ≡ ok tt
unfolding setup_forward_rules setup_forward_cidr network_cidr ensure_chain apply_forward
    forward_rules accept_rules apply_rule ensure_jump_rule_first delete_if list_eq list_beq
    bridge_interface_name interface_name erase
once_ok = refl

twice_ok : (setup_forward_rules memory_tables texts blue once).0 ≡ ok tt
unfolding setup_forward_rules setup_forward_cidr network_cidr ensure_chain apply_forward
    forward_rules accept_rules apply_rule ensure_jump_rule_first delete_if list_eq list_beq
    bridge_interface_name interface_name erase net_string
twice_ok = refl

setup_forward_rules_lem_example :
    (cidr : String) × (rest : Specs) × (network_cidr memory_tables texts blue ≡ ok cidr)
    × (once filter_table forward_chain ≡ jump_spec ∷ rest)
    × ((rest ≡ []) ⊎ (rest ≡ erase jump_spec []))
    × (once filter_table smuggle_forward_chain
        ≡ add_missing (accept_specs cidr (bridge_interface_name blue) (interface_name blue)) [])
setup_forward_rules_lem_example =
    setup_forward_rules_lem memory_tables memory_tables-IsLawful texts blue bare once_ok

abbrev red : Network
red = record blue { name = "red" }

abbrev started : Table
started t c = ("-j" ∷ "ACCEPT" ∷ []) ∷ ("-j" ∷ "DROP" ∷ []) ∷ []

isolated_ok : (ensure_isolation memory_tables (blue ∷ red ∷ []) started).0 ≡ ok tt
unfolding ensure_isolation ensure_chain ensure_all ensure_isolation_rule isolation_rules
    isolate_each isolate_from isolation_rule list_eq list_beq
isolated_ok = refl

ensure_isolation_lem_example :
    (fresh : Specs) × ((ensure_isolation memory_tables (blue ∷ red ∷ []) started).1 filter_table
        smuggle_forward_chain
      ≡ ("-j" ∷ "ACCEPT" ∷ []) ∷ (fresh ++ (("-j" ∷ "DROP" ∷ []) ∷ [])))
    × All (λ x. In x (specs_of (isolation_rules (blue ∷ red ∷ [])))) fresh
ensure_isolation_lem_example =
    ensure_isolation_lem memory_tables memory_tables-IsLawful (blue ∷ red ∷ []) started
      ("-j" ∷ "ACCEPT" ∷ []) (("-j" ∷ "DROP" ∷ []) ∷ []) (omega arith) refl isolated_ok

colours_differ : ◌≢◌ {A = String} "blue" "red"
colours_differ = ground (arith, eq_iff "blue" "red")

ensure_isolation_rejects_example :
    (contains
        ((ensure_isolation memory_tables (blue ∷ red ∷ []) started).1 filter_table
          smuggle_forward_chain)
        (isolation_rule "blue" "red").spec
      ≡ true)
    × (contains
          ((ensure_isolation memory_tables (blue ∷ red ∷ []) started).1 filter_table
            smuggle_forward_chain)
          (isolation_rule "red" "blue").spec
        ≡ true)
ensure_isolation_rejects_example =
    ensure_isolation_rejects memory_tables memory_tables-IsLawful (blue ∷ red ∷ []) started blue red
      (omega arith) isolated_ok (inl refl) (inr (inl refl)) colours_differ

-- A network whose name begins with that of another.
abbrev bluest : Network
bluest = record blue { name = "bluest" }

abbrev matches_all : String → String → Bool
matches_all pattern name = true

matches_all-IsPrefixMatch : IsPrefixMatch matches_all
matches_all-IsPrefixMatch name rest = refl

names_differ : ◌≢◌ {A = String} "blue" "bluest"
names_differ = ground (arith, eq_iff "blue" "bluest")

isolation_rules_block_own_example :
    (text : String) × In (isolation_rule "blue" "bluest") (isolation_rules (blue ∷ bluest ∷ []))
    × ((isolation_rule "blue" "bluest").spec
        ≡ "-i" ∷ "blue+" ∷ "-o" ∷ "bluest+" ∷ "-m" ∷ "comment" ∷ "--comment" ∷ text ∷ "-j"
          ∷ "REJECT" ∷ "--reject-with" ∷ "icmp-net-prohibited" ∷ [])
    × (matches_all "blue+" (bridge_interface_name bluest) ≡ true)
    × (matches_all "bluest+" (interface_name bluest) ≡ true)
isolation_rules_block_own_example =
    isolation_rules_block_own matches_all blue bluest "st" (blue ∷ bluest ∷ [])
      matches_all-IsPrefixMatch (inl refl) (inr (inl refl)) refl names_differ
