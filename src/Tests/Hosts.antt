-- ===== src/Tests/Hosts.antt =====
-- A host with a loopback interface and one that is up.
use smuggle.Prelude.{ℕ, String, true, false, some, List, [], ◌∷◌, ◌≡◌, refl, In, ◌==◌, nat_eq}
use smuggle.Prelude.Error.{ok, err, new_error}
use smuggle.Prelude.Int.{pos}
use smuggle.Firewall.{
  setup_masq_rules, apply_all, apply_rule, masq_rules, ensure_chain, network_cidr, subnet_cidr,
  nat_table, postrouting_chain, smuggle_postrouting_chain,
}
use smuggle.Firewall.Chains.{add_last}
use smuggle.Firewall.Masquerade.{masq_jump, masq_spec, setup_masq_rules_lem}
use smuggle.Fingerprint.{
  Host, Interface, Addr, ip_net, other_addr, Fingerprint, is_suitable, any_routable,
  first_non_loopback, get_default_interface, first_ipv4, choose_interface, fingerprint,
}
use smuggle.Fingerprint.Choice.{IsRunning, get_default_interface_lem, fingerprint_lem}
use smuggle.Tests.Memory.{memory_tables, memory_tables-IsLawful}
use smuggle.Tests.Rules.{texts, bare}
use smuggle.Tests.Plans.{blue, owned, net_b}

abbrev loop_back : Interface
loop_back = record { index = 1; mtu = pos 65536; name = "lo"; is_up = true; is_loopback = true }

abbrev ethernet : Interface
ethernet = record { index = 2; mtu = pos 1500; name = "eth0"; is_up = true; is_loopback = false }

-- Addresses are numbers, and 127 is the loopback address. The host cannot reach the network.
abbrev host : Host
host = record {
  IP = ℕ;
  interfaces = ok (loop_back ∷ ethernet ∷ []);
  interface_by_name = λ name. ok ethernet;
  addrs = λ i. ok (other_addr ∷ ip_net 127 ∷ ip_net 7 ∷ []);
  dial_local = err (new_error "network is unreachable");
  loopback = λ ip. ip == 127;
  equal = λ a b. a == b;
  has_to4 = λ ip. true;
}

default_found : get_default_interface host ≡ ok ethernet
unfolding get_default_interface first_non_loopback is_suitable any_routable
default_found = refl

get_default_interface_lem_example :
    (l : List Interface) × (host.interfaces ≡ ok l) × In ethernet l × IsRunning host ethernet
get_default_interface_lem_example = get_default_interface_lem host ethernet default_found

abbrev chosen : Fingerprint ℕ
chosen = record { iface_name = "eth0"; iface = ethernet; ipv4_addr = some 7 }

fingerprint_found : fingerprint host "" ≡ ok chosen
unfolding fingerprint choose_interface get_default_interface first_non_loopback is_suitable
    any_routable first_ipv4
fingerprint_found = refl

fingerprint_lem_example :
    (l : List (Addr ℕ)) × (ip : ℕ) × (host.addrs ethernet ≡ ok l)
    × (some 7 ≡ some ip)
    × In (ip_net ip) l
    × (host.loopback ip ≡ false)
    × (host.has_to4 ip ≡ true)
    × ("eth0" ≡ ethernet.name)
fingerprint_lem_example = fingerprint_lem host "" chosen fingerprint_found

masq_ok : (setup_masq_rules memory_tables texts blue (owned "a" net_b) bare).0 ≡ ok tt
unfolding setup_masq_rules apply_all apply_rule masq_rules ensure_chain network_cidr subnet_cidr
masq_ok = refl

setup_masq_rules_lem_example :
    (network : String) × (subnet : String) × (network_cidr memory_tables texts blue ≡ ok network)
    × (subnet_cidr memory_tables texts (some net_b) ≡ ok subnet)
    × ((setup_masq_rules memory_tables texts blue (owned "a" net_b) bare).1 nat_table
          postrouting_chain
        ≡ add_last masq_jump [])
    × ((setup_masq_rules memory_tables texts blue (owned "a" net_b) bare).1 nat_table
          smuggle_postrouting_chain
        ≡ add_last (masq_spec true network subnet) [])
setup_masq_rules_lem_example =
    setup_masq_rules_lem memory_tables memory_tables-IsLawful texts blue (owned "a" net_b) bare
      masq_ok
