-- ===== src/Firewall/Masquerade.antt =====
-- `SetupMasqRules`: the chains of the nat table afterwards.
use smuggle.Prelude.{
  ◌≡◌, refl, String, Bool, true, false, List, [], ◌∷◌, ◌∙◌, ap, string_eq, if◌then◌else◌,
}
use smuggle.Prelude.Error.{ok}
use smuggle.Prelude.State.{>>=-ok, on_error-ok, on_error, lift}
use smuggle.Ipv4.{Net}
use smuggle.Network.{Network}
use smuggle.Subnet.{Subnet}
use smuggle.Firewall.{
  Rule, comment, apply_rule, apply_all, masq_rules, setup_masq_rules, network_cidr, subnet_cidr,
  ensure_chain, nat_table, postrouting_chain, smuggle_postrouting_chain,
}
use smuggle.Firewall.Interface.{IpTables, IsLawful, Specs, same_chain}
use smuggle.Firewall.Chains.{add_last, rules-apply_rule, rules-ensure_chain}

-- Every rule of the list that belongs in the chain, added at its end unless it is there.
abbrev pub add_rules : List Rule → String → String → Specs → Specs
add_rules [] t c rules = rules
add_rules (r ∷ rest) t c rules =
    add_rules rest t c (if same_chain r.table r.chain t c then add_last r.spec rules else rules)

abbrev pub masq_jump : List String
masq_jump = comment "smuggle masq" ("-j" ∷ smuggle_postrouting_chain ∷ [])

-- What leaves the client's subnet for another network is masqueraded.
abbrev pub masq_spec : Bool → String → String → List String
masq_spec random_fully network subnet =
    "-s"
    ∷ subnet
    ∷ "!"
    ∷ "-d"
    ∷ network
    ∷ comment "smuggle masq"
        ("-j" ∷ "MASQUERADE" ∷ (if random_fully then "--random-fully" ∷ [] else []))

module _ (I : IpTables) (L : IsLawful I) where
  open L use {rules}

  apply_all-add_rules :
      (l : List Rule) (s : I.State) (t c : String)
      → (apply_all I l s).0 ≡ ok tt
      → rules (apply_all I l s).1 t c ≡ add_rules l t c (rules s t c)
  unfolding apply_all
  apply_all-add_rules [] s t c done = refl
  apply_all-add_rules (r ∷ rest) s t c done =
      let (u, ran, later, whole) =
        >>=-ok (on_error _ (apply_rule I r)) (λ _. apply_all I rest) s done in
      let applied = on_error-ok _ (apply_rule I r) s ran in
      ap (λ x. rules x.1 t c) whole
      ∙ apply_all-add_rules rest (apply_rule I r s).1 t c later
      ∙ ap (add_rules rest t c) (rules-apply_rule I L r s t c applied)

  masq_rules_lem :
      (random_fully : Bool) (network subnet : String) (old : Specs)
      → (add_rules (masq_rules random_fully network subnet) nat_table postrouting_chain old
          ≡ add_last masq_jump old)
        × (add_rules
              (masq_rules random_fully network subnet)
              nat_table
              smuggle_postrouting_chain
              old
            ≡ add_last (masq_spec random_fully network subnet) old)
  unfolding masq_rules
  masq_rules_lem true network subnet old = (refl, refl)
  masq_rules_lem false network subnet old = (refl, refl)

  -- After a run of `SetupMasqRules` that succeeds, the POSTROUTING chain is the old one with the
  -- jump added at its end if it was missing, and the SMUGGLE-POSTROUTING chain is the old one with
  -- the MASQUERADE rule for what leaves the client's subnet for other networks.
  pub setup_masq_rules_lem :
      {IP : Type 0} (N : Net) (n : Network) (x : Subnet IP) (s : I.State)
      → (setup_masq_rules I N n x s).0 ≡ ok tt
      → let s' = (setup_masq_rules I N n x s).1 in
        (network : String) × (subnet : String) × (network_cidr I N n ≡ ok network)
        × (subnet_cidr I N x.ipv4_network ≡ ok subnet)
        × (rules s' nat_table postrouting_chain
            ≡ add_last masq_jump (rules s nat_table postrouting_chain))
        × (rules s' nat_table smuggle_postrouting_chain
            ≡ add_last
                (masq_spec I.has_random_fully network subnet)
                (rules s nat_table smuggle_postrouting_chain))
  unfolding setup_masq_rules
  setup_masq_rules_lem N n x s done =
      let (network, known, done1, at1) = >>=-ok (lift (network_cidr I N n)) _ s done in
      let (subnet, own, done2, at2) = >>=-ok (lift (subnet_cidr I N x.ipv4_network)) _ s done1 in
      let chain = ensure_chain I nat_table smuggle_postrouting_chain in
      let (u, made, done3, at3) = >>=-ok (on_error _ chain) _ s done2 in
      let all = masq_rules I.has_random_fully network subnet in
      let last = ap (λ r. r.1) (at1 ∙ at2 ∙ at3) in
      let after : (c : String)
          → rules (apply_all I all (chain s).1).1 nat_table c
            ≡ add_rules all nat_table c (rules s nat_table c) =
        (λ c.
          apply_all-add_rules all (chain s).1 nat_table c done3
          ∙ ap (add_rules all nat_table c)
              (rules-ensure_chain I L nat_table smuggle_postrouting_chain s nat_table c)) in
      (
        network,
        subnet,
        known,
        own,
        rw last (
            after postrouting_chain
            ∙ (masq_rules_lem I.has_random_fully network subnet
                (rules s nat_table postrouting_chain)).0),
        rw last (
            after smuggle_postrouting_chain
            ∙ (masq_rules_lem I.has_random_fully network subnet
                (rules s nat_table smuggle_postrouting_chain)).1),
      )
