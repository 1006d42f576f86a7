-- ===== src/Firewall/Forward.antt =====
-- `SetupForwardRules`: where the rules and the jump to them stand afterwards.
use text.Mathlib.TextEquality.{eq_iff}
use smuggle.Prelude.{◌≡◌, ◌≢◌, ◌⊎◌, refl, String, true, false, List, [], ◌∷◌, arith, ◌∙◌, ap}
use smuggle.Prelude.{◌==◌, string_eq, list_eq, contains, inl, inr, map, All, subst, sym}
use smuggle.Prelude.Error.{Result-cases, ok}
use smuggle.Prelude.State.{>>=-ok, on_error-ok, on_error, lift, ◌>>◌}
use smuggle.Ipv4.{Net}
use smuggle.Network.{Network, bridge_interface_name, interface_name}
use smuggle.Firewall.{
  Rule, apply_rule, apply_forward, setup_forward_cidr, setup_forward_rules, network_cidr,
  ensure_chain, ensure_jump_rule_first, forward_rules, accept_rules, jump_rule, jump_spec,
  forward_chain, filter_table, smuggle_forward_chain,
}
use smuggle.Firewall.Interface.{IpTables, IsLawful, Specs, erase}
use smuggle.Firewall.Chains.{
  add_last, rules-apply_rule, rules-ensure_chain, rules-ensure_jump_rule_first,
  rules-ensure_jump_rule_first_other,
}
use smuggle.Firewall.Missing.{add_missing, add_missing-All, add_missing_present}

-- The specifications that belong in the SMUGGLE-FORWARD chain.
abbrev pub accept_specs : String → String → String → Specs
accept_specs cidr bridge iface = map (λ (r : Rule). r.spec) (accept_rules cidr bridge iface)

chains_differ : ◌≢◌ {A = String} smuggle_forward_chain forward_chain
chains_differ = ground (arith, eq_iff smuggle_forward_chain forward_chain)

module _ (I : IpTables) (L : IsLawful I) where
  open L use {rules}

  -- One rule of the table, applied to its chain.
  apply_forward-cons :
      (r : Rule) (rest : List Rule) (s : I.State)
      → (r.chain == forward_chain) ≡ false
      → (apply_forward I (r ∷ rest) s).0 ≡ ok tt
      → ((apply_rule I r s).0 ≡ ok tt)
        × ((apply_forward I rest (apply_rule I r s).1).0 ≡ ok tt)
        × ((apply_forward I (r ∷ rest) s).1 ≡ (apply_forward I rest (apply_rule I r s).1).1)
  unfolding apply_forward
  apply_forward-cons r rest s other done = elim (Result-cases (apply_rule I r s).0) [
    | inl (u, applied) ↦ ground arith
    | inr (inl (e, failed)) ↦ absurd (ground arith)
    | inr (inr (p, failed)) ↦ absurd (ground arith)
  ]

  abbrev IsForward : Rule → Type 0
  IsForward r = (r.table ≡ filter_table) × (r.chain ≡ smuggle_forward_chain)

  apply_forward-add_missing :
      (l : List Rule) (s : I.State)
      → All IsForward l
      → (apply_forward I l s).0 ≡ ok tt
      → (rules (apply_forward I l s).1 filter_table smuggle_forward_chain
          ≡ add_missing (map (λ (r : Rule). r.spec) l) (rules s filter_table smuggle_forward_chain))
        × (rules (apply_forward I l s).1 filter_table forward_chain
            ≡ rules s filter_table forward_chain)
  apply_forward-add_missing [] s all done = unfold apply_forward in (refl, refl)
  apply_forward-add_missing (r ∷ rest) s ((table, chain), all) done =
      let (applied, later, last) = apply_forward-cons r rest s (rw chain) done in
      let (more, kept) = apply_forward-add_missing rest (apply_rule I r s).1 all later in
      let here : rules (apply_rule I r s).1 filter_table smuggle_forward_chain
          ≡ add_last r.spec (rules s filter_table smuggle_forward_chain) =
        ground (
          arith,
          rules-apply_rule I L r s filter_table smuggle_forward_chain applied,
          eq_iff r.table filter_table,
          eq_iff r.chain smuggle_forward_chain,
        ) in
      let there : rules (apply_rule I r s).1 filter_table forward_chain
          ≡ rules s filter_table forward_chain =
        ground (
          arith,
          rules-apply_rule I L r s filter_table forward_chain applied,
          chains_differ,
          eq_iff r.chain forward_chain,
        ) in
      (
        rw last (more ∙ ap (add_missing (map (λ (r : Rule). r.spec) rest)) here),
        rw last (kept ∙ there),
      )

  accept_rules-IsForward :
      (cidr bridge iface : String) → All IsForward (accept_rules cidr bridge iface)
  unfolding accept_rules
  accept_rules-IsForward cidr bridge iface = (
    (refl, refl),
    ((refl, refl), ((refl, refl), ((refl, refl), ((refl, refl), ((refl, refl), tt))))),
  )

  apply_forward-skip :
      (r : Rule) (rest : List Rule)
      → (r.chain == forward_chain) ≡ true
      → apply_forward I (r ∷ rest) ≡ apply_forward I rest
  unfolding apply_forward
  apply_forward-skip r rest skipped = rw skipped

  accept_rules_lem :
      (n : Network) (cidr : String) (s : I.State)
      → let all = forward_rules cidr (bridge_interface_name n) (interface_name n) in
        (apply_forward I all s).0 ≡ ok tt
        → (rules (apply_forward I all s).1 filter_table smuggle_forward_chain
            ≡ add_missing
                (accept_specs cidr (bridge_interface_name n) (interface_name n))
                (rules s filter_table smuggle_forward_chain))
          × (rules (apply_forward I all s).1 filter_table forward_chain
              ≡ rules s filter_table forward_chain)
  unfolding forward_rules
  accept_rules_lem n cidr s done =
      let rest = accept_rules cidr (bridge_interface_name n) (interface_name n) in
      let skip = apply_forward-skip jump_rule rest refl in
      let run =
        apply_forward-add_missing rest s
          (accept_rules-IsForward cidr (bridge_interface_name n) (interface_name n)) in
      rw skip (run (subst (λ m. (m s).0 ≡ ok tt) skip done))

  -- After a run that succeeds, the FORWARD chain begins with the jump, followed by the rules that
  -- it had, with at most the old jump taken out; and the SMUGGLE-FORWARD chain has every rule of
  -- the network, the missing ones added behind those that it had.
  pub setup_forward_cidr_lem :
      (n : Network) (cidr : String) (s : I.State)
      → (setup_forward_cidr I n cidr s).0 ≡ ok tt
      → let s' = (setup_forward_cidr I n cidr s).1 in
        (rest : Specs) × (rules s' filter_table forward_chain ≡ jump_spec ∷ rest)
        × ((rest ≡ rules s filter_table forward_chain)
            ⊎ (rest ≡ erase jump_spec (rules s filter_table forward_chain)))
        × (rules s' filter_table smuggle_forward_chain
            ≡ add_missing
                (accept_specs cidr (bridge_interface_name n) (interface_name n))
                (rules s filter_table smuggle_forward_chain))
  unfolding setup_forward_cidr
  setup_forward_cidr_lem n cidr s done =
      let chain = ensure_chain I filter_table smuggle_forward_chain in
      let accept =
        apply_forward I (forward_rules cidr (bridge_interface_name n) (interface_name n)) in
      let jump = ensure_jump_rule_first I filter_table forward_chain smuggle_forward_chain in
      let s1 = (chain s).1 in
      let s2 = (accept s1).1 in
      let first = >>=-ok (on_error _ chain) (λ _. accept >> on_error _ jump) s done in
      let second = >>=-ok accept (λ _. on_error _ jump) s1 first.2 in
      let jumped = on_error-ok _ jump s2 second.2 in
      let last = ap (λ r. r.1) (first.3 ∙ second.3) in
      let (added, kept) = accept_rules_lem n cidr s1 second.1 in
      let (rest, headed, tail) =
        rules-ensure_jump_rule_first I L filter_table forward_chain smuggle_forward_chain s2
          jumped in
      let old =
        kept
        ∙ rules-ensure_chain I L filter_table smuggle_forward_chain s filter_table forward_chain in
      (
        rest,
        rw last headed,
        subst (λ l. (rest ≡ l) ⊎ (rest ≡ erase jump_spec l)) old tail,
        rw last (
            rules-ensure_jump_rule_first_other I L filter_table forward_chain smuggle_forward_chain
              s2 filter_table smuggle_forward_chain refl
            ∙ added
            ∙ ap (add_missing (accept_specs cidr (bridge_interface_name n) (interface_name n))) (
                rules-ensure_chain I L filter_table smuggle_forward_chain s filter_table
                  smuggle_forward_chain)),
      )

  -- After a run of `SetupForwardRules` that succeeds, the FORWARD chain begins with the jump,
  -- followed by the rules that it had, with at most the old jump taken out; and the SMUGGLE-FORWARD
  -- chain is the old one with the missing rules of the network added at its end.
  pub setup_forward_rules_lem :
      (N : Net) (n : Network) (s : I.State)
      → (setup_forward_rules I N n s).0 ≡ ok tt
      → let s' = (setup_forward_rules I N n s).1 in
        (cidr : String) × (rest : Specs) × (network_cidr I N n ≡ ok cidr)
        × (rules s' filter_table forward_chain ≡ jump_spec ∷ rest)
        × ((rest ≡ rules s filter_table forward_chain)
            ⊎ (rest ≡ erase jump_spec (rules s filter_table forward_chain)))
        × (rules s' filter_table smuggle_forward_chain
            ≡ add_missing
                (accept_specs cidr (bridge_interface_name n) (interface_name n))
                (rules s filter_table smuggle_forward_chain))
  unfolding setup_forward_rules
  setup_forward_rules_lem N n s done =
      let (cidr, known, ran, whole) =
        >>=-ok (lift (network_cidr I N n)) (setup_forward_cidr I n) s done in
      let (rest, first, old, added) = setup_forward_cidr_lem n cidr s ran in
      let last = ap (λ r. r.1) whole in (cidr, rest, known, rw last first, old, rw last added)

module _ (I : IpTables) (L : IsLawful I) where
  open L use {rules}

  -- After a run that succeeds every rule of the network is in the SMUGGLE-FORWARD chain, and a second
  -- run that succeeds leaves that chain as it is.
  pub setup_forward_rules_twice :
      (N : Net) (n : Network) (s : I.State)
      → (setup_forward_rules I N n s).0 ≡ ok tt
      → (setup_forward_rules I N n (setup_forward_rules I N n s).1).0 ≡ ok tt
      → let s' = (setup_forward_rules I N n s).1 in
        (cidr : String) × (network_cidr I N n ≡ ok cidr)
        × All
            (λ x. contains (rules s' filter_table smuggle_forward_chain) x ≡ true)
            (accept_specs cidr (bridge_interface_name n) (interface_name n))
        × (rules (setup_forward_rules I N n s').1 filter_table smuggle_forward_chain
            ≡ rules s' filter_table smuggle_forward_chain)
  setup_forward_rules_twice N n s first second =
      let s' = (setup_forward_rules I N n s).1 in
      let a = setup_forward_rules_lem I L N n s first in
      let b = setup_forward_rules_lem I L N n s' second in
      let specs = accept_specs a.0 (bridge_interface_name n) (interface_name n) in
      let there =
        subst (λ l. All (λ x. contains l x ≡ true) specs) (sym a.5)
          (add_missing-All specs (rules s filter_table smuggle_forward_chain)) in
      let same : b.0 ≡ a.0 = cc (b.2, a.2) in
      (
        a.0,
        a.2,
        there,
        b.5
            ∙ rw same
                (add_missing_present specs (rules s' filter_table smuggle_forward_chain) there),
      )
