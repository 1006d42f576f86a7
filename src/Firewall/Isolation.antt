-- ===== src/Firewall/Isolation.antt =====
-- `EnsureIsolation`: where the REJECT rules stand, and which traffic they meet.
use text.Mathlib.TextLemmas.{append_assoc as text_append_assoc}
use text.Mathlib.TextEquality.{eq_iff}
use smuggle.Prelude.{
  ◌≡◌, ◌≢◌, refl, String, ◌<>◌, Bool, true, false, List, [], ◌∷◌, ◌++◌, arith, ◌∙◌, ap, ltb, length,
  ◌≤◌,
}
use smuggle.Prelude.{
  ◌==◌, ==_ne, string_eq, list_eq, contains, Bool-cases, inl, inr, map, All, In, sym,
}
use smuggle.Prelude.Error.{ok}
use smuggle.Prelude.State.{>>=-ok, on_error-ok, on_error}
use smuggle.Network.{Network, bridge_interface_name, interface_name}
use smuggle.Firewall.{
  Rule, ensure_all, ensure_isolation, ensure_isolation_rule, ensure_chain, isolate_from,
  isolate_each, isolation_rules, isolation_rule, filter_table, smuggle_forward_chain,
}
use smuggle.Firewall.Interface.{IpTables, IsLawful, Specs}
use smuggle.Firewall.Chains.{add_second, rules-ensure_isolation_rule, rules-ensure_chain}
use smuggle.Firewall.Behind.{add_behind_first, add_behind_first_lem, add_behind_first-In}

abbrev pub specs_of : List Rule → Specs
specs_of = map (λ (r : Rule). r.spec)

-- Two networks of the list with different names have their rule.
isolate_from-In :
    (source : String) (b : Network) (all : List Network)
    → In b all
    → source ≢ b.name
    → In (isolation_rule source b.name) (isolate_from source all)
unfolding isolate_from
isolate_from-In source b [] m differ = absurd m
isolate_from-In source b (d ∷ rest) (inl e) differ =
    rw (← e) (rw (==_ne source b.name differ) (inl refl))
isolate_from-In source b (d ∷ rest) (inr m) differ = elim (Bool-cases (source == d.name)) [
  | inl same ↦ rw same (isolate_from-In source b rest m differ)
  | inr other ↦ rw other (inr (isolate_from-In source b rest m differ))
]

In-append_left : {A : Type 0} (x : A) (l r : List A) → In x l → In x (l ++ r)
In-append_left x [] r m = absurd m
In-append_left x (y ∷ l) r (inl e) = inl e
In-append_left x (y ∷ l) r (inr m) = inr (In-append_left x l r m)

In-append_right : {A : Type 0} (x : A) (l r : List A) → In x r → In x (l ++ r)
In-append_right x [] r m = m
In-append_right x (y ∷ l) r m = inr (In-append_right x l r m)

isolate_each-In :
    (a b : Network) (sources all : List Network)
    → In a sources
    → In b all
    → a.name ≢ b.name
    → In (isolation_rule a.name b.name) (isolate_each sources all)
unfolding isolate_each
isolate_each-In a b [] all ma mb differ = absurd ma
isolate_each-In a b (x ∷ rest) all (inl e) mb differ =
    rw (← e) (In-append_left _ (isolate_from a.name all) _ (isolate_from-In a.name b all mb differ))
isolate_each-In a b (x ∷ rest) all (inr ma) mb differ =
    In-append_right _ (isolate_from x.name all) _ (isolate_each-In a b rest all ma mb differ)

isolation_rules-In :
    (a b : Network) (networks : List Network)
    → In a networks
    → In b networks
    → a.name ≢ b.name
    → In (isolation_rule a.name b.name) (isolation_rules networks)
unfolding isolation_rules
isolation_rules-In a b networks ma mb differ = isolate_each-In a b networks networks ma mb differ

In-map : (r : Rule) (l : List Rule) → In r l → In r.spec (specs_of l)
In-map r [] m = absurd m
In-map r (x ∷ l) (inl e) = inl (ap (λ (t : Rule). t.spec) e)
In-map r (x ∷ l) (inr m) = inr (In-map r l m)

module _ (I : IpTables) (L : IsLawful I) where
  open L use {rules}

  abbrev IsIsolating : Rule → Type 0
  IsIsolating r = (r.table ≡ filter_table) × (r.chain ≡ smuggle_forward_chain)

  ensure_all-add_behind_first :
      (l : List Rule) (s : I.State)
      → All IsIsolating l
      → (ensure_all I l s).0 ≡ ok tt
      → rules (ensure_all I l s).1 filter_table smuggle_forward_chain
        ≡ add_behind_first (specs_of l) (rules s filter_table smuggle_forward_chain)
  unfolding ensure_all
  ensure_all-add_behind_first [] s all done = refl
  ensure_all-add_behind_first (r ∷ rest) s ((table, chain), all) done =
      let one = ensure_isolation_rule I r in
      let step = >>=-ok (on_error _ one) (λ _. ensure_all I rest) s done in
      let applied = on_error-ok _ one s step.1 in
      let here : rules (one s).1 filter_table smuggle_forward_chain
          ≡ add_second r.spec (rules s filter_table smuggle_forward_chain) =
        ground (
          arith,
          rules-ensure_isolation_rule I L r s filter_table smuggle_forward_chain applied,
          eq_iff r.table filter_table,
          eq_iff r.chain smuggle_forward_chain,
        ) in
      let later = ensure_all-add_behind_first rest (one s).1 all step.2 in
      ap (λ r. rules r.1 filter_table smuggle_forward_chain) step.3
      ∙ later
      ∙ ap (add_behind_first (specs_of rest)) here

  isolate_from-IsIsolating :
      (source : String) (all : List Network) → All IsIsolating (isolate_from source all)
  unfolding isolate_from isolation_rule
  isolate_from-IsIsolating source [] = tt
  isolate_from-IsIsolating source (d ∷ rest) = elim (Bool-cases (source == d.name)) [
    | inl same ↦ rw same (isolate_from-IsIsolating source rest)
    | inr other ↦ rw other ((refl, refl), isolate_from-IsIsolating source rest)
  ]

  All-append : (l r : List Rule) → All IsIsolating l → All IsIsolating r → All IsIsolating (l ++ r)
  All-append [] r h k = k
  All-append (x ∷ l) r (here, h) k = (here, All-append l r h k)

  isolate_each-IsIsolating :
      (sources all : List Network) → All IsIsolating (isolate_each sources all)
  unfolding isolate_each
  isolate_each-IsIsolating [] all = tt
  isolate_each-IsIsolating (x ∷ rest) all =
      All-append (isolate_from x.name all) _ (isolate_from-IsIsolating x.name all)
        (isolate_each-IsIsolating rest all)

  isolation_rules_run :
      (networks : List Network) (s : I.State)
      → 2 ≤ length networks
      → (ensure_isolation I networks s).0 ≡ ok tt
      → rules (ensure_isolation I networks s).1 filter_table smuggle_forward_chain
        ≡ add_behind_first
            (specs_of (isolation_rules networks))
            (rules s filter_table smuggle_forward_chain)
  unfolding ensure_isolation isolation_rules
  isolation_rules_run networks s many done =
      let chain = ensure_chain I filter_table smuggle_forward_chain in
      let all = isolate_each networks networks in
      let enough : ltb (length networks) 2 ≡ false = ground arith in
      let step = >>=-ok (on_error _ chain) (λ _. ensure_all I all) s (rw enough at done) in
      rw enough (
        ap (λ r. rules r.1 filter_table smuggle_forward_chain) step.3
        ∙ ensure_all-add_behind_first all (chain s).1 (isolate_each-IsIsolating networks networks)
            step.2
        ∙ ap (add_behind_first (specs_of all)) (
            rules-ensure_chain I L filter_table smuggle_forward_chain s filter_table
              smuggle_forward_chain))

  -- For two or more networks, what a run that succeeds adds to a chain that is not empty are rules
  -- of the isolation. They stand behind the first rule of the chain and before all that the chain
  -- had behind that rule, which stays in its order.
  pub ensure_isolation_lem :
      (networks : List Network) (s : I.State) (first : List String) (rest : Specs)
      → 2 ≤ length networks
      → rules s filter_table smuggle_forward_chain ≡ first ∷ rest
      → (ensure_isolation I networks s).0 ≡ ok tt
      → let after = rules (ensure_isolation I networks s).1 filter_table smuggle_forward_chain in
        (fresh : Specs) × (after ≡ first ∷ (fresh ++ rest))
        × All (λ x. In x (specs_of (isolation_rules networks))) fresh
  ensure_isolation_lem networks s first rest many had done =
      let specs = specs_of (isolation_rules networks) in
      let ran = isolation_rules_run networks s many done in
      let (fresh, at, from) = add_behind_first_lem specs first rest in
      (fresh, ran ∙ ap (add_behind_first specs) had ∙ at, from)

  -- After a run that succeeds on a list of two or more networks, the chain has a REJECT rule for
  -- any two networks of the list with different names, in each direction.
  pub ensure_isolation_rejects :
      (networks : List Network) (s : I.State) (a b : Network)
      → 2 ≤ length networks
      → (ensure_isolation I networks s).0 ≡ ok tt
      → In a networks
      → In b networks
      → a.name ≢ b.name
      → let after = rules (ensure_isolation I networks s).1 filter_table smuggle_forward_chain in
        (contains after (isolation_rule a.name b.name).spec ≡ true)
        × (contains after (isolation_rule b.name a.name).spec ≡ true)
  ensure_isolation_rejects networks s a b many done ma mb differ =
      let ran = isolation_rules_run networks s many done in
      let chain = rules s filter_table smuggle_forward_chain in
      let specs = specs_of (isolation_rules networks) in
      let forth = isolation_rules-In a b networks ma mb differ in
      let back = isolation_rules-In b a networks mb ma (λ e. differ (sym e)) in
      (
        rw ran (add_behind_first-In specs chain _ (In-map _ _ forth)),
        rw ran (add_behind_first-In specs chain _ (In-map _ _ back)),
      )

-- `-i name+` and `-o name+` of iptables: every interface whose name begins with the name.
abbrev pub IsPrefixMatch : (String → String → Bool) → Type 0
IsPrefixMatch matches = (name rest : String) → matches (name <> "+") (name <> rest) ≡ true

-- Where the name of one network begins with the name of another, the rule that rejects what goes
-- from the shorter name's network to the longer one's matches the traffic of the longer one's own
-- bridge to its own overlay interface, and that rule is among those of the isolation.
pub isolation_rules_block_own :
    (matches : String → String → Bool) (a b : Network) (tail : String) (networks : List Network)
    → IsPrefixMatch matches
    → In a networks
    → In b networks
    → b.name ≡ a.name <> tail
    → a.name ≢ b.name
    → (text : String) × In (isolation_rule a.name b.name) (isolation_rules networks)
      × ((isolation_rule a.name b.name).spec
          ≡ "-i"
            ∷ (a.name <> "+")
            ∷ "-o"
            ∷ (b.name <> "+")
            ∷ "-m"
            ∷ "comment"
            ∷ "--comment"
            ∷ text
            ∷ "-j"
            ∷ "REJECT"
            ∷ "--reject-with"
            ∷ "icmp-net-prohibited"
            ∷ [])
      × (matches (a.name <> "+") (bridge_interface_name b) ≡ true)
      × (matches (b.name <> "+") (interface_name b) ≡ true)
unfolding isolation_rule bridge_interface_name interface_name
isolation_rules_block_own matches a b tail networks law ma mb longer differ = (
  "smuggle isolate " <> a.name <> " from " <> b.name,
  isolation_rules-In a b networks ma mb differ,
  refl,
  rw longer (rw text_append_assoc (law a.name (tail <> "brd0"))),
  law b.name "0",
)
