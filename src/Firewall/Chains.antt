-- ===== src/Firewall/Chains.antt =====
-- What each call of the manager does to the rules of every chain, when it succeeds.
use smuggle.Prelude.{◌≡◌, refl, String, Bool, true, false, List, [], ◌∷◌, ◌++◌, arith}
use smuggle.Prelude.{string_eq, list_eq, contains, if◌then◌else◌, inl, inr}
use text.Mathlib.TextEquality.{eq_iff}
use smuggle.Prelude.Error.{Result-cases, ok}
use smuggle.Prelude.{◌⊎◌}
use smuggle.Firewall.{
  Rule, comment, apply_rule, ensure_chain, ensure_isolation_rule, ensure_jump_rule_first, delete_if,
}
use smuggle.Firewall.Interface.{IpTables, IsLawful, Specs, insert_at, erase, same_chain}

-- A rule is added at the end, or behind the first one, unless it is there.
abbrev pub add_last : List String → Specs → Specs
add_last spec rules = if contains rules spec then rules else rules ++ (spec ∷ [])

abbrev pub add_second : List String → Specs → Specs
add_second spec rules = if contains rules spec then rules else insert_at 1 spec rules

module _ (I : IpTables) (L : IsLawful I) where
  open L use {rules}

  pub rules-ensure_chain :
      (t c : String) (s : I.State) (t' c' : String)
      → rules (ensure_chain I t c s).1 t' c' ≡ rules s t' c'
  unfolding ensure_chain
  rules-ensure_chain t c s t' c' =
      ground
        (arith, L.rules-list_chains t s t' c', L.rules-new_chain t c (I.list_chains t s).1 t' c')

  pub rules-apply_rule :
      (r : Rule) (s : I.State) (t' c' : String)
      → (apply_rule I r s).0 ≡ ok tt
      → rules (apply_rule I r s).1 t' c' ≡ (
          if same_chain r.table r.chain t' c'
          then add_last r.spec (rules s t' c')
          else rules s t' c')
  unfolding apply_rule
  rules-apply_rule r s t' c' done = elim (Result-cases (I.exists r.table r.chain r.spec s).0) [
    | inl (there, found) ↦ ground (
      arith,
      L.rules-exists r.table r.chain r.spec s t' c',
      L.exists_ok r.table r.chain r.spec s there found,
      L.rules-append r.table r.chain r.spec (I.exists r.table r.chain r.spec s).1 t' c',
      eq_iff r.table t',
      eq_iff r.chain c',
    )
    | inr (inl (e, failed)) ↦ absurd (ground arith)
    | inr (inr (p, failed)) ↦ absurd (ground arith)
  ]

  pub rules-ensure_isolation_rule :
      (r : Rule) (s : I.State) (t' c' : String)
      → (ensure_isolation_rule I r s).0 ≡ ok tt
      → rules (ensure_isolation_rule I r s).1 t' c' ≡ (
          if same_chain r.table r.chain t' c'
          then add_second r.spec (rules s t' c')
          else rules s t' c')
  unfolding ensure_isolation_rule
  rules-ensure_isolation_rule r s t' c' done =
      elim (Result-cases (I.exists r.table r.chain r.spec s).0) [
        | inl (there, found) ↦ ground (
          arith,
          L.rules-exists r.table r.chain r.spec s t' c',
          L.exists_ok r.table r.chain r.spec s there found,
          L.rules-insert r.table r.chain 2 r.spec (I.exists r.table r.chain r.spec s).1 t' c',
          eq_iff r.table t',
          eq_iff r.chain c',
        )
        | inr (inl (e, failed)) ↦ absurd (ground arith)
        | inr (inr (p, failed)) ↦ absurd (ground arith)
      ]

  rules-delete_if :
      (b : Bool) (t c : String) (spec : List String) (s : I.State) (t' c' : String)
      → (rules (delete_if I b t c spec s).1 t' c' ≡ rules s t' c')
        ⊎ ((same_chain t c t' c' ≡ true)
            × (rules (delete_if I b t c spec s).1 t' c' ≡ erase spec (rules s t' c')))
  unfolding delete_if
  rules-delete_if false t c spec s t' c' = inl refl
  rules-delete_if true t c spec s t' c' = ground (arith, L.rules-delete t c spec s t' c')

  delete_if_ok :
      (b : Bool) (t c : String) (spec : List String) (s : I.State)
      → (delete_if I b t c spec s).0 ≡ ok tt
  unfolding delete_if
  delete_if_ok false t c spec s = refl
  delete_if_ok true t c spec s = refl

  -- Success puts the jump first. The rest of the chain is as before, or has lost the jump.
  pub rules-ensure_jump_rule_first :
      (t c target : String) (s : I.State)
      → (ensure_jump_rule_first I t c target s).0 ≡ ok tt
      → let spec = comment "smuggle forward" ("-j" ∷ target ∷ []) in
        (rest : Specs) × (rules (ensure_jump_rule_first I t c target s).1 t c ≡ spec ∷ rest)
        × ((rest ≡ rules s t c) ⊎ (rest ≡ erase spec (rules s t c)))
  unfolding ensure_jump_rule_first
  rules-ensure_jump_rule_first t c target s done =
      let spec : List String = comment "smuggle forward" ("-j" ∷ target ∷ []) in
      elim (Result-cases (I.exists t c spec s).0) [
        | inl (there, found) ↦
            let s1 = (I.exists t c spec s).1 in
            let s2 = (delete_if I there t c spec s1).1 in
            (
              rules s2 t c,
              ground (
                arith,
                delete_if_ok there t c spec s1,
                L.rules-insert t c 1 spec s2 t c,
                eq_iff t t,
                eq_iff c c,
              ),
              ground (arith, rules-delete_if there t c spec s1 t c, L.rules-exists t c spec s t c),
            )
        | inr (inl (e, failed)) ↦ absurd (ground arith)
        | inr (inr (p, failed)) ↦ absurd (ground arith)
      ]

  pub rules-ensure_jump_rule_first_other :
      (t c target : String) (s : I.State) (t' c' : String)
      → same_chain t c t' c' ≡ false
      → rules (ensure_jump_rule_first I t c target s).1 t' c' ≡ rules s t' c'
  unfolding ensure_jump_rule_first
  rules-ensure_jump_rule_first_other t c target s t' c' other =
      let spec : List String = comment "smuggle forward" ("-j" ∷ target ∷ []) in
      let s1 = (I.exists t c spec s).1 in
      elim (Result-cases (I.exists t c spec s).0) [
        | inl (there, found) ↦ ground (
          arith,
          L.rules-exists t c spec s t' c',
          delete_if_ok there t c spec s1,
          rules-delete_if there t c spec s1 t' c',
          L.rules-insert t c 1 spec (delete_if I there t c spec s1).1 t' c',
        )
        | inr (inl (e, failed)) ↦ ground (arith, L.rules-exists t c spec s t' c')
        | inr (inr (p, failed)) ↦ ground (arith, L.rules-exists t c spec s t' c')
      ]
