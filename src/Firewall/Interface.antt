-- ===== src/Firewall/Interface.antt =====
-- The calls of package go-iptables that the firewall makes, and what it documents of them.
use smuggle.Prelude.{ℕ, zero, suc, ◌-◌, ◌≡◌, String, Bool, true, false, List, [], ◌∷◌, ◌++◌, ◌&&◌}
use smuggle.Prelude.{◌==◌, string_eq, list_eq, contains, if◌then◌else◌}
use smuggle.Prelude.Error.{Result, ok, err, panic}
use smuggle.Prelude.State.{St}

pub record IpTables : Type 1 where
  pub State : Type 0
  pub list_chains : String → St State (List String)
  pub new_chain : String → String → St State (Unit {0})
  pub exists : String → String → List String → St State Bool
  pub append : String → String → List String → St State (Unit {0})
  pub insert : String → String → ℕ → List String → St State (Unit {0})
  pub delete : String → String → List String → St State (Unit {0})
  pub has_random_fully : Bool

abbrev pub Specs : Type 0
Specs = List (List String)

-- A rule put in front of the rule at an index from 0.
abbrev pub insert_at : ℕ → List String → Specs → Specs
insert_at zero spec rules = spec ∷ rules
insert_at (suc i) spec [] = spec ∷ []
insert_at (suc i) spec (r ∷ rest) = r ∷ insert_at i spec rest

-- The first rule that equals the given one is taken out.
unfoldable pub erase : List String → Specs → Specs
erase spec [] = []
erase spec (r ∷ rest) = let later = erase spec rest in if spec == r then rest else r ∷ later

abbrev pub is_ok : {A : Type 0} → Result A → Bool
is_ok (ok a) = true
is_ok (err e) = false
is_ok (panic p) = false

abbrev pub same_chain : String → String → String → String → Bool
same_chain t c t' c' = t == t' && c == c'

-- `rules` gives the specifications of a chain in their order. A call that fails changes none, and
-- one that succeeds changes only the chain that it names. The positions of `insert` are from 1.
pub record IsLawful (I : IpTables) : Type 0 where
  pub rules : I.State → String → String → Specs
  pub rules-list_chains :
      (t : String) (s : I.State) (t' c' : String)
      → rules (I.list_chains t s).1 t' c' ≡ rules s t' c'
  pub rules-new_chain :
      (t c : String) (s : I.State) (t' c' : String)
      → rules (I.new_chain t c s).1 t' c' ≡ rules s t' c'
  pub rules-exists :
      (t c : String) (spec : List String) (s : I.State) (t' c' : String)
      → rules (I.exists t c spec s).1 t' c' ≡ rules s t' c'
  pub exists_ok :
      (t c : String) (spec : List String) (s : I.State) (b : Bool)
      → (I.exists t c spec s).0 ≡ ok b
      → b ≡ contains (rules s t c) spec
  pub rules-append :
      (t c : String) (spec : List String) (s : I.State) (t' c' : String)
      → rules (I.append t c spec s).1 t' c' ≡ (
          if is_ok (I.append t c spec s).0 && same_chain t c t' c'
          then rules s t' c' ++ (spec ∷ [])
          else rules s t' c')
  pub rules-insert :
      (t c : String) (pos : ℕ) (spec : List String) (s : I.State) (t' c' : String)
      → rules (I.insert t c pos spec s).1 t' c' ≡ (
          if is_ok (I.insert t c pos spec s).0 && same_chain t c t' c'
          then insert_at (pos - 1) spec (rules s t' c')
          else rules s t' c')
  pub rules-delete :
      (t c : String) (spec : List String) (s : I.State) (t' c' : String)
      → rules (I.delete t c spec s).1 t' c' ≡ (
          if is_ok (I.delete t c spec s).0 && same_chain t c t' c'
          then erase spec (rules s t' c')
          else rules s t' c')
