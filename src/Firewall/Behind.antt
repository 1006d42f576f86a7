-- ===== src/Firewall/Behind.antt =====
-- Rules put in behind the first one of a chain, as an operation on the chain alone.
use mathlib.Core.List.{append_assoc}
use smuggle.Prelude.{◌≡◌, refl, String, true, List, [], ◌∷◌, ◌++◌, arith}
use smuggle.Prelude.{==_refl, string_eq, list_eq, contains, Bool-cases, inl, inr, All, In}
use smuggle.Firewall.Interface.{Specs, insert_at}
use smuggle.Firewall.Chains.{add_second}

-- Every rule that is not there yet, put in behind the first rule, one after the other.
abbrev pub add_behind_first : Specs → Specs → Specs
add_behind_first [] rules = rules
add_behind_first (spec ∷ specs) rules = add_behind_first specs (add_second spec rules)

All-weaken :
    (r : List String) (specs l : Specs) → All (λ x. In x specs) l → All (λ x. In x (r ∷ specs)) l
All-weaken r specs [] h = tt
All-weaken r specs (x ∷ l) (here, rest) = (inr here, All-weaken r specs l rest)

All-append_one :
    (specs l : Specs) (x : List String)
    → All (λ y. In y specs) l
    → In x specs
    → All (λ y. In y specs) (l ++ (x ∷ []))
All-append_one specs [] x h m = (m, tt)
All-append_one specs (y ∷ l) x (here, rest) m = (here, All-append_one specs l x rest m)

-- The rules that are put in stand between the first rule of the chain and all that it had behind.
pub add_behind_first_lem :
    (specs : Specs) (first : List String) (rest : Specs)
    → (fresh : Specs) × (add_behind_first specs (first ∷ rest) ≡ first ∷ (fresh ++ rest))
      × All (λ x. In x specs) fresh
add_behind_first_lem [] first rest = ([], refl, tt)
add_behind_first_lem (r ∷ specs) first rest = elim (Bool-cases (contains (first ∷ rest) r)) [
  | inl there ↦
      let (fresh, at, from) = add_behind_first_lem specs first rest in
      (fresh, rw there at, All-weaken r specs fresh from)
  | inr absent ↦
      let (fresh, at, from) = add_behind_first_lem specs first (r ∷ rest) in
      (
        fresh ++ (r ∷ []),
        rw (absent, append_assoc) at,
        All-append_one (r ∷ specs) fresh r (All-weaken r specs fresh from) (inl refl),
      )
]

contains-insert_one :
    (l : Specs) (r x : List String) → contains l x ≡ true → contains (insert_at 1 r l) x ≡ true
contains-insert_one [] r x h = cc
contains-insert_one (y ∷ l) r x h = ground arith

contains-add_second :
    (r x : List String) (l : Specs) → contains l x ≡ true → contains (add_second r l) x ≡ true
contains-add_second r x l h = ground (arith, contains-insert_one l r x)

inserted_self : (r : List String) (l : Specs) → contains (insert_at 1 r l) r ≡ true
inserted_self r [] = ground (arith, ==_refl r)
inserted_self r (y ∷ l) = ground (arith, ==_refl r)

add_second_self : (r : List String) (l : Specs) → contains (add_second r l) r ≡ true
add_second_self r l = ground (arith, inserted_self r l)

contains-add_behind_first :
    (specs l : Specs) (x : List String)
    → contains l x ≡ true
    → contains (add_behind_first specs l) x ≡ true
contains-add_behind_first [] l x h = h
contains-add_behind_first (r ∷ specs) l x h =
    contains-add_behind_first specs (add_second r l) x (contains-add_second r x l h)

pub add_behind_first-In :
    (specs l : Specs) (x : List String) → In x specs → contains (add_behind_first specs l) x ≡ true
add_behind_first-In [] l x m = absurd m
add_behind_first-In (r ∷ specs) l x (inl e) =
    rw e (contains-add_behind_first specs (add_second r l) r (add_second_self r l))
add_behind_first-In (r ∷ specs) l x (inr m) = add_behind_first-In specs (add_second r l) x m
