-- ===== src/Firewall/Missing.antt =====
-- The missing rules added at the end of a chain, as an operation on the chain alone.
use smuggle.Prelude.{◌≡◌, refl, String, true, List, [], ◌∷◌, ◌++◌, arith}
use smuggle.Prelude.{==_refl, string_eq, list_eq, contains, All}
use smuggle.Firewall.Interface.{Specs}
use smuggle.Firewall.Chains.{add_last}

-- Every rule that is not there yet, added at the end in order.
abbrev pub add_missing : Specs → Specs → Specs
add_missing [] rules = rules
add_missing (spec ∷ specs) rules = add_missing specs (add_last spec rules)

contains-append_left :
    (l : Specs) (r x : List String) → contains l x ≡ true → contains (l ++ (r ∷ [])) x ≡ true
contains-append_left [] r x h = cc
contains-append_left (y ∷ l) r x h = ground (arith, contains-append_left l r x)

contains-append_last : (l : Specs) (x : List String) → contains (l ++ (x ∷ [])) x ≡ true
contains-append_last [] x = rw (==_refl x)
contains-append_last (y ∷ l) x = ground (arith, contains-append_last l x)

contains-add_last :
    (r x : List String) (l : Specs) → contains l x ≡ true → contains (add_last r l) x ≡ true
contains-add_last r x l h = ground (arith, contains-append_left l r x)

contains-add_missing :
    (specs l : Specs) (x : List String)
    → contains l x ≡ true
    → contains (add_missing specs l) x ≡ true
contains-add_missing [] l x h = h
contains-add_missing (r ∷ specs) l x h =
    contains-add_missing specs (add_last r l) x (contains-add_last r x l h)

add_last_self : (r : List String) (l : Specs) → contains (add_last r l) r ≡ true
add_last_self r l = ground (arith, contains-append_last l r)

-- Every specification of the list is in the chain afterwards.
pub add_missing-All : (specs l : Specs) → All (λ x. contains (add_missing specs l) x ≡ true) specs
add_missing-All [] l = tt
add_missing-All (r ∷ specs) l = (
  contains-add_missing specs (add_last r l) r (add_last_self r l),
  add_missing-All specs (add_last r l),
)

-- A chain that has every specification stays as it is.
pub add_missing_present :
    (specs l : Specs) → All (λ x. contains l x ≡ true) specs → add_missing specs l ≡ l
add_missing_present [] l all = refl
add_missing_present (r ∷ specs) l (there, all) = rw there (add_missing_present specs l all)
