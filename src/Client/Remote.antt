-- ===== src/Client/Remote.antt =====
-- internal/agent/client/subnet.go: the client's reaction to the subnets that the watch reports.
-- `set_remote` and `delete_remote` are those of the network provider, behind its manager.
use smuggle.Prelude.{String, List, [], ◌∷◌, ◌≡◌, refl, Bool-cases, inl, inr}
use smuggle.Prelude.{if◌then◌else◌, ◌==◌, string_eq}
use smuggle.Prelude.State.{St}
use smuggle.Subnet.{Subnet}

-- An error of the call is only logged, so a step returns the state alone.
module _ {IP State : Type 0} (id : String) where
  module _ (set_remote : Subnet IP → St State (Unit {0})) where
    unfoldable pub handle_subnet_set : List (Subnet IP) → State → State
    handle_subnet_set [] s = s
    handle_subnet_set (x ∷ rest) s =
        if x.client_id == id
        then handle_subnet_set rest s
        else handle_subnet_set rest (set_remote x s).1

  module _ (delete_remote : Subnet IP → St State (Unit {0})) where
    unfoldable pub handle_subnet_delete : List (Subnet IP) → State → State
    handle_subnet_delete [] s = s
    handle_subnet_delete (x ∷ rest) s =
        if x.client_id == id
        then handle_subnet_delete rest s
        else handle_subnet_delete rest (delete_remote x s).1

-- The subnets of the other clients, in their order.
abbrev pub others : {IP : Type 0} → String → List (Subnet IP) → List (Subnet IP)
others id [] = []
others id (x ∷ rest) = let later = others id rest in if x.client_id == id then later else x ∷ later

-- A call for each, one after the other, whatever their results.
abbrev pub run_each : {A State : Type 0} → (A → St State (Unit {0})) → List A → State → State
run_each f [] s = s
run_each f (x ∷ rest) s = run_each f rest (f x s).1

-- The subnets that are set.
handle_subnet_set_lem :
    {IP State : Type 0} (id : String) (f : Subnet IP → St State (Unit {0})) (l : List (Subnet IP))
    (s : State)
    → handle_subnet_set id f l s ≡ run_each f (others id l) s
unfolding handle_subnet_set
handle_subnet_set_lem id f [] s = refl
handle_subnet_set_lem id f (x ∷ rest) s = elim (Bool-cases (x.client_id == id)) [
  | inl own ↦ rw own (handle_subnet_set_lem id f rest s)
  | inr other ↦ rw other (handle_subnet_set_lem id f rest (f x s).1)
]

-- The subnets that are deleted.
handle_subnet_delete_lem :
    {IP State : Type 0} (id : String) (f : Subnet IP → St State (Unit {0})) (l : List (Subnet IP))
    (s : State)
    → handle_subnet_delete id f l s ≡ run_each f (others id l) s
unfolding handle_subnet_delete
handle_subnet_delete_lem id f [] s = refl
handle_subnet_delete_lem id f (x ∷ rest) s = elim (Bool-cases (x.client_id == id)) [
  | inl own ↦ rw own (handle_subnet_delete_lem id f rest s)
  | inr other ↦ rw other (handle_subnet_delete_lem id f rest (f x s).1)
]

-- Both handlers call the provider once for each subnet of another client, in the order of the
-- report, never for one of the client's own, and go on after an error.
pub handle_subnet_report_lem :
    {IP State : Type 0} (id : String) (set delete : Subnet IP → St State (Unit {0}))
    (l : List (Subnet IP)) (s : State)
    → (handle_subnet_set id set l s ≡ run_each set (others id l) s)
      × (handle_subnet_delete id delete l s ≡ run_each delete (others id l) s)
handle_subnet_report_lem id set delete l s =
    (handle_subnet_set_lem id set l s, handle_subnet_delete_lem id delete l s)
