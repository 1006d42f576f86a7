-- ===== src/Store.antt =====
-- internal/types/store.go: the interface that the agent uses for networks and subnets.
use smuggle.Prelude.{String, Bool, true, ◌≡◌, Option, none, some, List, ◌&&◌, All}
use smuggle.Prelude.{if◌then◌else◌}
use smuggle.Prelude.Error.{ok}
use smuggle.Prelude.State.{St}
use smuggle.Network.{Network}
use smuggle.Subnet.{Subnet}
use smuggle.Firewall.Interface.{is_ok}

-- The interface `Store`, less the watch, which is a stream of its own. A subnet is stored under the
-- name of its network and the id of its client.
pub record Store (IP : Type 0) : Type 1 where
  pub State : Type 0
  pub list_networks : St State (List Network)
  pub list_subnets : String → St State (List (Subnet IP))
  pub delete_subnet : String → String → St State (Unit {0})
  pub get_subnet : String → String → St State (Option (Subnet IP))
  pub set_subnet : Subnet IP → St State (Unit {0})

-- `subnet` is what the store holds under a network and an id, and `same_key` tells which names
-- stand for one entry. A call that fails changes nothing. `back` is what a set of a subnet leaves to
-- read, which need not be that subnet, or nothing that can be read. What is read is written and read
-- as it is, with either mark.
pub record IsLawful {IP : Type 0} (S : Store IP) : Type 0 where
  pub subnet : S.State → String → String → Option (Subnet IP)
  pub back : Subnet IP → Option (Subnet IP)
  pub back_stored :
      (x : Subnet IP) (s : S.State) (n i : String) (b : Bool)
      → subnet s n i ≡ some x
      → back (record x { expired = b }) ≡ some (record x { expired = b })
  pub same_key : String → String → String → String → Bool
  pub same_key_refl : (n i : String) → same_key n i n i ≡ true
  pub same_key_subnet :
      (n i n' i' : String) (s : S.State) → same_key n i n' i' ≡ true → subnet s n i ≡ subnet s n' i'
  pub subnet-set :
      (x : Subnet IP) (s : S.State) (n i : String)
      → subnet (S.set_subnet x s).1 n i ≡ (
          if is_ok (S.set_subnet x s).0 && same_key x.network_name x.client_id n i
          then back x
          else subnet s n i)
  pub subnet-delete :
      (network id : String) (s : S.State) (n i : String)
      → subnet (S.delete_subnet network id s).1 n i ≡ (
          if is_ok (S.delete_subnet network id s).0 && same_key network id n i
          then none
          else subnet s n i)
  pub subnet-list :
      (network : String) (s : S.State) (n i : String)
      → subnet (S.list_subnets network s).1 n i ≡ subnet s n i
  pub subnet-list_networks :
      (s : S.State) (n i : String) → subnet (S.list_networks s).1 n i ≡ subnet s n i
  pub subnet-get :
      (network id : String) (s : S.State) (n i : String)
      → subnet (S.get_subnet network id s).1 n i ≡ subnet s n i
  pub get_ok :
      (network id : String) (s : S.State) (o : Option (Subnet IP))
      → (S.get_subnet network id s).0 ≡ ok o
      → o ≡ subnet s network id
  pub list_ok :
      (network : String) (s : S.State) (l : List (Subnet IP))
      → (S.list_subnets network s).0 ≡ ok l
      → All (λ x. subnet s x.network_name x.client_id ≡ some x) l
