-- ===== src/Reaper.antt =====
-- internal/agent/server/reaper.go: the server marks subnets as expired, and deletes those that have
-- been so for a while. Errors of the store are only logged, so a step returns the state alone.
pub mod Pass
pub mod Complete
pub mod Loop
use smuggle.Prelude.{String, Bool, true, ◌&&◌, List, [], ◌∷◌, if◌then◌else◌}
use smuggle.Prelude.Error.{Result, ok, err, panic}
use smuggle.Prelude.Int.{ℤ, ltb_ℤ, ◌+ℤ◌}
use smuggle.Network.{Network}
use smuggle.Subnet.{Subnet}
use smuggle.Store.{Store}

module _ {IP : Type 0} (S : Store IP) where
  open S use {State, list_networks, list_subnets, delete_subnet, set_subnet}

  unfoldable pub handle_subnet_expired : Subnet IP → State → State
  handle_subnet_expired x s = (delete_subnet x.network_name x.client_id s).1

  unfoldable pub handle_subnet_expiration : Subnet IP → State → State
  handle_subnet_expiration x s = (set_subnet (record x { expired = true }) s).1

  module _ (threshold now : ℤ) where
    -- `Expired && Expiration.Add(Threshold).Before(now)`
    abbrev pub is_reapable : Subnet IP → Bool
    is_reapable x = x.expired && ltb_ℤ (x.expiration +ℤ threshold) now

    unfoldable pub reap_subnet : Subnet IP → State → State
    unfolding handle_subnet_expired handle_subnet_expiration
    reap_subnet x s =
        if is_reapable x
        then handle_subnet_expired x s
        else if ltb_ℤ x.expiration now
        then handle_subnet_expiration x s
        else s

    unfoldable pub reap_all : List (Subnet IP) → State → State
    reap_all [] s = s
    reap_all (x ∷ rest) s = reap_all rest (reap_subnet x s)

    unfoldable pub reap_listed : Result (List (Subnet IP)) → State → State
    reap_listed (ok l) s = reap_all l s
    reap_listed (err e) s = s
    reap_listed (panic p) s = s

    unfoldable pub run_subnet_reap : Network → State → State
    run_subnet_reap n s = let (r, t) = list_subnets n.name s in reap_listed r t

  -- The time is read anew for each network.
  module _ (threshold : ℤ) (now : Network → ℤ) where
    unfoldable pub reap_networks : List Network → State → State
    reap_networks [] s = s
    reap_networks (n ∷ rest) s = reap_networks rest (run_subnet_reap threshold (now n) n s)

    unfoldable pub reap_result : Result (List Network) → State → State
    reap_result (ok l) s = reap_networks l s
    reap_result (err e) s = s
    reap_result (panic p) s = s

    unfoldable pub network_reaper : State → State
    network_reaper s = let (r, t) = list_networks s in reap_result r t
