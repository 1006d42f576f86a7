-- ===== src/Reaper/Pass.antt =====
-- What one pass of the reaper makes of each stored subnet.
use smuggle.Prelude.{
  ◌&&◌, String, true, ◌≡◌, ◌⊎◌, inl, inr, Option, none, some, List, [], ◌∷◌, arith, All, ◌∙◌, sym,
}
use smuggle.Prelude.{if◌then◌else◌, string_eq, Bool-cases}
use smuggle.Prelude.Error.{Result-cases}
use smuggle.Prelude.Int.{ℤ, ltb_ℤ, ◌+ℤ◌}
use smuggle.Network.{Network}
use smuggle.Subnet.{Subnet}
use smuggle.Store.{Store, IsLawful}
use smuggle.Reaper.{reap_subnet, reap_all, reap_listed, run_subnet_reap}

module _ {IP : Type 0} (S : Store IP) (threshold now : ℤ) where
  -- The rule: what becomes of a subnet that a pass reaches.
  abbrev pub reaped : Subnet IP → Option (Subnet IP)
  reaped x =
      if x.expired && ltb_ℤ (x.expiration +ℤ threshold) now
      then none
      else if ltb_ℤ x.expiration now
      then some (record x { expired = true })
      else some x

  abbrev pub reaped_entry : Option (Subnet IP) → Option (Subnet IP)
  reaped_entry none = none
  reaped_entry (some x) = reaped x

  module _ (L : IsLawful S) where
    open L use {subnet, same_key}

    abbrev Passed : S.State → S.State → String → String → Type 0
    Passed s s' n i = (subnet s' n i ≡ subnet s n i) ⊎ (subnet s' n i ≡ reaped_entry (subnet s n i))

    stored_at :
        (x : Subnet IP) (s : S.State) (n i : String)
        → subnet s x.network_name x.client_id ≡ some x
        → same_key x.network_name x.client_id n i ≡ true
        → subnet s n i ≡ some x
    stored_at x s n i stored key =
        sym (L.same_key_subnet x.network_name x.client_id n i s key) ∙ stored

    -- A subnet that is stored under its key is left alone or treated by the rule; other keys stay.
    reap_subnet-Passed :
        (x : Subnet IP) (s0 s : S.State) (n i : String)
        → subnet s0 x.network_name x.client_id ≡ some x
        → Passed s0 s n i
        → Passed s0 (reap_subnet S threshold now x s) n i
    unfolding reap_subnet
    reap_subnet-Passed x s0 s n i stored before =
        elim (Bool-cases (same_key x.network_name x.client_id n i)) [
          | inl key ↦ ground (
            arith,
            stored_at x s0 n i stored key,
            L.back_stored x s0 x.network_name x.client_id true stored,
            L.subnet-delete x.network_name x.client_id s n i,
            L.subnet-set (record x { expired = true }) s n i,
          )
          | inr other ↦ ground (
            arith,
            L.subnet-delete x.network_name x.client_id s n i,
            L.subnet-set (record x { expired = true }) s n i,
          )
        ]

    reap_all-Passed :
        (l : List (Subnet IP)) (s0 s : S.State) (n i : String)
        → All (λ x. subnet s0 x.network_name x.client_id ≡ some x) l
        → Passed s0 s n i
        → Passed s0 (reap_all S threshold now l s) n i
    unfolding reap_all
    reap_all-Passed [] s0 s n i stored before = before
    reap_all-Passed (x ∷ rest) s0 s n i (here, stored) before =
        reap_all-Passed rest s0 (reap_subnet S threshold now x s) n i stored
          (reap_subnet-Passed x s0 s n i here before)

    -- One pass over a network leaves every entry of the store as it was, or makes of it what the
    -- rule says: a subnet that is not marked is never deleted, and one that has not expired is
    -- neither marked nor deleted unless it was marked before.
    pub run_subnet_reap_lem :
        (net : Network) (s : S.State) (n i : String)
        → (subnet (run_subnet_reap S threshold now net s) n i ≡ subnet s n i)
          ⊎ (subnet (run_subnet_reap S threshold now net s) n i ≡ reaped_entry (subnet s n i))
    unfolding run_subnet_reap reap_listed
    run_subnet_reap_lem net s n i = elim (Result-cases (S.list_subnets net.name s).0) [
      | inl (l, listed) ↦ rw listed (
          reap_all-Passed l s (S.list_subnets net.name s).1 n i (L.list_ok net.name s l listed)
            (inl (L.subnet-list net.name s n i)))
      | inr (inl (e, failed)) ↦ rw failed (inl (L.subnet-list net.name s n i))
      | inr (inr (p, failed)) ↦ rw failed (inl (L.subnet-list net.name s n i))
    ]
