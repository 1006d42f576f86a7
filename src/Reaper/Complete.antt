-- ===== src/Reaper/Complete.antt =====
-- What one pass of the reaper makes of the subnets that it lists, while the store's writes succeed.
use smuggle.Prelude.{
  String, true, false, ◌≡◌, ◌⊎◌, inl, inr, Option, some, List, [], ◌∷◌, arith, All, ◌∙◌, sym,
}
use smuggle.Prelude.{string_eq, Bool-cases, In}
use smuggle.Prelude.Error.{ok}
use smuggle.Prelude.Int.{ℤ}
use smuggle.Network.{Network}
use smuggle.Subnet.{Subnet}
use smuggle.Store.{Store, IsLawful}
use smuggle.Firewall.Interface.{is_ok}
use smuggle.Reaper.{reap_subnet, reap_all, reap_listed, run_subnet_reap}
use smuggle.Reaper.Pass.{reaped}

module _ {IP : Type 0} (S : Store IP) (L : IsLawful S)
    (set_ok : (x : Subnet IP) (t : S.State) → is_ok (S.set_subnet x t).0 ≡ true)
    (delete_ok : (n i : String) (t : S.State) → is_ok (S.delete_subnet n i t).0 ≡ true)
    (threshold now : ℤ) where
  open L use {subnet, same_key}

  abbrev at_key : S.State → Subnet IP → Option (Subnet IP)
  at_key t x = subnet t x.network_name x.client_id

  abbrev IsStored : S.State → Subnet IP → Type 0
  IsStored t x = at_key t x ≡ some x

  abbrev IsReaped : S.State → Subnet IP → Type 0
  IsReaped t x = at_key t x ≡ reaped S threshold now x

  reap_own :
      (s t : S.State) (x : Subnet IP)
      → IsStored s x
      → IsStored t x ⊎ IsReaped t x
      → IsReaped (reap_subnet S threshold now x t) x
  unfolding reap_subnet
  reap_own s t x hx h = ground (
    arith,
    L.back_stored x s x.network_name x.client_id true hx,
    L.subnet-delete x.network_name x.client_id t x.network_name x.client_id,
    L.subnet-set (record x { expired = true }) t x.network_name x.client_id,
    L.same_key_refl x.network_name x.client_id,
    set_ok (record x { expired = true }) t,
    delete_ok x.network_name x.client_id t,
  )

  reap_other :
      (y : Subnet IP) (t : S.State) (n i : String)
      → same_key y.network_name y.client_id n i ≡ false
      → subnet (reap_subnet S threshold now y t) n i ≡ subnet t n i
  unfolding reap_subnet
  reap_other y t n i other = ground (
    arith,
    L.subnet-delete y.network_name y.client_id t n i,
    L.subnet-set (record y { expired = true }) t n i,
  )

  -- Two subnets of one listing with the same key are the same.
  same_entry :
      (s : S.State) (x y : Subnet IP)
      → IsStored s x
      → IsStored s y
      → same_key y.network_name y.client_id x.network_name x.client_id ≡ true
      → y ≡ x
  same_entry s x y hx hy key =
      let at = L.same_key_subnet y.network_name y.client_id x.network_name x.client_id s key in
      let both : some y ≡ some x = sym hy ∙ at ∙ hx in cc both

  reap_step :
      (s t : S.State) (x y : Subnet IP)
      → IsStored s x
      → IsStored s y
      → IsStored t x ⊎ IsReaped t x
      → IsReaped (reap_subnet S threshold now y t) x
        ⊎ ((subnet (reap_subnet S threshold now y t) x.network_name x.client_id ≡ at_key t x)
            × (y ≡ x → ⊥))
  reap_step s t x y hx hy h =
      elim (Bool-cases (same_key y.network_name y.client_id x.network_name x.client_id)) [
        | inl key ↦ let same = same_entry s x y hx hy key in inl (rw same (reap_own s t x hx h))
        | inr other ↦ inr (
          reap_other y t x.network_name x.client_id other,
          λ e.
              let key : same_key y.network_name y.client_id x.network_name x.client_id ≡ true =
                rw e (L.same_key_refl x.network_name x.client_id) in
              cc (key, other),
        )
      ]

  reap_all-IsReaped :
      (s : S.State) (x : Subnet IP) (l : List (Subnet IP)) (t : S.State)
      → IsStored s x
      → All (IsStored s) l
      → IsReaped t x ⊎ (IsStored t x × In x l)
      → IsReaped (reap_all S threshold now l t) x
  unfolding reap_all
  reap_all-IsReaped s x [] t hx all (inl done) = done
  reap_all-IsReaped s x [] t hx all (inr (h, m)) = absurd m
  reap_all-IsReaped s x (y ∷ rest) t hx (hy, all) h =
      let u = reap_subnet S threshold now y t in
      reap_all-IsReaped s x rest u hx all (elim h [
        | inl done ↦ elim (reap_step s t x y hx hy (inr done)) [
          | inl again ↦ inl again
          | inr (kept, other) ↦ inl (kept ∙ done)
        ]
        | inr (stored, inl e) ↦ elim (reap_step s t x y hx hy (inl stored)) [
          | inl now_reaped ↦ inl now_reaped
          | inr (kept, other) ↦ absurd (other (sym e))
        ]
        | inr (stored, inr m) ↦ elim (reap_step s t x y hx hy (inl stored)) [
          | inl now_reaped ↦ inl now_reaped
          | inr (kept, other) ↦ inr (kept ∙ stored, m)
        ]
      ])

  -- While the store's writes succeed, each subnet that a pass lists for its network ends as the
  -- rule says: deleted if it was marked and its threshold is over, marked if it has expired, and
  -- otherwise as it was.
  pub run_subnet_reap_complete :
      (net : Network) (s : S.State) (l : List (Subnet IP)) (x : Subnet IP)
      → (S.list_subnets net.name s).0 ≡ ok l
      → In x l
      → subnet (run_subnet_reap S threshold now net s) x.network_name x.client_id
        ≡ reaped S threshold now x
  unfolding run_subnet_reap reap_listed
  run_subnet_reap_complete net s l x listed m =
      let t = (S.list_subnets net.name s).1 in
      let all = L.list_ok net.name s l listed in
      let here = All-In x l all m in
      rw listed (
        reap_all-IsReaped s x l t here all
          (inr (L.subnet-list net.name s x.network_name x.client_id ∙ here, m)))
    where
      All-In : (x : Subnet IP) (l : List (Subnet IP)) → All (IsStored s) l → In x l → IsStored s x
      All-In x [] all m = absurd m
      All-In x (y ∷ rest) (here, all) (inl e) = rw e here
      All-In x (y ∷ rest) (here, all) (inr m) = All-In x rest all m
