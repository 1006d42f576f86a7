-- ===== src/Client/Init/Allocation.antt =====
-- Which subnet a client ends up with for a network.
use smuggle.Prelude.{ℕ, String, Option, none, some, List, ◌≡◌}
use smuggle.Prelude.Error.{Error, Result, ok, err, panic, map_err}
use smuggle.Prelude.Int.{ℤ}
use smuggle.Prelude.State.{>>=-ok, lift, on_error}
use smuggle.Ipv4.{Net}
use smuggle.Network.{Network, validate, canonicalize}
use smuggle.Subnet.{Subnet}
use smuggle.Fingerprint.{Fingerprint}
use smuggle.Allocator.{generate_ipv4_subnet}
use smuggle.Store.{Store}
use smuggle.Firewall.{setup_forward_rules}
use smuggle.Firewall.Interface.{IpTables}
use smuggle.Client.Init.{
  Local, World, in_store, in_tables, own_subnet, init_subnet, setup_masq, init_network,
}

map_err-inv :
    {A : Type 0} (f : Error → Error) (r : Result A) {a : A} → map_err f r ≡ ok a → r ≡ ok a
map_err-inv f (ok a) h = h
map_err-inv f (err e) h = cc
map_err-inv f (panic p) h = cc

pub same_pair :
    {A B : Type 0} (a a' : A) (b b' : B)
    → ◌≡◌ {A = Result (A × B)} (ok (a', b')) (ok (a, b))
    → (a ≡ a') × (b ≡ b')
same_pair a a' b b' h = (cc h, cc h)

module _ {IP : Type 0} (S : Store IP) (I : IpTables) (N : Net) (H : Local IP)
    (draws : Network → ℕ → ℕ → ℕ) (fp : Fingerprint IP) (now : Network → ℤ) (id : String) where
  -- The subnet that the store had, or one that the allocator gave for what the store listed.
  abbrev pub IsOwn : Network → Option (Subnet IP) → Subnet IP → S.State → Type 0
  IsOwn m (some y) x s = x ≡ y
  IsOwn m none x s =
      (l : List (Subnet IP)) × ((S.list_subnets m.name s).0 ≡ ok l)
      × (generate_ipv4_subnet (draws m) fp (now m) id m l ≡ ok x)

  own_subnet-IsOwn :
      (m : Network) (known : Option (Subnet IP)) (w : World S I N H) (x : Subnet IP)
      → (own_subnet S I N H draws fp now id m known w).0 ≡ ok x
      → IsOwn m known x w.stored
  unfolding own_subnet
  own_subnet-IsOwn m (some y) w x done = cc
  own_subnet-IsOwn m none w x done =
      let list = in_store S I N H (S.list_subnets m.name) in
      let (l, listed, given, at) = >>=-ok (on_error _ list) _ w done in
      (
        l,
        map_err-inv _ (list w).0 listed,
        map_err-inv _ (generate_ipv4_subnet (draws m) fp (now m) id m l) given,
      )

  -- A client that sets up a network has checked its configuration, uses it with the defaults filled
  -- in, and has the subnet that the store knew of for it; only where the store knew of none it has
  -- one that the allocator gave for the subnets that the store listed.
  pub init_network_lem :
      (n m : Network) (x : Subnet IP) (w : World S I N H)
      → (init_network S I N H draws fp now id n w).0 ≡ ok (m, x)
      → (known : Option (Subnet IP)) × (validate n ≡ ok tt)
        × ((S.get_subnet n.name id w.stored).0 ≡ ok known)
        × (canonicalize n ≡ ok m)
        × IsOwn m known x (S.get_subnet n.name id w.stored).1
  unfolding init_network
  init_network_lem n m x w done =
      let (u, valid, done1, at1) = >>=-ok (lift (map_err _ (validate n))) _ w done in
      let get = in_store S I N H (S.get_subnet n.name id) in
      let (known, read, done2, at2) = >>=-ok (on_error _ get) _ w done1 in
      let w1 = (get w).1 in
      let (m', full, done3, at3) = >>=-ok (lift (canonicalize n)) _ w1 done2 in
      let (x', own, done4, at4) = >>=-ok (own_subnet S I N H draws fp now id m' known) _ w1 done3 in
      let w2 = (own_subnet S I N H draws fp now id m' known w1).1 in
      let (u5, ran5, done5, at5) = >>=-ok (on_error _ (init_subnet S I N H m' x')) _ w2 done4 in
      let w3 = (init_subnet S I N H m' x' w2).1 in
      let (u6, ran6, done6, at6) = >>=-ok (setup_masq S I N H m'.ip_masq m' x') _ w3 done5 in
      let w4 = (setup_masq S I N H m'.ip_masq m' x' w3).1 in
      let forward = in_tables S I N H (setup_forward_rules I N m') in
      let (u7, ran7, done7, at7) = >>=-ok (on_error _ forward) _ w4 done6 in
      let (same_m, same_x) = same_pair m m' x x' done7 in
      rw (same_m, same_x)
        (
          known,
          map_err-inv _ (validate n) valid,
          map_err-inv _ (get w).0 read,
          full,
          own_subnet-IsOwn m' known w1 x' own,
        )
