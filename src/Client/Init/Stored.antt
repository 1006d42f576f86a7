-- ===== src/Client/Init/Stored.antt =====
-- What the store holds of a subnet that a client has set up, before and after its first heartbeat.
use smuggle.Prelude.{
  ℕ, String, Bool, true, Option, none, some, false, ◌≡◌, refl, ◌∙◌, sym, ap, ap₂, subst, arith,
}
use smuggle.Prelude.Error.{ok, wrap, map_err}
use smuggle.Prelude.Int.{ℤ}
use smuggle.Prelude.State.{lift, on_error, >>=-ok, on_error-ok}
use smuggle.Ipv4.{Net}
use smuggle.Network.{Network, validate, canonicalize}
use smuggle.Subnet.{Subnet}
use smuggle.Fingerprint.{Fingerprint}
use smuggle.Store.{Store, IsLawful}
use smuggle.Firewall.{setup_forward_rules}
use smuggle.Firewall.Interface.{IpTables}
use smuggle.Client.Heartbeat.{heartbeat, heartbeat_restores}
use smuggle.Client.Init.Allocation.{same_pair}
use smuggle.Client.Init.{
  Local, World, in_store, in_tables, in_host, own_subnet, init_subnet, setup_masq, init_network,
  generate_cni_config,
}

module _ {IP : Type 0} (S : Store IP) (I : IpTables) (N : Net) (H : Local IP) (L : IsLawful S) where
  open L use {subnet}

  -- The answer of the provider, read back, is what the store holds under its key.
  abbrev pub IsPublished : Subnet IP → Subnet IP → World S I N H → S.State → Type 0
  IsPublished x r w s =
      ((H.set_local x w.host).0 ≡ ok r) × (subnet s r.network_name r.client_id ≡ L.back r)

  init_subnet-IsPublished :
      (n : Network) (x : Subnet IP) (w : World S I N H)
      → (init_subnet S I N H n x w).0 ≡ ok tt
      → (r : Subnet IP) × IsPublished x r w (init_subnet S I N H n x w).1.stored
  unfolding init_subnet
  init_subnet-IsPublished n x w done =
      let local = in_host S I N H (H.set_local x) in
      let (r, e1, done1, at1) =
        >>=-ok (on_error (wrap "failed to set up local subnet: %w") local) _ w done in
      let w1 = (local w).1 in
      let put = in_store S I N H (S.set_subnet r) in
      let (u, e2, done2, at2) =
        >>=-ok (on_error (wrap "failed to store client subnet: %w") put) _ w1 done1 in
      let w2 = (put w1).1 in
      let (cni, e3, done3, at3) = >>=-ok (lift (generate_cni_config S I N H n x)) _ w2 done2 in
      let written : (S.set_subnet r w1.stored).0 ≡ ok tt =
        on_error-ok (wrap "failed to store client subnet: %w") put w1 e2 in
      let own = L.same_key_refl r.network_name r.client_id in
      let now_there : subnet w2.stored r.network_name r.client_id ≡ L.back r =
        ground (arith, L.subnet-set r w1.stored r.network_name r.client_id, own, written) in
      (
        r,
        (
          on_error-ok (wrap "failed to set up local subnet: %w") local w e1,
          ap (λ q. subnet q.1.stored r.network_name r.client_id) (at1 ∙ at2 ∙ at3) ∙ now_there,
        ),
      )

  moved :
      {x y : Subnet IP} (r : Subnet IP) (w : World S I N H) {s : S.State}
      → x ≡ y
      → IsPublished x r w s
      → IsPublished y r w s
  moved r w {s = s} same h = subst (λ z. IsPublished z r w s) same h

  setup_masq-stored :
      (mq : Option Bool) (n : Network) (x : Subnet IP) (w : World S I N H)
      → (setup_masq S I N H mq n x w).1.stored ≡ w.stored
  unfolding setup_masq
  setup_masq-stored none n x w = refl
  setup_masq-stored (some false) n x w = refl
  setup_masq-stored (some true) n x w = refl

  module _ (draws : Network → ℕ → ℕ → ℕ) (fp : Fingerprint IP) (now : Network → ℤ)
      (id : String) where
    init_network-IsPublished :
        (n m : Network) (x : Subnet IP) (w : World S I N H)
        → (init_network S I N H draws fp now id n w).0 ≡ ok (m, x)
        → (v : World S I N H) × (r : Subnet IP) × IsPublished x r v
            (init_network S I N H draws fp now id n w).1.stored
    unfolding init_network
    init_network-IsPublished n m x w done =
        let (u, valid, done1, at1) = >>=-ok (lift (map_err _ (validate n))) _ w done in
        let get = in_store S I N H (S.get_subnet n.name id) in
        let (known, read, done2, at2) = >>=-ok (on_error _ get) _ w done1 in
        let w1 = (get w).1 in
        let (m', full, done3, at3) = >>=-ok (lift (canonicalize n)) _ w1 done2 in
        let (x', own, done4, at4) =
          >>=-ok (own_subnet S I N H draws fp now id m' known) _ w1 done3 in
        let w2 = (own_subnet S I N H draws fp now id m' known w1).1 in
        let set_up = init_subnet S I N H m' x' in
        let (u5, ran5, done5, at5) =
          >>=-ok (on_error (wrap "failed to initialize subnet: %w") set_up) _ w2 done4 in
        let w3 = (set_up w2).1 in
        let (u6, ran6, done6, at6) = >>=-ok (setup_masq S I N H m'.ip_masq m' x') _ w3 done5 in
        let w4 = (setup_masq S I N H m'.ip_masq m' x' w3).1 in
        let forward = in_tables S I N H (setup_forward_rules I N m') in
        let (u7, ran7, done7, at7) = >>=-ok (on_error _ forward) _ w4 done6 in
        let (same_m, same) = same_pair m m' x x' done7 in
        let (r, (answer, held)) =
          init_subnet-IsPublished m' x' w2
            (on_error-ok (wrap "failed to initialize subnet: %w") set_up w2 ran5) in
        let ends = ap (λ q. q.1.stored) (at1 ∙ at2 ∙ at3 ∙ at4 ∙ at5 ∙ at6 ∙ at7) in
        let all = ends ∙ setup_masq-stored m'.ip_masq m' x' w3 in
        (
          w2,
          r,
          moved r w2 (sym same) (answer, ap (λ s. subnet s r.network_name r.client_id) all ∙ held),
        )

    -- Where the provider answers with a subnet of the same key, the store holds what it reads back of
    -- the provider's answer once a client has set up a network, and what it reads back of the client's
    -- own subnet, without what the provider has filled in, once the write of a heartbeat has succeeded
    -- on that state.
    pub heartbeat_overwrites :
        (n m : Network) (x : Subnet IP) (w : World S I N H) (later : ℤ)
        → ((y r : Subnet IP) (h : H.State)
            → (H.set_local y h).0 ≡ ok r
            → (r.network_name ≡ y.network_name) × (r.client_id ≡ y.client_id))
        → (init_network S I N H draws fp now id n w).0 ≡ ok (m, x)
        → (S.set_subnet x (init_network S I N H draws fp now id n w).1.stored).0 ≡ ok tt
        → (v : World S I N H) × (r : Subnet IP) × ((H.set_local x v.host).0 ≡ ok r)
          × (subnet (init_network S I N H draws fp now id n w).1.stored x.network_name x.client_id
              ≡ L.back r)
          × (subnet
                (heartbeat S x later (init_network S I N H draws fp now id n w).1.stored).1
                x.network_name
                x.client_id
              ≡ L.back x)
    heartbeat_overwrites n m x w later keyed done beats =
        let (v, r, (answer, held)) = init_network-IsPublished n m x w done in
        let (same_n, same_i) = keyed x r v.host answer in
        let s = (init_network S I N H draws fp now id n w).1.stored in
        (
          v,
          r,
          answer,
          sym (ap₂ (subnet s) same_n same_i) ∙ held,
          heartbeat_restores S L x later s beats,
        )
