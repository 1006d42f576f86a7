-- ===== src/Nvar/Sound.antt =====
-- The states of the variables in which every subnet is stored under its own path, and the store of
-- internal/types/store.go on them.
use smuggle.Prelude.{
  String, Bool, true, false, Bool-cases, ◌&&◌, ◌⊎◌, Option, none, some, List, [], ◌∷◌, ◌≡◌, inl,
  inr, refl, arith, sym, ap, ap₂, ◌∙◌, ◌<>◌, ◌==◌, ==_eq, string_eq, if◌then◌else◌,
}
use smuggle.Prelude.Error.{Result, Result-cases, ok, err, panic, wrap, map_err}
use smuggle.Prelude.State.{St, lift, return, on_error, >>=-view}
use smuggle.Subnet.{Subnet}
use smuggle.Store.{Store}
use smuggle.Firewall.Interface.{is_ok}
use smuggle.Nvar.{
  Paths, parse_network, parse_client_subnet_config, set_subnet, get_subnet, delete_subnet,
  subnet_path, list_subnets, read_subnets, list_networks, read_networks,
}
use smuggle.Nvar.Interface.{Variables, Codec, IsLawful, Items, Stub}

-- What package json and the methods of internal/types do to a subnet that is written and read back.
-- It may differ: `UnmarshalJSON` masks the network's address, and a nil configuration comes back as
-- the text null. Its names do not change, and what was read back once is then written and read as it
-- is, with either mark. A text that cannot be read back is allowed.
pub record IsFaithful {IP : Type 0} (C : Codec IP) : Type 0 where
  pub keeps_key :
      (x y : Subnet IP) (t : String)
      → C.marshal x ≡ ok t
      → C.unmarshal t ≡ ok y
      → (y.network_name ≡ x.network_name) × (y.client_id ≡ x.client_id)
  pub reads_back :
      (x y : Subnet IP) (t u : String) (b : Bool)
      → C.marshal x ≡ ok t
      → C.unmarshal t ≡ ok y
      → C.marshal (record y { expired = b }) ≡ ok u
      → C.unmarshal u ≡ ok (record y { expired = b })

abbrev pub entry_of : {IP : Type 0} → Result (Subnet IP) → Option (Subnet IP)
entry_of (ok x) = some x
entry_of (err e) = none
entry_of (panic m) = none

module _ {IP : Type 0} (C : Codec IP) (faithful : IsFaithful C) (V : Variables) (L : IsLawful V)
    (paths : Paths) where
  open L use {items}

  abbrev pub path_of : Subnet IP → String
  path_of x = subnet_path C V paths x.network_name x.client_id

  abbrev pub network_prefix : String → String
  network_prefix n = C.join (paths.client_path ∷ n ∷ [])

  -- With either mark a subnet is read back as it is.
  abbrev pub IsFixed : Subnet IP → Type 0
  IsFixed x =
      (b : Bool) (u : String)
      → C.marshal (record x { expired = b }) ≡ ok u
      → C.unmarshal u ≡ ok (record x { expired = b })

  -- What is read behind a set: a subnet that has no text is never set.
  abbrev pub back_of : Subnet IP → Result String → Option (Subnet IP)
  back_of x (ok t) = entry_of (C.unmarshal t)
  back_of x (err e) = some x
  back_of x (panic m) = some x

  abbrev pub back : Subnet IP → Option (Subnet IP)
  back x = back_of x (C.marshal x)

  pub IsFixed-back :
      (x : Subnet IP) (b : Bool)
      → IsFixed x
      → back (record x { expired = b }) ≡ some (record x { expired = b })
  IsFixed-back x b fixed = elim (Result-cases (C.marshal (record x { expired = b }))) [
    | inl (u, text) ↦ rw text (ap entry_of (fixed b u text))
    | inr (inl (e, bad)) ↦ rw bad refl
    | inr (inr (m, bad)) ↦ rw bad refl
  ]

  -- Every subnet that a path of a network holds has that path, and one under the path of a network
  -- and a client was read back.
  pub record IsSound (s : V.State) : Type 0 where
    pub own_paths :
        (n rest : String) (v : Items) (x : Subnet IP)
        → items s (network_prefix n <> rest) ≡ some v
        → parse_client_subnet_config C v ≡ ok x
        → path_of x ≡ network_prefix n <> rest
    pub fixed :
        (n i : String) (v : Items) (x : Subnet IP)
        → items s (subnet_path C V paths n i) ≡ some v
        → parse_client_subnet_config C v ≡ ok x
        → IsFixed x

  abbrev pub Keeps : {A : Type 0} → St V.State A → Type 0
  Keeps m = (s : V.State) → IsSound s → IsSound (m s).1

  pub same-Keeps :
      {A : Type 0} (m : St V.State A)
      → ((s : V.State) (p : String) → items (m s).1 p ≡ items s p)
      → Keeps m
  same-Keeps m same s sound = record {
    own_paths = λ n rest v x held parsed.
        sound.own_paths n rest v x (sym (same s (network_prefix n <> rest)) ∙ held) parsed;
    fixed = λ n i v x held parsed.
        sound.fixed n i v x (sym (same s (subnet_path C V paths n i)) ∙ held) parsed;
  }

  module _ (p : String) where
    abbrev view : V.State → Option Items
    view s = items s p

    read_networks-items :
        (ms : List Stub) (s : V.State) → items (read_networks C V paths ms s).1 p ≡ items s p
    unfolding read_networks
    read_networks-items [] s = refl
    read_networks-items (m ∷ rest) s =
        >>=-view view (on_error (wrap "failed to read network: %w") (V.read m.path)) _ s
          (L.items-read m.path s p)
          (λ v t.
            >>=-view view (lift (map_err (wrap "failed to parse network: %w") (parse_network C v)))
              _ t refl
              (λ x u.
                >>=-view view (read_networks C V paths rest) (λ l. return (x ∷ l)) u
                  (read_networks-items rest u) (λ l w. refl)))

    read_subnets-items :
        (ms : List Stub) (s : V.State) → items (read_subnets C V paths ms s).1 p ≡ items s p
    unfolding read_subnets
    read_subnets-items [] s = refl
    read_subnets-items (m ∷ rest) s =
        >>=-view view (on_error (wrap "failed to read subnet: %w") (V.read m.path)) _ s
          (L.items-read m.path s p)
          (λ v t.
            >>=-view view
              (lift (map_err (wrap "failed to parse subnet: %w") (parse_client_subnet_config C v)))
              _ t refl
              (λ x u.
                >>=-view view (read_subnets C V paths rest) (λ l. return (x ∷ l)) u
                  (read_subnets-items rest u) (λ l w. refl)))

  pub list_networks-items :
      (s : V.State) (p : String) → items (list_networks C V paths s).1 p ≡ items s p
  unfolding list_networks
  list_networks-items s p =
      >>=-view (view p) (on_error (wrap "failed to list networks: %w") (V.list paths.config_path 0))
        (λ r. read_networks C V paths r.0) s (L.items-list paths.config_path 0 s p)
        (λ r t. read_networks-items p r.0 t)

  pub list_subnets-items :
      (n : String) (s : V.State) (p : String) → items (list_subnets C V paths n s).1 p ≡ items s p
  unfolding list_subnets
  list_subnets-items n s p =
      >>=-view (view p) (on_error (wrap "failed to list subnets: %w") (V.list (network_prefix n) 0))
        (λ r. read_subnets C V paths r.0) s (L.items-list (network_prefix n) 0 s p)
        (λ r t. read_subnets-items p r.0 t)

  pub get_subnet-items :
      (n i : String) (s : V.State) (p : String) → items (get_subnet C V paths n i s).1 p ≡ items s p
  unfolding get_subnet
  get_subnet-items n i s p = L.items-read (subnet_path C V paths n i) s p

  -- What the paths hold after a set and after a delete.
  pub set_subnet-items :
      (x : Subnet IP) (t : String) (s : V.State) (p : String)
      → C.marshal x ≡ ok t
      → items (set_subnet C V paths x s).1 p ≡ (
          if is_ok (set_subnet C V paths x s).0 && path_of x == p
          then some (("data", t) ∷ [])
          else items s p)
  unfolding set_subnet
  set_subnet-items x t s p text =
      ground (arith, L.items-update (path_of x) (("data", t) ∷ []) s p, text)

  pub set_subnet_failed :
      (x : Subnet IP) (s : V.State)
      → ((t : String) × (C.marshal x ≡ ok t))
        ⊎ ((is_ok (set_subnet C V paths x s).0 ≡ false) × ((set_subnet C V paths x s).1 ≡ s))
  unfolding set_subnet
  set_subnet_failed x s = elim (Result-cases (C.marshal x)) [
    | inl (t, text) ↦ inl (t, text)
    | inr (inl (e, bad)) ↦ inr (rw bad refl, rw bad refl)
    | inr (inr (m, bad)) ↦ inr (rw bad refl, rw bad refl)
  ]

  pub delete_subnet-items :
      (n i : String) (s : V.State) (p : String)
      → items (delete_subnet C V paths n i s).1 p ≡ (
          if is_ok (delete_subnet C V paths n i s).0 && subnet_path C V paths n i == p
          then none
          else items s p)
  unfolding delete_subnet
  delete_subnet-items n i s p = ground (arith, L.items-delete (subnet_path C V paths n i) s p)

  pub parse-unmarshal :
      (t : String) → parse_client_subnet_config C (("data", t) ∷ []) ≡ C.unmarshal t
  unfolding parse_client_subnet_config
  parse-unmarshal t = refl

  and_right : (a b : Bool) → (a && b) ≡ true → b ≡ true
  and_right true b h = h
  and_right false b h = cc h

  -- The text that a set writes is that of the entry which is read.
  written :
      (y : Subnet IP) (t : String) (v : Items)
      → some (("data", t) ∷ []) ≡ some v
      → parse_client_subnet_config C v ≡ ok y
      → C.unmarshal t ≡ ok y
  written y t v held parsed =
      let same : ("data", t) ∷ [] ≡ v = cc held in
      sym (parse-unmarshal t) ∙ ap (parse_client_subnet_config C) same ∙ parsed

  -- What is read of a path behind a set is the subnet that was set, read back, or as it was.
  set_subnet-entry :
      (x y : Subnet IP) (s : V.State) (p : String) (v : Items)
      → items (set_subnet C V paths x s).1 p ≡ some v
      → parse_client_subnet_config C v ≡ ok y
      → (items s p ≡ some v)
        ⊎ ((t : String) × (C.marshal x ≡ ok t) × (C.unmarshal t ≡ ok y) × (path_of x ≡ p))
  set_subnet-entry x y s p v held parsed = elim (set_subnet_failed x s) [
    | inr (bad, same) ↦ inl (rw same at held)
    | inl (t, text) ↦
        let now = set_subnet-items x t s p text in
        let put = is_ok (set_subnet C V paths x s).0 in
        elim (Bool-cases (put && path_of x == p)) [
          | inl new ↦
              let shown : some (("data", t) ∷ []) ≡ some v = sym (rw new at now) ∙ held in
              inr (t, text, written y t v shown parsed, ==_eq (path_of x) p (and_right put _ new))
          | inr old ↦ inl (sym (rw old at now) ∙ held)
        ]
  ]

  same_path :
      (x y : Subnet IP) (t : String)
      → C.marshal x ≡ ok t
      → C.unmarshal t ≡ ok y
      → path_of y ≡ path_of x
  same_path x y t text read =
      let (n, i) = faithful.keeps_key x y t text read in ap₂ (subnet_path C V paths) n i

  pub set_subnet-Keeps : (x : Subnet IP) → Keeps (set_subnet C V paths x)
  set_subnet-Keeps x s sound = record {
    own_paths = λ n rest v y held parsed.
        elim (set_subnet-entry x y s (network_prefix n <> rest) v held parsed) [
          | inl before ↦ sound.own_paths n rest v y before parsed
          | inr (t, text, read, at) ↦ same_path x y t text read ∙ at
        ];
    fixed = λ n i v y held parsed.
        elim (set_subnet-entry x y s (subnet_path C V paths n i) v held parsed) [
          | inl before ↦ sound.fixed n i v y before parsed
          | inr (t, text, read, at) ↦ λ b u again. faithful.reads_back x y t u b text read again
        ];
  }

  delete_subnet-entry :
      (n i : String) (s : V.State) (p : String) (v : Items)
      → items (delete_subnet C V paths n i s).1 p ≡ some v
      → items s p ≡ some v
  delete_subnet-entry n i s p v held =
      let now = delete_subnet-items n i s p in
      elim (Bool-cases
        (is_ok (delete_subnet C V paths n i s).0 && subnet_path C V paths n i == p)) [
          | inl gone ↦ cc (rw gone at now, held)
          | inr kept ↦ sym (rw kept at now) ∙ held
        ]

  pub delete_subnet-Keeps : (n i : String) → Keeps (delete_subnet C V paths n i)
  delete_subnet-Keeps n' i' s sound = record {
    own_paths = λ n rest v y held parsed.
        sound.own_paths n rest v y (delete_subnet-entry n' i' s (network_prefix n <> rest) v held)
          parsed;
    fixed = λ n i v y held parsed.
        sound.fixed n i v y (delete_subnet-entry n' i' s (subnet_path C V paths n i) v held) parsed;
  }

  -- The store on the states that are sound.
  abbrev pub Sound : Type 0
  Sound = (s : V.State) × IsSound s

  abbrev pub on_sound : {A : Type 0} → (m : St V.State A) → Keeps m → St Sound A
  on_sound m keeps (s, h) = ((m s).0, ((m s).1, keeps s h))

  abbrev pub nvar_store : Store IP
  nvar_store = record {
    State = Sound;
    list_networks =
        on_sound (list_networks C V paths)
          (same-Keeps (list_networks C V paths) list_networks-items);
    list_subnets = λ n.
        on_sound (list_subnets C V paths n)
          (same-Keeps (list_subnets C V paths n) (list_subnets-items n));
    delete_subnet = λ n i. on_sound (delete_subnet C V paths n i) (delete_subnet-Keeps n i);
    get_subnet = λ n i.
        on_sound (get_subnet C V paths n i)
          (same-Keeps (get_subnet C V paths n i) (get_subnet-items n i));
    set_subnet = λ x. on_sound (set_subnet C V paths x) (set_subnet-Keeps x);
  }
