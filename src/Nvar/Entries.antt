-- ===== src/Nvar/Entries.antt =====
-- What the store's calls on Nomad variables read back of what they wrote.
use smuggle.Prelude.{
  String, Bool-cases, Option, none, some, List, [], ◌∷◌, ◌≡◌, ◌⊎◌, inl, inr, refl, arith, sym, ◌∙◌,
  ℕ,
}
use smuggle.Prelude.{==_refl, string_eq}
use smuggle.Prelude.Error.{Error, Result, Result-cases, ok, err, panic, wrap, is_error, map_err}
use smuggle.Prelude.State.{on_error-ok}
use smuggle.Subnet.{Subnet}
use smuggle.Nvar.{
  Paths, parse_client_subnet_config, set_subnet, get_subnet, delete_subnet, subnet_read,
  subnet_path, list_subnets, read_subnets,
}
use smuggle.Nvar.Interface.{Variables, Codec, IsLawful, Items, Stub, variable_path_not_found}

map_err-inv :
    {A : Type 0} (f : Error → Error) (r : Result A) {a : A} → map_err f r ≡ ok a → r ≡ ok a
map_err-inv f (ok a) h = h
map_err-inv f (err e) h = cc
map_err-inv f (panic p) h = cc

module _ {IP : Type 0} (C : Codec IP) (V : Variables) (L : IsLawful V) (paths : Paths) where
  open L use {items}

  -- An answer that a failing read allows.
  abbrev pub IsReadFailure : Result (Option (Subnet IP)) → Type 0
  IsReadFailure r = (e : Error) × (r ≡ err (wrap "failed to read subnet: %w" e))

  -- What a get answers for a path whose items are known.
  get_subnet-items :
      (network id : String) (s : V.State) (x : Subnet IP) (v : Items)
      → items s (subnet_path C V paths network id) ≡ some v
      → parse_client_subnet_config C v ≡ ok x
      → ((get_subnet C V paths network id s).0 ≡ ok (some x))
        ⊎ IsReadFailure (get_subnet C V paths network id s).0
  unfolding get_subnet subnet_read
  get_subnet-items network id s x v held parsed =
      let path = subnet_path C V paths network id in
      elim (Result-cases (V.read path s).0) [
        | inl (w, done) ↦
            let same : w ≡ v = cc (L.read_ok path s w done, held) in
            inl (rw (done, same, parsed) refl)
        | inr (inl (e, failed)) ↦ elim (Bool-cases (is_error e variable_path_not_found)) [
          | inl absent ↦ cc (L.read_err path s e failed absent, held)
          | inr other ↦ inr (e, rw (failed, other) refl)
        ]
        | inr (inr (p, crashed)) ↦ absurd (L.read_panic path s p crashed)
      ]

  get_subnet-none :
      (network id : String) (s : V.State)
      → items s (subnet_path C V paths network id) ≡ none
      → ((get_subnet C V paths network id s).0 ≡ ok none)
        ⊎ IsReadFailure (get_subnet C V paths network id s).0
  unfolding get_subnet subnet_read
  get_subnet-none network id s held =
      let path = subnet_path C V paths network id in
      elim (Result-cases (V.read path s).0) [
        | inl (w, done) ↦ cc (L.read_ok path s w done, held)
        | inr (inl (e, failed)) ↦ elim (Bool-cases (is_error e variable_path_not_found)) [
          | inl absent ↦ inl (rw (failed, absent) refl)
          | inr other ↦ inr (e, rw (failed, other) refl)
        ]
        | inr (inr (p, crashed)) ↦ absurd (L.read_panic path s p crashed)
      ]

  pub set_subnet-items :
      (x : Subnet IP) (s : V.State)
      → (set_subnet C V paths x s).0 ≡ ok tt
      → (t : String) × (C.marshal x ≡ ok t)
        × (items (set_subnet C V paths x s).1 (subnet_path C V paths x.network_name x.client_id)
            ≡ some (("data", t) ∷ []))
  unfolding set_subnet
  set_subnet-items x s done = elim (Result-cases (C.marshal x)) [
    | inl (t, text) ↦
        let path = subnet_path C V paths x.network_name x.client_id in
        (t, text, ground (arith, L.items-update path (("data", t) ∷ []) s path, ==_refl path))
    | inr (inl (e, failed)) ↦ absurd (ground arith)
    | inr (inr (p, crashed)) ↦ absurd (ground arith)
  ]

  -- After a set that succeeds, of a subnet whose JSON text gives it back, a get of the same network
  -- and client answers that subnet, or that reading it failed.
  pub set_subnet-get_subnet :
      (x : Subnet IP) (text : String) (s : V.State)
      → C.marshal x ≡ ok text
      → C.unmarshal text ≡ ok x
      → (set_subnet C V paths x s).0 ≡ ok tt
      → let r = (get_subnet C V paths x.network_name x.client_id (set_subnet C V paths x s).1).0 in
        (r ≡ ok (some x)) ⊎ IsReadFailure r
  set_subnet-get_subnet x text s printed parsed done =
      let (t, same, held) = set_subnet-items x s done in
      get_subnet-items x.network_name x.client_id (set_subnet C V paths x s).1 x (("data", t) ∷ [])
        held (unfold parse_client_subnet_config in cc (printed, same, parsed))

  -- After a delete that succeeds, a get of the same network and client answers that there is no
  -- subnet and no error, or that reading it failed.
  pub delete_subnet-get_subnet :
      (network id : String) (s : V.State)
      → (delete_subnet C V paths network id s).0 ≡ ok tt
      → let r = (get_subnet C V paths network id (delete_subnet C V paths network id s).1).0 in
        (r ≡ ok none) ⊎ IsReadFailure r
  unfolding delete_subnet
  delete_subnet-get_subnet network id s done =
      let path = subnet_path C V paths network id in
      let deleted = on_error-ok _ (V.delete path) s done in
      get_subnet-none network id (V.delete path s).1
        (ground (arith, L.items-delete path s path, ==_refl path))

  -- The subnets are those of the variables, one for each and in their order.
  abbrev pub Parsed : V.State → List Stub → List (Subnet IP) → Type 0
  Parsed s [] [] = Unit
  Parsed s [] (x ∷ xs) = ⊥
  Parsed s (m ∷ ms) [] = ⊥
  Parsed s (m ∷ ms) (x ∷ xs) =
      ((v : Items) × (items s m.path ≡ some v) × (parse_client_subnet_config C v ≡ ok x))
      × Parsed s ms xs

  Parsed-same :
      (s t : V.State) (ms : List Stub) (xs : List (Subnet IP))
      → ((p : String) → items s p ≡ items t p)
      → Parsed s ms xs
      → Parsed t ms xs
  Parsed-same s t [] [] same h = h
  Parsed-same s t [] (x ∷ xs) same h = h
  Parsed-same s t (m ∷ ms) [] same h = h
  Parsed-same s t (m ∷ ms) (x ∷ xs) same ((v, held, parsed), rest) =
      ((v, sym (same m.path) ∙ held, parsed), Parsed-same s t ms xs same rest)

  read_subnets_lem :
      (ms : List Stub) (s : V.State) (xs : List (Subnet IP))
      → (read_subnets C V paths ms s).0 ≡ ok xs
      → Parsed s ms xs
  unfolding read_subnets
  read_subnets_lem [] s [] done = tt
  read_subnets_lem [] s (x ∷ xs) done = cc
  read_subnets_lem (m ∷ ms) s xs done =
      let t = (V.read m.path s).1 in
      elim (Result-cases (V.read m.path s).0) [
        | inl (v, got) ↦ elim (Result-cases (parse_client_subnet_config C v)) [
          | inl (x, parsed) ↦ elim (Result-cases (read_subnets C V paths ms t).0) [
            | inl (l, more) ↦
                let all : xs ≡ x ∷ l = ground arith in
                rw all (
                  (v, L.read_ok m.path s v got, parsed),
                  Parsed-same t s ms l (λ p. L.items-read m.path s p)
                      (read_subnets_lem ms t l more),
                )
            | inr (inl (e, failed)) ↦ absurd (ground arith)
            | inr (inr (p, crashed)) ↦ absurd (ground arith)
          ]
          | inr (inl (e, failed)) ↦ absurd (ground arith)
          | inr (inr (p, crashed)) ↦ absurd (ground arith)
        ]
        | inr (inl (e, failed)) ↦ absurd (ground arith)
        | inr (inr (p, crashed)) ↦ absurd (ground arith)
      ]

  -- A list that succeeds gives the subnets of exactly the variables that the API gave for the
  -- prefix of the network, in their order: none is dropped, and each is what its path holds.
  pub list_subnets_lem :
      (network : String) (s : V.State) (xs : List (Subnet IP))
      → (list_subnets C V paths network s).0 ≡ ok xs
      → (ms : List Stub) × (index : ℕ) × ((V.list (C.join (paths.client_path ∷ network ∷ [])) 0 s).0
          ≡ ok (ms, index))
        × Parsed s ms xs
  unfolding list_subnets
  list_subnets_lem network s xs done =
      let prefix = C.join (paths.client_path ∷ network ∷ []) in
      let t = (V.list prefix 0 s).1 in
      elim (Result-cases (V.list prefix 0 s).0) [
        | inl ((ms, index), given) ↦ (
          ms,
          index,
          given,
          Parsed-same t s ms xs (λ p. L.items-list prefix 0 s p)
              (read_subnets_lem ms t xs (rw given at done)),
        )
        | inr (inl (e, failed)) ↦ absurd (ground arith)
        | inr (inr (p, crashed)) ↦ absurd (ground arith)
      ]
