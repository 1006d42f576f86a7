-- ===== src/Nvar/Listing.antt =====
-- internal/store/nvar/nvar.go, `ListSubnets`: which subnets a list holds.
use smuggle.Prelude.{String, some, List, [], ◌∷◌, ◌≡◌, ◌↔◌, inl, inr, sym, ◌∙◌, ap, ◌<>◌, In, All}
use smuggle.Prelude.Error.{ok}
use smuggle.Subnet.{Subnet}
use smuggle.Nvar.{Paths, parse_client_subnet_config, list_subnets}
use smuggle.Nvar.Interface.{Variables, Codec, IsLawful, Items, Stub}
use smuggle.Nvar.Entries.{Parsed, list_subnets_lem}
use smuggle.Nvar.Loop.{IsIndexed, stub}

module _ {IP : Type 0} (C : Codec IP) (V : Variables) (paths : Paths) {L : IsLawful V}
    (X : IsIndexed V L) where
  open L use {items}

  -- A path that begins with the client path and the network, joined, holds the text of a subnet.
  abbrev pub IsUnder : String → V.State → Subnet IP → Type 0
  IsUnder n s x =
      (rest : String) × (v : Items) × (items s (C.join (paths.client_path ∷ n ∷ []) <> rest)
        ≡ some v)
      × (parse_client_subnet_config C v ≡ ok x)

  Parsed-In :
      (s : V.State) (ms : List Stub) (xs : List (Subnet IP)) (m : Stub) (v : Items) (x : Subnet IP)
      → In m ms
      → items s m.path ≡ some v
      → parse_client_subnet_config C v ≡ ok x
      → Parsed C V L paths s ms xs
      → In x xs
  Parsed-In s [] xs m v x at held parsed h = absurd at
  Parsed-In s (y ∷ ms) [] m v x at held parsed h = absurd h
  Parsed-In s (y ∷ ms) (z ∷ xs) m v x (inl same) held parsed ((w, held', parsed'), rest) =
      let path : items s y.path ≡ some v = ap (λ (k : Stub). items s k.path) (sym same) ∙ held in
      inl (cc (path, held', parsed, parsed'))
  Parsed-In s (y ∷ ms) (z ∷ xs) m v x (inr at) held parsed (first, rest) =
      inr (Parsed-In s ms xs m v x at held parsed rest)

  In-IsUnder :
      (n : String) (s : V.State) (ms : List Stub) (xs : List (Subnet IP)) (x : Subnet IP)
      → All (λ m. (rest : String) × (m.path ≡ C.join (paths.client_path ∷ n ∷ []) <> rest)) ms
      → Parsed C V L paths s ms xs
      → In x xs
      → IsUnder n s x
  In-IsUnder n s [] [] x under h at = absurd at
  In-IsUnder n s [] (z ∷ xs) x under h at = absurd h
  In-IsUnder n s (m ∷ ms) [] x under h at = absurd h
  In-IsUnder n s (m ∷ ms) (z ∷ xs) x ((rest, path), under) ((v, held, parsed), more) (inl same) =
      (rest, v, ap (items s) (sym path) ∙ held, parsed ∙ ap ok (sym same))
  In-IsUnder n s (m ∷ ms) (z ∷ xs) x (first, under) (own, more) (inr at) =
      In-IsUnder n s ms xs x under more at

  -- A `ListSubnets` that succeeds lists exactly the subnets that the paths hold which begin with the
  -- client path and the network's name, joined, whatever the network that those subnets name.
  pub list_subnets_iff :
      (n : String) (s : V.State) (xs : List (Subnet IP)) (x : Subnet IP)
      → (list_subnets C V paths n s).0 ≡ ok xs
      → In x xs ↔ IsUnder n s x
  list_subnets_iff n s xs x done =
      let (ms, index, given, parsed) = list_subnets_lem C V L paths n s xs done in
      let prefix = C.join (paths.client_path ∷ n ∷ []) in
      (
        λ at. In-IsUnder n s ms xs x (L.list_ok prefix 0 index s ms given) parsed at,
        λ (rest, v, held, text).
            Parsed-In s ms xs (stub (prefix <> rest) (X.modified s (prefix <> rest))) v x
              (X.list_all prefix rest 0 index s ms v given held) held text parsed,
      )
