-- ===== src/Nvar/Refinement.antt =====
-- The store on Nomad variables has the laws that the reaper and the heartbeat rely on.
use smuggle.Prelude.{
  String, Bool-cases, ◌&&◌, Option, none, some, List, [], ◌∷◌, ◌≡◌, ◌⊎◌, inl, inr, refl, sym, ◌∙◌,
  ap, ◌<>◌, ◌==◌, ==_eq, ==_refl, string_eq, if◌then◌else◌, All,
}
use smuggle.Prelude.Error.{Result-cases, ok, is_error}
use smuggle.Subnet.{Subnet}
use smuggle.Store
use smuggle.Firewall.Interface.{is_ok}
use smuggle.Prelude.Int.{ℤ}
use smuggle.Network.{Network}
use smuggle.Reaper.{run_subnet_reap}
use smuggle.Reaper.Pass.{reaped_entry, run_subnet_reap_lem}
use smuggle.Nvar.{
  Paths, parse_client_subnet_config, set_subnet, get_subnet, subnet_read, delete_subnet,
  subnet_path,
}
use smuggle.Nvar.Interface.{Variables, Codec, IsLawful, Items, Stub, variable_path_not_found}
use smuggle.Nvar.Entries.{Parsed, list_subnets_lem}
use smuggle.Nvar.Sound.{
  IsFaithful, IsSound, nvar_store, path_of, network_prefix, set_subnet-items, set_subnet_failed,
  delete_subnet-items, list_subnets-items, list_networks-items, get_subnet-items, parse-unmarshal,
  entry_of, back, IsFixed, IsFixed-back,
}

module _ {IP : Type 0} (C : Codec IP) (faithful : IsFaithful C) (V : Variables) (L : IsLawful V)
    (paths : Paths) where
  open L use {items}

  abbrev pub store : Store.Store IP
  store = nvar_store C faithful V L paths

  abbrev pub parsed_entry : Option Items → Option (Subnet IP)
  parsed_entry none = none
  parsed_entry (some v) = entry_of (parse_client_subnet_config C v)

  -- What a path stands for.
  abbrev pub stored : V.State → String → Option (Subnet IP)
  stored s p = parsed_entry (items s p)

  abbrev pub at_path : String → String → String
  at_path n i = subnet_path C V paths n i

  pub stored-set :
      (x : Subnet IP) (s : V.State) (p : String)
      → stored (set_subnet C V paths x s).1 p ≡ (
          if is_ok (set_subnet C V paths x s).0 && path_of C faithful V L paths x == p
          then back C faithful V L paths x
          else stored s p)
  stored-set x s p = elim (set_subnet_failed C faithful V L paths x s) [
    | inr (bad, same) ↦ rw (bad, same) refl
    | inl (t, text) ↦
        let now = set_subnet-items C faithful V L paths x t s p text in
        elim (Bool-cases
          (is_ok (set_subnet C V paths x s).0 && path_of C faithful V L paths x == p)) [
            | inl new ↦ rw (now, new, text) (ap entry_of (parse-unmarshal C faithful V L paths t))
            | inr old ↦ rw (now, old) refl
          ]
  ]

  pub stored-delete :
      (n i : String) (s : V.State) (p : String)
      → stored (delete_subnet C V paths n i s).1 p
        ≡ (if is_ok (delete_subnet C V paths n i s).0 && at_path n i == p then none else stored s p)
  stored-delete n i s p =
      let now = delete_subnet-items C faithful V L paths n i s p in
      elim (Bool-cases (is_ok (delete_subnet C V paths n i s).0 && at_path n i == p)) [
        | inl gone ↦ rw (now, gone) refl
        | inr kept ↦ rw (now, kept) refl
      ]

  -- A subnet that was parsed is stored under its own path.
  stored_own :
      (s : V.State) (n : String) (ms : List Stub) (xs : List (Subnet IP))
      → IsSound C faithful V L paths s
      → All (λ m. (rest : String) × (m.path ≡ network_prefix C faithful V L paths n <> rest)) ms
      → Parsed C V L paths s ms xs
      → All (λ x. stored s (path_of C faithful V L paths x) ≡ some x) xs
  stored_own s n [] [] sound under h = tt
  stored_own s n [] (x ∷ xs) sound under h = absurd h
  stored_own s n (m ∷ ms) [] sound under h = absurd h
  stored_own s n (m ∷ ms) (x ∷ xs) sound ((rest, at), under) ((v, held, parsed), more) =
      let own = sound.own_paths n rest v x (rw at at held) parsed in
      let own_entry : stored s (path_of C faithful V L paths x) ≡ some x =
        rw (own, sym at, held) (ap entry_of parsed) in
      (own_entry, stored_own s n ms xs sound under more)

  pub listed_own :
      (n : String) (s : V.State) (h : IsSound C faithful V L paths s) (l : List (Subnet IP))
      → (store.list_subnets n (s, h)).0 ≡ ok l
      → All (λ x. stored s (path_of C faithful V L paths x) ≡ some x) l
  listed_own n s h l done =
      let (ms, index, given, parsed) = list_subnets_lem C V L paths n s l done in
      stored_own s n ms l h (L.list_ok (network_prefix C faithful V L paths n) 0 index s ms given)
        parsed

  pub got_stored :
      (n i : String) (s : V.State) (o : Option (Subnet IP))
      → (get_subnet C V paths n i s).0 ≡ ok o
      → o ≡ stored s (at_path n i)
  unfolding get_subnet subnet_read
  got_stored n i s o done = elim (Result-cases (V.read (at_path n i) s).0) [
    | inl (v, read) ↦ elim (Result-cases (parse_client_subnet_config C v)) [
      | inl (x, parsed) ↦
          let same : some x ≡ o = cc (rw (read, parsed) at done) in
          sym same ∙ sym (rw (L.read_ok (at_path n i) s v read) (ap entry_of parsed))
      | inr (inl (e, failed)) ↦ cc (rw (read, failed) at done)
      | inr (inr (m, crashed)) ↦ cc (rw (read, crashed) at done)
    ]
    | inr (inl (e, failed)) ↦ elim (Bool-cases (is_error e variable_path_not_found)) [
      | inl absent ↦
          let same : ◌≡◌ {A = Option (Subnet IP)} none o = cc (rw (failed, absent) at done) in
          rw (sym same, L.read_err (at_path n i) s e failed absent) refl
      | inr other ↦ cc (rw (failed, other) at done)
    ]
    | inr (inr (m, crashed)) ↦ absurd (L.read_panic (at_path n i) s m crashed)
  ]

  pub stored-IsFixed :
      (n i : String) (s : V.State) (o : Option Items) (x : Subnet IP)
      → IsSound C faithful V L paths s
      → items s (at_path n i) ≡ o
      → parsed_entry o ≡ some x
      → IsFixed C faithful V L paths x
  stored-IsFixed n i s none x sound held is = cc is
  stored-IsFixed n i s (some v) x sound held is =
      elim (Result-cases (parse_client_subnet_config C v)) [
        | inl (y, parsed) ↦
            let same : some y ≡ some x = rw parsed at is in
            let one : y ≡ x = cc same in sound.fixed n i v x held (parsed ∙ ap ok one)
        | inr (inl (e, bad)) ↦ let bare : none ≡ some x = rw bad at is in cc bare
        | inr (inr (m, bad)) ↦ let bare : none ≡ some x = rw bad at is in cc bare
      ]

  abbrev pub store_laws : Store.IsLawful store
  store_laws = record {
    subnet = λ s n i. stored s.0 (at_path n i);
    back = back C faithful V L paths;
    back_stored = λ x s n i b is.
        IsFixed-back C faithful V L paths x b
          (stored-IsFixed n i s.0 (items s.0 (at_path n i)) x s.1 refl is);
    same_key = λ n i n' i'. at_path n i == at_path n' i';
    same_key_refl = λ n i. ==_refl (at_path n i);
    same_key_subnet = λ n i n' i' s e. ap (stored s.0) (==_eq (at_path n i) (at_path n' i') e);
    subnet-set = λ x s n i. stored-set x s.0 (at_path n i);
    subnet-delete = λ network id s n i. stored-delete network id s.0 (at_path n i);
    subnet-list = λ network s n i.
        ap parsed_entry (list_subnets-items C faithful V L paths network s.0 (at_path n i));
    subnet-list_networks =
        λ s n i. ap parsed_entry (list_networks-items C faithful V L paths s.0 (at_path n i));
    subnet-get = λ network id s n i.
        ap parsed_entry (get_subnet-items C faithful V L paths network id s.0 (at_path n i));
    get_ok = λ network id s o done. got_stored network id s.0 o done;
    list_ok = λ network s l done. listed_own network s.0 s.1 l done;
  }

  -- The store on Nomad variables is a store as the reaper and the heartbeat rely on it, where the
  -- variables keep what the API documents, and the JSON text of a subnet keeps its names and gives,
  -- if it can be read at all, a subnet that is then written and read back as it is with either mark.
  -- It holds under the path of a network and a client what is read back of the subnet that was set; a
  -- set and a delete change that entry alone and only when they succeed, and a get and a listing give
  -- entries as they are stored. Its states are those in which each subnet has its own path and was
  -- read back; all its calls keep that.
  pub nvar_store-IsLawful :
      (l : Store.IsLawful store) × ((s : V.State) (h : IsSound C faithful V L paths s)
          (n i : String)
        → l.subnet (s, h) n i ≡ stored s (at_path n i))
      × ((x : Subnet IP) → l.back x ≡ back C faithful V L paths x)
  nvar_store-IsLawful = (store_laws, λ s h n i. refl, λ x. refl)

  -- On Nomad variables a pass of the reaper leaves what each path stands for as it was, or treats it
  -- by the rule, whatever calls of the API fail and whatever other variables the listing of the
  -- network's prefix gives.
  pub run_subnet_reap_nvar :
      (threshold now : ℤ) (net : Network) (s : V.State) (h : IsSound C faithful V L paths s)
      (n i : String)
      → let after = (run_subnet_reap store threshold now net (s, h)).0 in
        (stored after (at_path n i) ≡ stored s (at_path n i))
        ⊎ (stored after (at_path n i) ≡ reaped_entry store threshold now (stored s (at_path n i)))
  run_subnet_reap_nvar threshold now net s h n i =
      run_subnet_reap_lem store threshold now store_laws net (s, h) n i
