-- ===== src/Nvar/Watch.antt =====
-- internal/store/nvar/nvar.go, `WatchSubnets`: one round of the loop, for a context that is not
-- cancelled. The channels are the list of what is sent on them, in order.
use smuggle.Prelude.{
  ℕ, String, true, false, Bool-cases, some, List, [], ◌∷◌, ◌++◌, map, ◌≡◌, ◌⊎◌, inl, inr, refl,
  arith, ◌<◌, ◌∙◌,
}
use smuggle.Prelude.{ltb, leb, if◌then◌else◌, In, All}
use smuggle.Prelude.Error.{Error, Result, ok, err, panic, new_error, wrap}
use smuggle.Subnet.{Subnet}
use smuggle.Nvar.{Paths, parse_client_subnet_config}
use smuggle.Nvar.Interface.{Variables, Codec, Stub, Items, IsLawful}

-- What a pass over the listed variables collects.
pub record Round (IP : Type 0) : Type 0 where
  pub modified_configs : List (Subnet IP)
  pub expired_configs : List (Subnet IP)
  pub errors : List Error

pub data Message (IP : Type 0) : Type 0 where
  error_ch : Error → Message IP
  delete_ch : List (Subnet IP) → Message IP
  modify_ch : List (Subnet IP) → Message IP

-- A parsed subnet goes to one of two lists. The calls do not panic.
abbrev pub sort_config : {IP : Type 0} → Result (Subnet IP) → Round IP → Round IP
sort_config (ok x) r =
    if x.expired
    then record r { expired_configs = x ∷ r.expired_configs }
    else record r { modified_configs = x ∷ r.modified_configs }
sort_config (err e) r = record r { errors = wrap "failed to parse subnet: %w" e ∷ r.errors }
sort_config (panic p) r = record r { errors = new_error p ∷ r.errors }

abbrev pub send_expired : {IP : Type 0} → List (Subnet IP) → List (Message IP)
send_expired [] = []
send_expired (x ∷ l) = delete_ch (x ∷ l) ∷ []

abbrev pub send_modified : {IP : Type 0} → List (Subnet IP) → List (Message IP)
send_modified [] = []
send_modified (x ∷ l) = modify_ch (x ∷ l) ∷ []

-- Errors are sent during the pass, and the subnets behind it.
unfoldable pub messages : {IP : Type 0} → Round IP → List (Message IP)
messages r =
    map error_ch r.errors ++ (send_expired r.expired_configs ++ send_modified r.modified_configs)

module _ {IP : Type 0} (C : Codec IP) (V : Variables) (paths : Paths) where
  open V use {State, list, read}

  unfoldable pub sort_items : Result Items → Round IP → Round IP
  sort_items (ok items) r = sort_config (parse_client_subnet_config C items) r
  sort_items (err e) r = record r { errors = wrap "failed to read subnet: %w" e ∷ r.errors }
  sort_items (panic p) r = record r { errors = new_error p ∷ r.errors }

  -- The loop over the listed variables: those that changed before the index are passed over.
  unfoldable pub sort_stubs : ℕ → List Stub → State → Round IP × State
  sort_stubs wait_index [] s =
      (record { modified_configs = []; expired_configs = []; errors = [] }, s)
  sort_stubs wait_index (m ∷ rest) s =
      if ltb m.modify_index wait_index
      then sort_stubs wait_index rest s
      else let (items, t) = read m.path s in
        let (r, u) = sort_stubs wait_index rest t in (sort_items items r, u)

  -- The answer to the blocking query: what is sent, the next index and the state.
  unfoldable pub watch_listed : ℕ → Result (List Stub × ℕ) → State → List (Message IP) × ℕ × State
  watch_listed wait_index (ok (l, last_index)) t =
      if leb last_index wait_index
      then ([], wait_index, t)
      else let (r, u) = sort_stubs wait_index l t in (messages r, last_index, u)
  watch_listed wait_index (err e) t =
      (error_ch (wrap "failed to list subnets: %w" e) ∷ [], wait_index, t)
  watch_listed wait_index (panic p) t = (error_ch (new_error p) ∷ [], wait_index, t)

  unfoldable pub watch_round : String → ℕ → State → List (Message IP) × ℕ × State
  watch_round network wait_index s =
      let (r, t) = list (C.join (paths.client_path ∷ network ∷ [])) wait_index s in
      watch_listed wait_index r t

  module _ (L : IsLawful V) where
    open L use {items}

    -- A variable that changed at or behind the index and reads as the subnet `x`.
    abbrev pub IsChange : ℕ → State → List Stub → Subnet IP → Type 0
    IsChange wait_index s ms x =
        (m : Stub) × (v : Items) × In m ms
        × (ltb m.modify_index wait_index ≡ false)
        × (items s m.path ≡ some v)
        × (parse_client_subnet_config C v ≡ ok x)

    -- The list that a subnet belongs in.
    abbrev pub IsReported : Round IP → Subnet IP → Type 0
    IsReported r x =
        ((x.expired ≡ true) × In x r.expired_configs)
        ⊎ ((x.expired ≡ false) × In x r.modified_configs)

    sort_config-kept :
        (q : Result (Subnet IP)) (r : Round IP) (x : Subnet IP)
        → IsReported r x
        → IsReported (sort_config q r) x
    sort_config-kept (ok y) r x h = elim (Bool-cases y.expired) [
      | inl e ↦ rw e (elim h [ inl (a, m) ↦ inl (a, inr m) | inr (a, m) ↦ inr (a, m) ])
      | inr e ↦ rw e (elim h [ inl (a, m) ↦ inl (a, m) | inr (a, m) ↦ inr (a, inr m) ])
    ]
    sort_config-kept (err e) r x h = h
    sort_config-kept (panic p) r x h = h

    sort_items-kept :
        (q : Result Items) (r : Round IP) (x : Subnet IP)
        → IsReported r x
        → IsReported (sort_items q r) x
    unfolding sort_items
    sort_items-kept (ok v) r x h = sort_config-kept (parse_client_subnet_config C v) r x h
    sort_items-kept (err e) r x h = h
    sort_items-kept (panic p) r x h = h

    sort_config-new : (r : Round IP) (x : Subnet IP) → IsReported (sort_config (ok x) r) x
    sort_config-new r x = elim (Bool-cases x.expired) [
      | inl e ↦ rw e (inl (refl, inl refl))
      | inr e ↦ rw e (inr (refl, inl refl))
    ]

    -- Every list holds subnets of its kind only.
    abbrev pub IsSorted : Round IP → Type 0
    IsSorted r =
        All (λ (x : Subnet IP). x.expired ≡ true) r.expired_configs
        × All (λ (x : Subnet IP). x.expired ≡ false) r.modified_configs

    sort_config-IsSorted :
        (q : Result (Subnet IP)) (r : Round IP) → IsSorted r → IsSorted (sort_config q r)
    sort_config-IsSorted (ok y) r h = elim (Bool-cases y.expired) [
      | inl e ↦ rw e ((refl, h.0), h.1)
      | inr e ↦ rw e (h.0, (refl, h.1))
    ]
    sort_config-IsSorted (err e) r h = h
    sort_config-IsSorted (panic p) r h = h

    sort_items-IsSorted : (q : Result Items) (r : Round IP) → IsSorted r → IsSorted (sort_items q r)
    unfolding sort_items
    sort_items-IsSorted (ok v) r h = sort_config-IsSorted (parse_client_subnet_config C v) r h
    sort_items-IsSorted (err e) r h = h
    sort_items-IsSorted (panic p) r h = h

    sort_stubs-IsSorted :
        (wait_index : ℕ) (ms : List Stub) (s : State) → IsSorted (sort_stubs wait_index ms s).0
    unfolding sort_stubs
    sort_stubs-IsSorted wait_index [] s = (tt, tt)
    sort_stubs-IsSorted wait_index (m ∷ rest) s =
        elim (Bool-cases (ltb m.modify_index wait_index)) [
          | inl old ↦ rw old (sort_stubs-IsSorted wait_index rest s)
          | inr new ↦ rw new (
              sort_items-IsSorted (read m.path s).0 (sort_stubs wait_index rest (read m.path s).1).0
                (sort_stubs-IsSorted wait_index rest (read m.path s).1))
        ]

    -- Reads of what is there succeed, while the round runs.
    abbrev pub CanRead : Type 0
    CanRead = (p : String) (v : Items) (t : State) → items t p ≡ some v → (read p t).0 ≡ ok v

    sort_stubs-IsReported :
        (wait_index : ℕ) (ms : List Stub) (s : State) (x : Subnet IP)
        → CanRead
        → IsChange wait_index s ms x
        → IsReported (sort_stubs wait_index ms s).0 x
    unfolding sort_stubs sort_items
    sort_stubs-IsReported wait_index [] s x can (m, v, here, new, held, parsed) = absurd here
    sort_stubs-IsReported wait_index (m ∷ ms) s x can (m', v, inl same, new, held, parsed) =
        let fresh : ltb m.modify_index wait_index ≡ false = rw same at new in
        let got : (read m.path s).0 ≡ ok v = can m.path v s (rw same at held) in
        rw (fresh, got, parsed) (sort_config-new _ x)
    sort_stubs-IsReported wait_index (m ∷ ms) s x can (m', v, inr later, new, held, parsed) =
        elim (Bool-cases (ltb m.modify_index wait_index)) [
          | inl old ↦
              rw old (sort_stubs-IsReported wait_index ms s x can (m', v, later, new, held, parsed))
          | inr fresh ↦
              let t = (read m.path s).1 in
              let more =
                sort_stubs-IsReported wait_index ms t x can
                  (m', v, later, new, L.items-read m.path s m'.path ∙ held, parsed) in
              rw fresh (sort_items-kept (read m.path s).0 (sort_stubs wait_index ms t).0 x more)
        ]

    -- In a round whose listing has a newer index, and whose reads of what is there succeed, every
    -- subnet that changed at or behind the round's index is sent: on the channel of deletions if it
    -- is marked as expired, on that of modifications if not, and each channel gets subnets of its
    -- kind only. The next round waits for the index of the listing.
    pub watch_round_lem :
        (network : String) (wait_index last_index : ℕ) (s : State) (ms : List Stub) (x : Subnet IP)
        → CanRead
        → (list (C.join (paths.client_path ∷ network ∷ [])) wait_index s).0 ≡ ok (ms, last_index)
        → wait_index < last_index
        → IsChange wait_index s ms x
        → (r : Round IP) × ((watch_round network wait_index s).0 ≡ messages r)
          × ((watch_round network wait_index s).1 ≡ last_index)
          × IsSorted r
          × IsReported r x
    unfolding watch_round watch_listed
    watch_round_lem network wait_index last_index s ms x can given newer
          (m, v, at, new, held, parsed) =
        let t = (list (C.join (paths.client_path ∷ network ∷ [])) wait_index s).1 in
        let goes : leb last_index wait_index ≡ false = ground arith in
        let held_there =
          L.items-list (C.join (paths.client_path ∷ network ∷ [])) wait_index s m.path ∙ held in
        (
          (sort_stubs wait_index ms t).0,
          rw (given, goes) refl,
          rw (given, goes) refl,
          sort_stubs-IsSorted wait_index ms t,
          sort_stubs-IsReported wait_index ms t x can (m, v, at, new, held_there, parsed),
        )
