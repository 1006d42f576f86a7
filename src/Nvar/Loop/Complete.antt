-- ===== src/Nvar/Loop/Complete.antt =====
-- No change is missed: what the variables hold has been sent when a listing is not older.
use smuggle.Prelude.{
  ℕ, String, Bool-cases, some, List, [], ◌∷◌, ◌≡◌, ◌⊎◌, inl, inr, refl, arith, ◌<◌, ◌≤◌, ◌<>◌, sym,
  ◌∙◌, leb,
}
use smuggle.Prelude.Error.{Result-cases, ok}
use smuggle.Subnet.{Subnet}
use smuggle.Nvar.{Paths, parse_client_subnet_config}
use smuggle.Nvar.Interface.{Variables, Codec, Stub, Items, IsLawful}
use smuggle.Nvar.Watch.{watch_listed, watch_round, CanRead, watch_round_lem}
use smuggle.Nvar.Loop.{
  IsIndexed, Loop, watch_subnets, run_round, stub, Step, round, cut, change, Reach, start, later,
}
use smuggle.Nvar.Loop.Delivery.{
  IsSent, IsSent-left, IsSent-right, IsReported-IsSent, view-watch_round,
}

module _ {IP : Type 0} (C : Codec IP) (V : Variables) (paths : Paths) (network : String)
    (L : IsLawful V) (X : IsIndexed V L) (can : CanRead C V paths L) where
  open V use {State, list}
  open L use {items}
  open X use {index, modified}

  abbrev pub prefix : String
  prefix = C.join (paths.client_path ∷ network ∷ [])

  -- A path holds the text of a subnet.
  abbrev pub Holds : State → String → Subnet IP → Type 0
  Holds s p x = (v : Items) × (items s p ≡ some v) × (parse_client_subnet_config C v ≡ ok x)

  abbrev Watcher : Type 0
  Watcher = Loop C V paths network

  -- Whatever changed up to the index that the watch waits for was sent.
  record IsComplete (w : Watcher) : Type 0 where
    in_time : w.wait_index ≤ index w.vars
    told :
        (rest : String) (x : Subnet IP)
        → Holds w.vars (prefix <> rest) x
        → modified w.vars (prefix <> rest) ≤ w.wait_index
        → IsSent x w.sent

  -- The next index is the old one, or that of a listing that is newer.
  watch_round-next :
      (wait : ℕ) (s : State)
      → ((watch_round C V paths network wait s).1 ≡ wait)
        ⊎ ((ms : List Stub) × (last : ℕ) × ((list prefix wait s).0 ≡ ok (ms, last))
            × (wait < last)
            × ((watch_round C V paths network wait s).1 ≡ last))
  unfolding watch_round watch_listed
  watch_round-next wait s = elim (Result-cases (list prefix wait s).0) [
    | inl ((ms, last), given) ↦ elim (Bool-cases (leb last wait)) [
      | inl old ↦ inl (rw (given, old) refl)
      | inr newer ↦ inr (ms, last, given, ground arith, rw (given, newer) refl)
    ]
    | inr (inl (e, failed)) ↦ inl (rw failed refl)
    | inr (inr (p, crashed)) ↦ inl (rw crashed refl)
  ]

  run_round-items :
      (w : Watcher) (p : String) → items (run_round C V paths network w).vars p ≡ items w.vars p
  run_round-items w p =
      view-watch_round C V paths network (λ s. items s p) (λ q wait s. L.items-list q wait s p)
        (λ q s. L.items-read q s p) w.wait_index w.vars

  run_round-modified :
      (w : Watcher) (p : String)
      → modified (run_round C V paths network w).vars p ≡ modified w.vars p
  run_round-modified w p =
      view-watch_round C V paths network (λ s. modified s p)
        (λ q wait s. X.modified-list q wait s p) (λ q s. X.modified-read q s p) w.wait_index w.vars

  run_round-index : (w : Watcher) → index (run_round C V paths network w).vars ≡ index w.vars
  run_round-index w =
      view-watch_round C V paths network index X.index-list X.index-read w.wait_index w.vars

  -- A change behind the index of the watch is in the newer listing, and is sent.
  newer-IsSent :
      (w : Watcher) (ms : List Stub) (last : ℕ) (rest : String) (x : Subnet IP)
      → (list prefix w.wait_index w.vars).0 ≡ ok (ms, last)
      → w.wait_index < last
      → w.wait_index ≤ modified w.vars (prefix <> rest)
      → Holds w.vars (prefix <> rest) x
      → IsSent x (watch_round C V paths network w.wait_index w.vars).0
  newer-IsSent w ms last rest x given newer behind (v, held, parsed) =
      let p = prefix <> rest in
      let (r, sends, next, sorted, reported) =
        watch_round_lem C V paths L network w.wait_index last w.vars ms x can given newer (
          stub p (modified w.vars p),
          v,
          X.list_all prefix rest w.wait_index last w.vars ms v given held,
          ground arith,
          held,
          parsed,
        ) in
      rw sends (IsReported-IsSent C V paths network L r x reported)

  round-told :
      (w : Watcher) (rest : String) (x : Subnet IP)
      → IsComplete w
      → Holds w.vars (prefix <> rest) x
      → modified w.vars (prefix <> rest) ≤ (run_round C V paths network w).wait_index
      → IsSent x (run_round C V paths network w).sent
  round-told w rest x h holds soon =
      let p = prefix <> rest in
      let new = (watch_round C V paths network w.wait_index w.vars).0 in
      elim (Bool-cases (leb (modified w.vars p) w.wait_index)) [
        | inl known ↦ IsSent-left x w.sent new (h.told rest x holds (ground arith))
        | inr fresh ↦ elim (watch_round-next w.wait_index w.vars) [
          | inl same ↦ absurd (ground arith)
          | inr (ms, last, given, newer, next) ↦
              IsSent-right x w.sent new
                (newer-IsSent w ms last rest x given newer (ground arith) holds)
        ]
      ]

  round-in_time :
      (w : Watcher)
      → IsComplete w
      → (run_round C V paths network w).wait_index ≤ index (run_round C V paths network w).vars
  round-in_time w h = elim (watch_round-next w.wait_index w.vars) [
    | inl same ↦ omega (arith, h.in_time, same, run_round-index w)
    | inr (ms, last, given, newer, next) ↦
        let at = X.list_index prefix w.wait_index last w.vars ms given in
        omega (arith, next, at, run_round-index w)
  ]

  Step-IsComplete : {w u : Watcher} → Step C V paths network X w u → IsComplete w → IsComplete u
  Step-IsComplete {w = w} (round open_yet) h = record {
    in_time = round-in_time w h;
    told = λ rest x (v, held, parsed) known.
        round-told w rest x h (v, sym (run_round-items w (prefix <> rest)) ∙ held, parsed)
          (omega (arith, known, run_round-modified w (prefix <> rest)));
  }
  Step-IsComplete {w = w} (cut a b open_yet e) h = record {
    in_time = h.in_time;
    told = λ rest x holds known. IsSent-left x w.sent a (h.told rest x holds known);
  }
  Step-IsComplete {w = w} (change u (grows, news)) h = record {
    in_time = omega (arith, h.in_time, grows);
    told = λ rest x (v, held, parsed) known. elim (news (prefix <> rest) v held) [
      | inl (old, same) ↦ h.told rest x (v, old, parsed) (omega (arith, known, same))
      | inr behind ↦ absurd (omega (arith, known, behind, h.in_time))
    ];
  }

  Reach-IsComplete : {w u : Watcher} → Reach C V paths network X w u → IsComplete w → IsComplete u
  Reach-IsComplete start h = h
  Reach-IsComplete (later r st) h = Step-IsComplete st (Reach-IsComplete r h)

  start-IsComplete : (s : State) → IsComplete (watch_subnets C V paths network s)
  start-IsComplete s = record {
    in_time = omega arith;
    told = λ rest x (v, held, parsed) none_yet.
        absurd (omega (arith, none_yet, X.modified_positive s (prefix <> rest) v held));
  }

  -- Whatever rounds and changes by others came before, a round of the watch whose listing succeeds
  -- leaves nothing unsent: every subnet that a variable with the network's prefix then holds has been
  -- sent since the watch began, as it is now, on the channel of deletions if it is marked as expired
  -- and on that of modifications if not, where reads of what is there succeed and Nomad's indexes
  -- grow with each change.
  pub watch_subnets_complete :
      (s : State) (w : Watcher) (ms : List Stub) (last : ℕ) (rest : String) (x : Subnet IP)
      → Reach C V paths network X (watch_subnets C V paths network s) w
      → (list prefix w.wait_index w.vars).0 ≡ ok (ms, last)
      → Holds w.vars (prefix <> rest) x
      → IsSent x (run_round C V paths network w).sent
  unfolding watch_round watch_listed
  watch_subnets_complete s w ms last rest x r given holds =
      let h = Reach-IsComplete r (start-IsComplete s) in
      let at = X.list_index prefix w.wait_index last w.vars ms given in
      let known = X.modified_known w.vars (prefix <> rest) holds.0 holds.1 in
      elim (Bool-cases (leb last w.wait_index)) [
        | inl old ↦ IsSent-left x w.sent _ (h.told rest x holds (ground (arith, at, known)))
        | inr newer ↦
            let next : (run_round C V paths network w).wait_index ≡ last = rw (given, newer) refl in
            round-told w rest x h holds (omega (arith, next, at, known))
      ]
