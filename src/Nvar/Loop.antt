-- ===== src/Nvar/Loop.antt =====
-- internal/store/nvar/nvar.go, `WatchSubnets`: the goroutine with its rounds, other clients of the
-- variables, and the context. A round is one step, in which the blocking query is answered.
pub mod Delivery
pub mod Complete
use smuggle.Prelude.{
  ℕ, String, Bool, true, false, some, List, [], ◌++◌, ◌≡◌, ◌⊎◌, ◌<◌, ◌≤◌, ◌<>◌, In,
}
use smuggle.Prelude.Error.{Result, ok}
use smuggle.Nvar.{Paths}
use smuggle.Nvar.Interface.{Variables, Codec, Stub, Items, IsLawful}
use smuggle.Nvar.Watch.{Message, watch_round}

abbrev pub stub : String → ℕ → Stub
stub p i = record { path = p; modify_index = i }

-- Nomad's indexes: of the whole state, and of the last change of a path.
pub record IsIndexed (V : Variables) (L : IsLawful V) : Type 0 where
  pub index : V.State → ℕ
  pub modified : V.State → String → ℕ
  pub modified_positive :
      (s : V.State) (p : String) (v : Items) → L.items s p ≡ some v → 0 < modified s p
  pub modified_known :
      (s : V.State) (p : String) (v : Items) → L.items s p ≡ some v → modified s p ≤ index s
  pub index-list :
      (prefix : String) (wait : ℕ) (s : V.State) → index (V.list prefix wait s).1 ≡ index s
  pub modified-list :
      (prefix : String) (wait : ℕ) (s : V.State) (p : String)
      → modified (V.list prefix wait s).1 p ≡ modified s p
  pub index-read : (path : String) (s : V.State) → index (V.read path s).1 ≡ index s
  pub modified-read :
      (path : String) (s : V.State) (p : String) → modified (V.read path s).1 p ≡ modified s p
  pub list_index :
      (prefix : String) (wait last : ℕ) (s : V.State) (ms : List Stub)
      → (V.list prefix wait s).0 ≡ ok (ms, last)
      → last ≡ index s
  pub list_all :
      (prefix rest : String) (wait last : ℕ) (s : V.State) (ms : List Stub) (v : Items)
      → (V.list prefix wait s).0 ≡ ok (ms, last)
      → L.items s (prefix <> rest) ≡ some v
      → In (stub (prefix <> rest) (modified s (prefix <> rest))) ms

-- What others do to the variables: what is new in a path was changed behind the index.
abbrev pub Changes : {V : Variables} {L : IsLawful V} → IsIndexed V L → V.State → V.State → Type 0
Changes {V = V} {L = L} X s u =
    (X.index s ≤ X.index u)
    × ((p : String) (v : Items)
        → L.items u p ≡ some v
        → ((L.items s p ≡ some v) × (X.modified u p ≡ X.modified s p))
          ⊎ (X.index s < X.modified u p))

module _ {IP : Type 0} (C : Codec IP) (V : Variables) (paths : Paths) (network : String) where
  -- The local variable of the goroutine, the variables, all that was sent on the channels, and
  -- whether the goroutine has returned and so has closed them.
  pub record Loop : Type 0 where
    pub wait_index : ℕ
    pub vars : V.State
    pub sent : List (Message IP)
    pub returned : Bool

  abbrev pub watch_subnets : V.State → Loop
  watch_subnets s = record { wait_index = 0; vars = s; sent = []; returned = false }

  abbrev pub run_round : Loop → Loop
  run_round w =
      let (ms, next, t) = watch_round C V paths network w.wait_index w.vars in
      record w { wait_index = next; vars = t; sent = w.sent ++ ms }

  module _ {L : IsLawful V} (X : IsIndexed V L) where
    -- A whole round, one that the context ends after some of its messages, or a change by others.
    pub data Step (w : Loop) : Loop → Type 0 where
      round : w.returned ≡ false → Step w (run_round w)
      cut :
          (a b : List (Message IP))
          → w.returned ≡ false
          → (watch_round C V paths network w.wait_index w.vars).0 ≡ a ++ b
          → Step w (record w { sent = w.sent ++ a; returned = true })
      change : (u : V.State) → Changes X w.vars u → Step w (record w { vars = u })

    pub data Reach (w : Loop) : Loop → Type 0 where
      start : Reach w w
      later : {v u : Loop} → Reach w v → Step v u → Reach w u
