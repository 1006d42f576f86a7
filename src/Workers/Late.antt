-- ===== src/Workers/Late.antt =====
-- A goroutine that has not come to its `Add` when `Stop` waits.
use smuggle.Prelude.{suc, true, List, ◌∷◌, ◌≡◌, refl}
use smuggle.Workers.{
  Phase, spawned, starting, looping, not_called, waiting, returned_nil, Work, System, add, begin,
  here, Turn, turn, close, wait, finish, Reach, start, later,
}

module _ {W E S : Type 0} (K : Work W E S) where
  open K use {first}

  -- While a goroutine is spawned that has not come to its `Add`, and no other is counted, `Stop` can
  -- return nil before that goroutine has done anything, which then does its work on the shared state
  -- and is in its loop after `Stop` has returned.
  pub stop_returns_early :
      (s : System W S) (w : W) (rest : List (W × Phase))
      → s.workers ≡ (w, spawned) ∷ rest
      → s.group ≡ 0
      → s.stop ≡ not_called
      → (t u : System W S) × Reach K s t
        × (t.stop ≡ returned_nil)
        × (t.shared ≡ s.shared)
        × Reach K t u
        × (u.stop ≡ returned_nil)
        × (u.workers ≡ (w, looping) ∷ rest)
        × (u.shared ≡ first w s.shared)
  stop_returns_early s w rest at none fresh =
      let called : System W S = record s { shutdown_closed = true; stop = waiting } in
      let waited : System W S = record called { waited = true } in
      let done : System W S = record waited { stop = returned_nil } in
      let counted : System W S = record done {
        workers = (w, starting) ∷ rest;
        group = suc s.group;
      } in
      let worked : System W S = record counted {
        workers = (w, looping) ∷ rest;
        shared = first w s.shared;
      } in
      let added : Turn K true done.workers counted.workers done.group counted.group done.shared
          counted.shared =
        rw at (here rest (add s.group s.shared)) in
      let began : Turn K true counted.workers worked.workers counted.group worked.group
          counted.shared worked.shared =
        here rest (begin (suc s.group) s.shared) in
      (
        done,
        worked,
        later (later (later start (close fresh)) (wait refl none)) (finish refl refl),
        refl,
        refl,
        later (later start (turn added)) (turn began),
        refl,
        refl,
        refl,
      )
