-- ===== src/Workers/Progress.antt =====
-- `Stop` can always come to its end.
use smuggle.Prelude.{ℕ, Bool, true, List, [], ◌∷◌, ◌≡◌, refl, arith, sym, subst}
use smuggle.Workers.{
  Phase, spawned, starting, looping, ended, waiting, returned_nil, Work, System, begin, quit, Turn,
  here, there, turn, wait, finish, Reach, start, later,
}
use smuggle.Workers.Shutdown.{active, HaveBegun, HaveEnded}

module _ {W E S : Type 0} (K : Work W E S) where
  open K use {first}

  -- Any number of turns.
  data Turns (c : Bool) (l : List (W × Phase)) (g : ℕ) (x : S)
      : List (W × Phase) → ℕ → S → Type 0 where
    none_yet : Turns c l g x l g x
    more :
        {l' l'' : List (W × Phase)} {g' g'' : ℕ} {x' x'' : S}
        → Turns c l g x l' g' x'
        → Turn K c l' l'' g' g'' x' x''
        → Turns c l g x l'' g'' x''

  others :
      {c : Bool} {l : List (W × Phase)} {g : ℕ} {x : S} {l' : List (W × Phase)} {g' : ℕ} {x' : S}
      (y : W × Phase)
      → Turns c l g x l' g' x'
      → Turns c (y ∷ l) g x (y ∷ l') g' x'
  others y none_yet = none_yet
  others y (more r t) = more (others y r) (there y t)

  joined :
      {c : Bool} {l : List (W × Phase)} {g : ℕ} {x : S} {l' : List (W × Phase)} {g' : ℕ} {x' : S}
      {l'' : List (W × Phase)} {g'' : ℕ} {x'' : S}
      → Turns c l g x l' g' x'
      → Turns c l' g' x' l'' g'' x''
      → Turns c l g x l'' g'' x''
  joined r none_yet = r
  joined r (more q t) = more (joined r q) t

  Turns-Reach :
      (s : System W S) {l : List (W × Phase)} {g : ℕ} {x : S}
      → Turns s.shutdown_closed s.workers s.group s.shared l g x
      → Reach K s (record s { workers = l; group = g; shared = x })
  Turns-Reach s none_yet = start
  Turns-Reach s (more r t) = later (Turns-Reach s r) (turn t)

  -- All goroutines leave their loops, one after the other.
  drained :
      (l : List (W × Phase)) (g : ℕ) (x : S)
      → HaveBegun K l
      → g ≡ active K l
      → (l' : List (W × Phase)) × (x' : S) × Turns true l g x l' 0 x' × HaveEnded K l'
  drained [] g x begun at = ([], x, subst (λ k. Turns true [] g x [] k x) at none_yet, tt)
  drained ((w, spawned) ∷ rest) g x (h, all) at = absurd (h refl)
  drained ((w, starting) ∷ rest) g x (h, all) at =
      let (l', x', r, ends) = drained rest (active K rest) (first w x) all refl in
      let begun = more none_yet (here rest (begin g x)) in
      let left =
        more begun (here rest (quit g (active K rest) (first w x) refl (omega (arith, at)))) in
      ((w, ended) ∷ l', x', joined left (others (w, ended) r), (refl, ends))
  drained ((w, looping) ∷ rest) g x (h, all) at =
      let (l', x', r, ends) = drained rest (active K rest) x all refl in
      (
        (w, ended) ∷ l',
        x',
        joined (more none_yet (here rest (quit g (active K rest) x refl (omega (arith, at)))))
            (others (w, ended) r),
        (refl, ends),
      )
  drained ((w, ended) ∷ rest) g x (h, all) at =
      let (l', x', r, ends) = drained rest g x all (omega (arith, at)) in
      ((w, ended) ∷ l', x', others (w, ended) r, (refl, ends))

  -- Where every goroutine has begun, the group counts those that run, the channel is closed and `Stop`
  -- waits, some order of steps brings it to return nil, with every goroutine ended.
  pub stop_can_return :
      (s : System W S)
      → s.group ≡ active K s.workers
      → HaveBegun K s.workers
      → s.shutdown_closed ≡ true
      → s.stop ≡ waiting
      → (t : System W S) × Reach K s t × (t.stop ≡ returned_nil) × HaveEnded K t.workers
  stop_can_return s counted begun closed called =
      let (l, x, r, ends) = drained s.workers s.group s.shared begun counted in
      let quiet : System W S = record s { workers = l; group = 0; shared = x } in
      let waited : System W S = record quiet { waited = true } in
      let done : System W S = record waited { stop = returned_nil } in
      (
        done,
        later (later (Turns-Reach s (rw (sym closed) at r)) (wait closed refl))
            (finish called refl),
        refl,
        ends,
      )
