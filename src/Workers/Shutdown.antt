-- ===== src/Workers/Shutdown.antt =====
-- What a `Stop` that returns nil means for goroutines that had all begun.
use smuggle.Prelude.{ℕ, ◌+◌, Bool, true, false, List, [], ◌∷◌, ◌≡◌, ◌≢◌, refl, arith, All, ◌∙◌, sym}
use smuggle.Workers.{
  Phase, spawned, starting, looping, ended, not_called, returned_nil, Work, System, Act, add, begin,
  event, quit, Turn, here, there, Step, turn, close, wait, finish, time_out, Reach, start, later,
}

abbrev pub weight : Phase → ℕ
weight spawned = 0
weight starting = 1
weight looping = 1
weight ended = 0

module _ {W E S : Type 0} (K : Work W E S) where
  -- The goroutines between their `Add` and their `Done`.
  abbrev pub active : List (W × Phase) → ℕ
  active [] = 0
  active ((w, p) ∷ rest) = weight p + active rest

  abbrev pub HaveBegun : List (W × Phase) → Type 0
  HaveBegun = All (λ (y : W × Phase). y.1 ≢ spawned)

  abbrev pub HaveEnded : List (W × Phase) → Type 0
  HaveEnded = All (λ (y : W × Phase). y.1 ≡ ended)

  Act-weight :
      {c : Bool} {w : W} {p q : Phase} {g g' : ℕ} {x x' : S}
      → Act K c w p q g g' x x'
      → g + weight q ≡ g' + weight p
  Act-weight (add g x) = omega arith
  Act-weight (begin g x) = refl
  Act-weight (event e g x) = refl
  Act-weight (quit g g' x closed e) = omega (arith, e)

  Act-HaveBegun :
      {c : Bool} {w : W} {p q : Phase} {g g' : ℕ} {x x' : S} → Act K c w p q g g' x x' → q ≢ spawned
  Act-HaveBegun (add g x) = λ e. cc e
  Act-HaveBegun (begin g x) = λ e. cc e
  Act-HaveBegun (event e g x) = λ e'. cc e'
  Act-HaveBegun (quit g g' x closed e) = λ e'. cc e'

  Act-from_ended :
      {c : Bool} {w : W} {p q : Phase} {g g' : ℕ} {x x' : S} → Act K c w p q g g' x x' → p ≢ ended
  Act-from_ended (add g x) = λ e. cc e
  Act-from_ended (begin g x) = λ e. cc e
  Act-from_ended (event e g x) = λ e'. cc e'
  Act-from_ended (quit g g' x closed e) = λ e'. cc e'

  -- The group counts the active goroutines.
  Turn-active :
      {c : Bool} {l l' : List (W × Phase)} {g g' : ℕ} {x x' : S}
      → Turn K c l l' g g' x x'
      → g + active l' ≡ g' + active l
  Turn-active (here rest a) = omega (arith, Act-weight a)
  Turn-active (there y t) = omega (arith, Turn-active t)

  Turn-HaveBegun :
      {c : Bool} {l l' : List (W × Phase)} {g g' : ℕ} {x x' : S}
      → Turn K c l l' g g' x x'
      → HaveBegun l
      → HaveBegun l'
  Turn-HaveBegun (here rest a) (h, all) = (Act-HaveBegun a, all)
  Turn-HaveBegun (there y t) (h, all) = (h, Turn-HaveBegun t all)

  Turn-from_ended :
      {c : Bool} {l l' : List (W × Phase)} {g g' : ℕ} {x x' : S}
      → Turn K c l l' g g' x x'
      → ¬ (HaveEnded l)
  Turn-from_ended (here rest a) (h, all) = Act-from_ended a h
  Turn-from_ended (there y t) (h, all) = Turn-from_ended t all

  idle-HaveEnded : (l : List (W × Phase)) → HaveBegun l → active l ≡ 0 → HaveEnded l
  idle-HaveEnded [] begun none = tt
  idle-HaveEnded ((w, spawned) ∷ rest) (h, all) none = absurd (h refl)
  idle-HaveEnded ((w, starting) ∷ rest) (h, all) none = absurd (omega arith)
  idle-HaveEnded ((w, looping) ∷ rest) (h, all) none = absurd (omega arith)
  idle-HaveEnded ((w, ended) ∷ rest) (h, all) none =
      (refl, idle-HaveEnded rest all (omega (arith, none)))

  -- The group is right, nothing is still to begin, and a wait that is over found no goroutine.
  pub record IsCounted (s : System W S) : Type 0 where
    pub counted : s.group ≡ active s.workers
    pub begun : HaveBegun s.workers
    pub awaited : s.waited ≡ true → HaveEnded s.workers
    pub returned : s.stop ≡ returned_nil → s.waited ≡ true

  Step-IsCounted : {s t : System W S} → Step K s t → IsCounted s → IsCounted t
  Step-IsCounted {s = s} (turn {l = l} t) h = record {
    counted = omega (arith, Turn-active t, h.counted);
    begun = Turn-HaveBegun t h.begun;
    awaited = λ e. absurd (Turn-from_ended t (h.awaited e));
    returned = h.returned;
  }
  Step-IsCounted (close e) h = record {
    counted = h.counted;
    begun = h.begun;
    awaited = h.awaited;
    returned = λ e. cc e;
  }
  Step-IsCounted {s = s} (wait c e) h = record {
    counted = h.counted;
    begun = h.begun;
    awaited = λ _. idle-HaveEnded s.workers h.begun (sym h.counted ∙ e);
    returned = λ _. refl;
  }
  Step-IsCounted (finish e waited) h = record {
    counted = h.counted;
    begun = h.begun;
    awaited = h.awaited;
    returned = λ _. waited;
  }
  Step-IsCounted (time_out e) h = record {
    counted = h.counted;
    begun = h.begun;
    awaited = h.awaited;
    returned = λ e'. cc e';
  }

  pub Reach-IsCounted : {s t : System W S} → Reach K s t → IsCounted s → IsCounted t
  Reach-IsCounted start h = h
  Reach-IsCounted (later r st) h = Step-IsCounted st (Reach-IsCounted r h)

  Step-quiet :
      {t u : System W S}
      → Step K t u
      → HaveEnded t.workers
      → (u.shared ≡ t.shared) × HaveEnded u.workers
  Step-quiet (turn t) h = absurd (Turn-from_ended t h)
  Step-quiet (close e) h = (refl, h)
  Step-quiet (wait c e) h = (refl, h)
  Step-quiet (finish e w) h = (refl, h)
  Step-quiet (time_out e) h = (refl, h)

  Reach-quiet :
      {t u : System W S}
      → Reach K t u
      → HaveEnded t.workers
      → (u.shared ≡ t.shared) × HaveEnded u.workers
  Reach-quiet start h = (refl, h)
  Reach-quiet (later r st) h =
      let (same, ends) = Reach-quiet r h in
      let (same', ends') = Step-quiet st ends in (same' ∙ same, ends')

  -- In `s` every goroutine has begun, with its `Add`, the group counts those that run, and `Stop` is
  -- not called yet. Where it has then returned nil in `t`, every goroutine has ended, and nothing that
  -- they share changes any more, whatever steps follow.
  pub stop_returned_lem :
      {s t u : System W S}
      → s.group ≡ active s.workers
      → HaveBegun s.workers
      → s.waited ≡ false
      → s.stop ≡ not_called
      → Reach K s t
      → t.stop ≡ returned_nil
      → Reach K t u
      → HaveEnded t.workers × (u.shared ≡ t.shared)
  stop_returned_lem counted begun open_yet fresh r done after =
      let h = Reach-IsCounted r (record {
        counted = counted;
        begun = begun;
        awaited = λ e. cc (e, open_yet);
        returned = λ e. cc (e, fresh);
      }) in
      let all = h.awaited (h.returned done) in let (same, _) = Reach-quiet after all in (all, same)
