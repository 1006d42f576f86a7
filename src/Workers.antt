-- ===== src/Workers.antt =====
-- How the client and the server end their goroutines, in internal/agent/client and
-- internal/agent/server: a channel that is closed, a wait group, and a `Stop` that waits with a
-- timer. The steps of the goroutines and of `Stop` come in any order.
pub mod Shutdown
pub mod Progress
pub mod Late
pub mod Keeps
use smuggle.Prelude.{ℕ, suc, Bool, true, false, List, [], ◌∷◌, ◌≡◌}

-- A goroutine is spawned by its `go` statement; its first statement is `shutdownGroup.Add(1)`, and
-- the deferred `Done` is its last.
pub data Phase : Type 0 where
  spawned starting looping ended : Phase

-- Where a call of `Stop` is: the result is nil or the error of the timer.
pub data StopPhase : Type 0 where
  not_called waiting returned_nil timed_out : StopPhase

-- What a kind of goroutine does to the state that it shares with others: before its loop, and for
-- each event that its loop receives.
pub record Work (W E S : Type 0) : Type 0 where
  pub first : W → S → S
  pub handle : W → E → S → S

-- `waited` says that the channel is closed that a goroutine of `Stop` closes behind `Wait`.
pub record System (W S : Type 0) : Type 0 where
  pub workers : List (W × Phase)
  pub shutdown_closed : Bool
  pub group : ℕ
  pub waited : Bool
  pub stop : StopPhase
  pub shared : S

module _ {W E S : Type 0} (K : Work W E S) where
  open K use {first, handle}

  -- A step of one goroutine. While the channel is open it cannot leave its loop, and behind that a
  -- select may still choose an event.
  pub data Act (closed : Bool) (w : W) : Phase → Phase → ℕ → ℕ → S → S → Type 0 where
    add : (g : ℕ) (x : S) → Act closed w spawned starting g (suc g) x x
    begin : (g : ℕ) (x : S) → Act closed w starting looping g g x (first w x)
    event : (e : E) (g : ℕ) (x : S) → Act closed w looping looping g g x (handle w e x)
    quit : (g g' : ℕ) (x : S) → closed ≡ true → g ≡ suc g' → Act closed w looping ended g g' x x

  pub data Turn (closed : Bool) : List (W × Phase) → List (W × Phase) → ℕ → ℕ → S → S → Type 0 where
    here :
        {w : W} {p q : Phase} {g g' : ℕ} {x x' : S} (rest : List (W × Phase))
        → Act closed w p q g g' x x'
        → Turn closed ((w, p) ∷ rest) ((w, q) ∷ rest) g g' x x'
    there :
        {l l' : List (W × Phase)} {g g' : ℕ} {x x' : S} (y : W × Phase)
        → Turn closed l l' g g' x x'
        → Turn closed (y ∷ l) (y ∷ l') g g' x x'

  -- A step of a goroutine, of `Stop`, of its own goroutine at `Wait`, or of its select.
  pub data Step (s : System W S) : System W S → Type 0 where
    turn :
        {l : List (W × Phase)} {g : ℕ} {x : S}
        → Turn s.shutdown_closed s.workers l s.group g s.shared x
        → Step s (record s { workers = l; group = g; shared = x })
    close : s.stop ≡ not_called → Step s (record s { shutdown_closed = true; stop = waiting })
    wait : s.shutdown_closed ≡ true → s.group ≡ 0 → Step s (record s { waited = true })
    finish : s.stop ≡ waiting → s.waited ≡ true → Step s (record s { stop = returned_nil })
    time_out : s.stop ≡ waiting → Step s (record s { stop = timed_out })

  pub data Reach (s : System W S) : System W S → Type 0 where
    start : Reach s s
    later : {t u : System W S} → Reach s t → Step t u → Reach s u
