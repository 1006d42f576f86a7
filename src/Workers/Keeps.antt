-- ===== src/Workers/Keeps.antt =====
-- What every goroutine keeps of the shared state holds in every order of steps.
use smuggle.Prelude.{ℕ, Bool, List, All}
use smuggle.Workers.{
  Phase, Work, System, Act, add, begin, event, quit, Turn, here, there, Step, turn, close, wait,
  finish, time_out, Reach, start, later,
}

module _ {W E S : Type 0} (K : Work W E S) (P : S → Type 0) where
  open K use {first, handle}

  abbrev pub Keeps : W → Type 0
  Keeps w = ((x : S) → P x → P (first w x)) × ((e : E) (x : S) → P x → P (handle w e x))

  abbrev pub AllKeep : List (W × Phase) → Type 0
  AllKeep = All (λ (y : W × Phase). Keeps y.0)

  Act-P :
      {c : Bool} {w : W} {p q : Phase} {g g' : ℕ} {x x' : S}
      → Act K c w p q g g' x x'
      → Keeps w
      → P x
      → P x'
  Act-P (add g x) k h = h
  Act-P (begin g x) k h = k.0 x h
  Act-P (event e g x) k h = k.1 e x h
  Act-P (quit g g' x closed e) k h = h

  Turn-P :
      {c : Bool} {l l' : List (W × Phase)} {g g' : ℕ} {x x' : S}
      → Turn K c l l' g g' x x'
      → AllKeep l
      → P x
      → AllKeep l' × P x'
  Turn-P (here rest a) (k, all) h = ((k, all), Act-P a k h)
  Turn-P (there y t) (k, all) h = let (all', h') = Turn-P t all h in ((k, all'), h')

  Step-P :
      {s t : System W S}
      → Step K s t
      → AllKeep s.workers
      → P s.shared
      → AllKeep t.workers × P t.shared
  Step-P (turn t) all h = Turn-P t all h
  Step-P (close e) all h = (all, h)
  Step-P (wait c e) all h = (all, h)
  Step-P (finish e w) all h = (all, h)
  Step-P (time_out e) all h = (all, h)

  pub Reach-P :
      {s t : System W S}
      → Reach K s t
      → AllKeep s.workers
      → P s.shared
      → AllKeep t.workers × P t.shared
  Reach-P start all h = (all, h)
  Reach-P (later r st) all h = let (all', h') = Reach-P r all h in Step-P st all' h'
