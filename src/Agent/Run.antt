-- ===== src/Agent/Run.antt =====
-- internal/cmd/agent/run.go: the command `run`, from its configuration to the end of the agent.
use smuggle.Prelude.{
  ℕ, List, [], ◌∷◌, ◌++◌, ◌≡◌, ◌≢◌, refl, ◌∙◌, sym, ap, subst, All, ◌⊎◌, inl, inr,
}
use smuggle.Prelude.Error.{Error, ok}
use smuggle.Prelude.State.{St, return, lift, ◌>>=◌, ◌>>◌, >>=-ok}
use smuggle.Config.Command.{Command}
use smuggle.Config.Cells.{Heap}
use smuggle.Config.Agent.{AgentConfig, Platform, validate}
use smuggle.Config.Files.{Files}
use smuggle.Config.Load.{load_config}
use smuggle.Agent.{
  Parts, Agent, Signal, sighup, Waiting, stopped, new_agent, start, wait_for_signal,
}
use smuggle.Agent.Shutdown.{IsQuiet, all_stopped, wait_for_signal_lem}

-- The process has exited with the status 1 behind the errors of the configuration, or the action
-- has returned nil or still waits.
pub data Ending : Type 0 where
  exited : List Error → Ending
  served : Waiting → Ending

module _ (F : Files) (H : Platform) (P : Parts) (attempts : ℕ) where
  unfoldable pub run_agent : AgentConfig → Heap → List Signal → St P.State Ending
  run_agent a h signals = do
    g ← new_agent P attempts a h
    start P g
    w ← wait_for_signal P g signals
    return (served w)

  unfoldable pub run_checked : AgentConfig → Heap → List Signal → List Error → St P.State Ending
  run_checked a h signals [] = run_agent a h signals
  run_checked a h signals (e ∷ rest) = return (exited (e ∷ rest))

  -- The action of the command, with the signals that come.
  unfoldable pub run_command : Command → List Signal → St P.State Ending
  run_command cmd signals = do
    (a, h) ← lift (load_config F cmd)
    errs ← lift (validate H a h)
    run_checked a h signals errs

  -- An agent was made and started, and has then waited, which brought it to the last state.
  abbrev pub IsServed : AgentConfig → Heap → List Signal → P.State → Waiting → P.State → Type 0
  IsServed a h signals s w t =
      (g : Agent P) × ((new_agent P attempts a h s).0 ≡ ok g)
      × ((start P g (new_agent P attempts a h s).1).0 ≡ ok tt)
      × (wait_for_signal P g signals (start P g (new_agent P attempts a h s).1).1 ≡ (ok w, t))

  abbrev pub Ends : AgentConfig → Heap → List Signal → P.State → Ending → P.State → Type 0
  Ends a h signals s (exited errs) t = (validate H a h ≡ ok errs) × (errs ≢ []) × (t ≡ s)
  Ends a h signals s (served w) t = (validate H a h ≡ ok []) × IsServed a h signals s w t

  run_agent-IsServed :
      (a : AgentConfig) (h : Heap) (signals : List Signal) (s : P.State) (end : Ending)
      → (run_agent a h signals s).0 ≡ ok end
      → (w : Waiting) × (end ≡ served w) × IsServed a h signals s w (run_agent a h signals s).1
  unfolding run_agent
  run_agent-IsServed a h signals s end done =
      let (g, made, done1, at1) = >>=-ok (new_agent P attempts a h) _ s done in
      let s1 = (new_agent P attempts a h s).1 in
      let (u, started, done2, at2) = >>=-ok (start P g) _ s1 done1 in
      let s2 = (start P g s1).1 in
      let (w, waited, done3, at3) =
        >>=-ok (wait_for_signal P g signals) (λ w. return (served w)) s2 done2 in
      let same : served w ≡ end = cc done3 in
      (
        w,
        sym same,
        (
          g,
          made,
          started,
          ap (λ r. (r, (wait_for_signal P g signals s2).1)) waited
              ∙ ap (λ r. (ok w, r.1)) (sym (at1 ∙ at2 ∙ at3)),
        ),
      )

  run_checked-Ends :
      (a : AgentConfig) (h : Heap) (signals : List Signal) (errs : List Error) (s : P.State)
      (end : Ending)
      → validate H a h ≡ ok errs
      → (run_checked a h signals errs s).0 ≡ ok end
      → Ends a h signals s end (run_checked a h signals errs s).1
  unfolding run_checked
  run_checked-Ends a h signals [] s end valid done =
      let (w, same, served_so) = run_agent-IsServed a h signals s end done in
      rw same (valid, served_so)
  run_checked-Ends a h signals (e ∷ rest) s end valid done =
      let same : exited (e ∷ rest) ≡ end = cc done in
      rw (sym same) (valid, λ none_there. cc none_there, refl)

  -- How the command ends for a configuration: with the errors that `Validate` finds and nothing
  -- done, or behind an agent that was made, started and stopped.
  abbrev pub Outcome : AgentConfig → Heap → P.State → Ending → P.State → Type 0
  Outcome a h s end t =
      ((errs : List Error) × (validate H a h ≡ ok errs)
        × (errs ≢ [])
        × (end ≡ exited errs)
        × (t ≡ s))
      ⊎ ((g : Agent P) × (validate H a h ≡ ok [])
          × (end ≡ served stopped)
          × ((new_agent P attempts a h s).0 ≡ ok g)
          × ((start P g (new_agent P attempts a h s).1).0 ≡ ok tt)
          × (t ≡ all_stopped P g (start P g (new_agent P attempts a h s).1).1))

  Ends-Outcome :
      (a : AgentConfig) (h : Heap) (hangups : List Signal) (x : Signal) (rest : List Signal)
      (s : P.State) (end : Ending) (t : P.State)
      → IsQuiet P
      → All (λ y. y ≡ sighup) hangups
      → x ≢ sighup
      → Ends a h (hangups ++ (x ∷ rest)) s end t
      → Outcome a h s end t
  Ends-Outcome a h hangups x rest s (exited errs) t quiet hung other (found, some_there, same) =
      inl (errs, found, some_there, refl, same)
  Ends-Outcome a h hangups x rest s (served w) t quiet hung other
        (valid, (g, made, started, waited)) =
      let s2 = (start P g (new_agent P attempts a h s).1).1 in
      let both : (ok stopped, all_stopped P g s2) ≡ (ok w, t) =
        sym (wait_for_signal_lem P g hangups x rest s2 quiet hung other) ∙ waited in
      let same : stopped ≡ w = cc both in
      inr (g, valid, ap served (sym same), made, started, sym (ap (λ p. p.1) both))

  -- A run of the command to which, behind any number of SIGHUP, another signal comes, and which ends
  -- without an error, has read a configuration. Either it exited with the errors of `Validate` and
  -- touched nothing, or `Validate` found none, the agent was made and started, and the signal has
  -- told all its parts to stop, one after the other and whatever errors they return, where no stop of
  -- a part panics.
  pub run_command-Outcome :
      (cmd : Command) (hangups : List Signal) (x : Signal) (rest : List Signal) (s : P.State)
      (end : Ending)
      → IsQuiet P
      → All (λ y. y ≡ sighup) hangups
      → x ≢ sighup
      → (run_command cmd (hangups ++ (x ∷ rest)) s).0 ≡ ok end
      → (a : AgentConfig) × (h : Heap) × (load_config F cmd ≡ ok (a, h))
        × Outcome a h s end (run_command cmd (hangups ++ (x ∷ rest)) s).1
  unfolding run_command
  run_command-Outcome cmd hangups x rest s end quiet hung other done =
      let signals = hangups ++ (x ∷ rest) in
      let ((a, h), loaded, done1, at1) = >>=-ok (lift (load_config F cmd)) _ s done in
      let (errs, valid, done2, at2) =
        >>=-ok (lift (validate H a h)) (run_checked a h signals) s done1 in
      let ends = run_checked-Ends a h signals errs s end valid done2 in
      (
        a,
        h,
        loaded,
        subst (Outcome a h s end) (sym (ap (λ r. r.1) (at1 ∙ at2)))
            (Ends-Outcome a h hangups x rest s end _ quiet hung other ends),
      )
