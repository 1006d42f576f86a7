-- ===== src/Agent/Shutdown.antt =====
-- What a signal does to an agent.
use smuggle.Prelude.{
  ℕ, String, Option, none, some, List, [], ◌∷◌, ◌++◌, ◌≡◌, ◌≢◌, refl, All, inl, inr,
}
use smuggle.Prelude.Error.{Result-cases, ok, panic}
use smuggle.Prelude.State.{St}
use smuggle.Http.{Server}
use smuggle.Config.Client.{ClientConfig}
use smuggle.Agent.{
  Parts, Agent, Signal, interrupt, sigterm, sighup, stopped, stop, wait_for_signal, for_part,
  log_error,
}

-- Calls that return, with or without an error.
abbrev pub Returns : {S A : Type 0} → St S A → Type 0
Returns {S = S} m = (s : S) (p : String) → (m s).0 ≢ panic p

module _ (P : Parts) where
  -- The stops of the parts.
  pub record IsQuiet : Type 0 where
    pub shutdown_http : (x : Server) → Returns (P.shutdown_http x)
    pub stop_client : (x : ClientConfig × P.Manager × P.Nomad × String) → Returns (P.stop_client x)
    pub stop_server : (x : ℕ × P.Nomad × String) → Returns (P.stop_server x)

  -- The state after a call, whatever it returns.
  abbrev pub after : {A : Type 0} → (A → St P.State (Unit {0})) → Option A → P.State → P.State
  after f none s = s
  after f (some x) s = (f x s).1

  -- The HTTP server is stopped first, then the client, then the server.
  abbrev pub all_stopped : Agent P → P.State → P.State
  all_stopped a s =
      after P.stop_server a.server
        (after P.stop_client a.client (after P.shutdown_http a.http_server s))

  log_error-Returns :
      (m : St P.State (Unit {0})) (s : P.State) → Returns m → log_error P m s ≡ (ok tt, (m s).1)
  log_error-Returns m s quiet = elim (Result-cases (m s).0) [
    | inl (u, e) ↦ rw e refl
    | inr (inl (x, e)) ↦ rw e refl
    | inr (inr (p, e)) ↦ absurd (quiet s p e)
  ]

  for_part_lem :
      {A : Type 0} (f : A → St P.State (Unit {0})) (o : Option A) (s : P.State)
      → ((x : A) → Returns (f x))
      → for_part P (λ x. log_error P (f x)) o s ≡ (ok tt, after f o s)
  for_part_lem f none s quiet = refl
  for_part_lem f (some x) s quiet = log_error-Returns (f x) s (quiet x)

  stop_lem : (a : Agent P) (s : P.State) → IsQuiet → stop P a s ≡ (ok tt, all_stopped a s)
  unfolding stop
  stop_lem a s quiet =
      rw
        (
          for_part_lem P.shutdown_http a.http_server s quiet.shutdown_http,
          for_part_lem P.stop_client a.client (after P.shutdown_http a.http_server s)
              quiet.stop_client,
          for_part_lem P.stop_server a.server _ quiet.stop_server,
        )
        refl

  -- Signals SIGHUP do nothing. At the first other one all parts are told to stop, one after the other
  -- and whatever errors they return, and no later signal is looked at.
  pub wait_for_signal_lem :
      (a : Agent P) (hangups : List Signal) (x : Signal) (rest : List Signal) (s : P.State)
      → IsQuiet
      → All (λ y. y ≡ sighup) hangups
      → x ≢ sighup
      → wait_for_signal P a (hangups ++ (x ∷ rest)) s ≡ (ok stopped, all_stopped a s)
  unfolding wait_for_signal
  wait_for_signal_lem a [] interrupt rest s quiet hung other = rw (stop_lem a s quiet) refl
  wait_for_signal_lem a [] sigterm rest s quiet hung other = rw (stop_lem a s quiet) refl
  wait_for_signal_lem a [] sighup rest s quiet hung other = absurd (other refl)
  wait_for_signal_lem a (y ∷ hangups) x rest s quiet (is, hung) other =
      rw is (wait_for_signal_lem a hangups x rest s quiet hung other)
