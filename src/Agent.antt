-- ===== src/Agent.antt =====
-- internal/agent: the agent, which makes its parts from the configuration, starts and stops them.
pub mod Modes
pub mod Shutdown
pub mod Run
use smuggle.Prelude.{
  ℕ, String, Bool, true, false, not, Option, none, some, List, [], ◌∷◌, if◌then◌else◌, ◌==◌,
  string_eq,
}
use smuggle.Prelude.Error.{Error, Result, ok, err, panic, errorf, wrap, map_err}
use smuggle.Prelude.Error.{◌>>=◌ as ◌then_try◌}
use smuggle.Prelude.Int.{ℤ}
use smuggle.Prelude.State.{St, return, fail, lift, on_error, ◌>>=◌, ◌>>◌}
use smuggle.Config.Merge.{is_true}
use smuggle.Config.Client
use smuggle.Config.Client.{ClientConfig}
use smuggle.Config.Http.{HttpConfig}
use smuggle.Config.Log.{LogConfig}
use smuggle.Config.Nomad.{ApiConfig, nomad_client_config}
use smuggle.Config.Cells.{Heap, StoreConfig}
use smuggle.Config.Server
use smuggle.Config.Agent.{AgentConfig}
use smuggle.Http.{Server, new_server}
use smuggle.Vxlan.Retry.{retry}

abbrev pub deref : {A : Type 0} → Option A → Result A
deref none = panic "nil pointer dereference"
deref (some a) = ok a

-- What `New` in internal/log sets of zap's production configuration, before `Build`.
pub record Logger (Level : Type 0) : Type 0 where
  pub disable_stacktrace : Bool
  pub level : Level
  pub encoding : String
  pub disable_caller : Bool
  pub encode_time : String

unfoldable pub new_logger : {L : Type 0} → (String → Result L) → LogConfig → Result (Logger L)
new_logger parse_atomic_level cfg = parse_atomic_level cfg.level then_try λ level.
    deref cfg.json then_try λ json. deref cfg.include_line then_try λ include_line. ok (record {
      disable_stacktrace = true;
      level = level;
      encoding = if json then "json" else "console";
      disable_caller = not include_line;
      encode_time = if json then "rfc3339nano" else "iso8601";
    })

-- What the agent uses of other packages: zap and Nomad's API, `decimal` for the text of a number, and
-- of the client and the server that it runs. `leader` asks Nomad for its leader, `new_manager` is
-- the network manager for an interface, and the store on Nomad variables has a path.
pub record Parts : Type 1 where
  pub State : Type 0
  pub Level : Type 0
  pub Nomad : Type 0
  pub Manager : Type 0
  pub parse_atomic_level : String → Result Level
  pub build : Logger Level → Result (Unit {0})
  pub decimal : ℕ → String
  pub default_config : ApiConfig
  pub new_client : ApiConfig → Result Nomad
  pub leader : Nomad → St State (Unit {0})
  pub new_manager : String → St State Manager
  pub start_client : ClientConfig × Manager × Nomad × String → St State (Unit {0})
  pub stop_client : ClientConfig × Manager × Nomad × String → St State (Unit {0})
  pub start_server : ℕ × Nomad × String → St State (Unit {0})
  pub stop_server : ℕ × Nomad × String → St State (Unit {0})
  pub start_http : Server → St State (Unit {0})
  pub shutdown_http : Server → St State (Unit {0})

pub data Signal : Type 0 where
  interrupt sigterm sighup : Signal

-- What waiting for signals has come to.
pub data Waiting : Type 0 where
  blocked stopped : Waiting

module _ (P : Parts) where
  -- A client and a server with the store that they use.
  pub record Agent : Type 0 where
    pub http_server : Option Server
    pub client : Option (ClientConfig × P.Manager × P.Nomad × String)
    pub server : Option (ℕ × P.Nomad × String)

  -- The number of retries is that of `Retry`.
  module _ (attempts : ℕ) (a : AgentConfig) (h : Heap) where
    unfoldable pub setup_nomad_client : St P.State P.Nomad
    setup_nomad_client = do
      nomad ←
          on_error (wrap "failed to create Nomad client: %w")
            (lift (P.new_client (nomad_client_config P.default_config a.nomad)))
      retry attempts (P.leader nomad)
      return nomad

    abbrev pub nvar_path : Option ℕ → Result String
    nvar_path none = panic "nil pointer dereference"
    nvar_path (some r) = ok (h.nvars r)

    abbrev pub store_path : StoreConfig → Result String
    store_path cfg =
        if cfg.backend == "nvar"
        then nvar_path cfg.nvar
        else err (errorf "unsupported store backend: %q" (cfg.backend ∷ []))

    unfoldable pub setup_store : St P.State (P.Nomad × String)
    unfolding setup_nomad_client
    setup_store = do
      nomad ← setup_nomad_client
      cfg ← lift (deref a.store)
      path ← lift (store_path cfg)
      return (nomad, path)

    unfoldable pub setup_client : St P.State (ClientConfig × P.Manager × P.Nomad × String)
    unfolding setup_store
    setup_client = do
      (nomad, path) ← on_error (wrap "failed to setup store: %w") setup_store
      cfg ← lift (deref a.client)
      manager ←
          on_error (wrap "failed to create network manager: %w")
            (P.new_manager cfg.network_interface)
      return (cfg, manager, nomad, path)

    unfoldable pub setup_server : St P.State (ℕ × P.Nomad × String)
    unfolding setup_store
    setup_server = do
      (nomad, path) ← on_error (wrap "failed to setup store: %w") setup_store
      cfg ← lift (deref a.server)
      return (cfg, nomad, path)

    abbrev pub setup_http : Option HttpConfig → Result (Option Server)
    setup_http none = ok none
    setup_http (some cfg) =
        if is_true cfg.enabled
        then (new_server P.decimal cfg then_try λ s. ok (some s))
        else ok none

    abbrev pub built_logger : LogConfig → Result (Unit {0})
    built_logger log = new_logger P.parse_atomic_level log then_try P.build

    -- A part that is made where it is enabled.
    abbrev pub when : {A : Type 0} → Bool → St P.State A → St P.State (Option A)
    when true m = m >>= λ x. return (some x)
    when false m = return none

    -- `New`
    unfoldable pub new_agent : St P.State Agent
    new_agent = do
      log ← lift (deref a.log)
      logger ← on_error (wrap "failed to create logger: %w") (lift (built_logger log))
      http ← lift (setup_http a.http)
      client ←
          when (Client.is_enabled a.client)
            (on_error (wrap "failed to setup client: %w") setup_client)
      server ←
          when (Server.is_enabled h a.server)
            (on_error (wrap "failed to setup server: %w") setup_server)
      return (record { http_server = http; client = client; server = server })

  -- A step of `Start` or `Stop` on a part that may not be there.
  abbrev pub for_part :
      {A : Type 0} → (A → St P.State (Unit {0})) → Option A → St P.State (Unit {0})
  for_part f none = return tt
  for_part f (some x) = f x

  unfoldable pub start : Agent → St P.State (Unit {0})
  start a = do
    for_part (λ x. on_error (wrap "failed to start client: %w") (P.start_client x)) a.client
    for_part (λ x. on_error (wrap "failed to start server: %w") (P.start_server x)) a.server
    for_part (λ x. on_error (wrap "failed to start HTTP server: %w") (P.start_http x)) a.http_server

  -- An error is written to the log.
  abbrev pub log_error : St P.State (Unit {0}) → St P.State (Unit {0})
  log_error m s =
      let (r, t) = m s in (elim r [ ok u ↦ ok u | err e ↦ ok tt | panic p ↦ panic p ], t)

  unfoldable pub stop : Agent → St P.State (Unit {0})
  stop a = do
    for_part (λ x. log_error (P.shutdown_http x)) a.http_server
    for_part (λ x. log_error (P.stop_client x)) a.client
    for_part (λ x. log_error (P.stop_server x)) a.server

  -- `WaitForSignal` on the signals that come.
  unfoldable pub wait_for_signal : Agent → List Signal → St P.State Waiting
  unfolding stop
  wait_for_signal a [] = return blocked
  wait_for_signal a (sighup ∷ rest) = wait_for_signal a rest
  wait_for_signal a (interrupt ∷ rest) = stop a >>= λ u. return stopped
  wait_for_signal a (sigterm ∷ rest) = stop a >>= λ u. return stopped
