-- ===== src/Tests/Agents.antt =====
-- A client agent, and the theorems on agents applied to it.
use smuggle.Prelude.{String, true, false, not, none, some, List, [], ◌∷◌, ◌≡◌, ◌≢◌, refl}
use smuggle.Prelude.Error.{ok, err, errorf}
use smuggle.Prelude.State.{St}
use smuggle.Config.Merge.{is_true}
use smuggle.Config.Client
use smuggle.Config.Client.{ClientConfig, default_client_config}
use smuggle.Config.Http.{default_http_config}
use smuggle.Config.Log.{default_log_config}
use smuggle.Config.Nomad.{ApiConfig}
use smuggle.Config.Cells.{Heap, empty_heap}
use smuggle.Config.Agent.{AgentConfig, Platform, default_agent_config}
use smuggle.Prelude.Int.{pos}
use smuggle.Http.{debug, get_health, Server, new_server, setup_router, logger_method}
use smuggle.Vxlan.Retry.{retry, retry_from}
use smuggle.Agent.{
  Parts, Agent, Signal, interrupt, sighup, new_agent, new_logger, setup_client, setup_server,
  setup_store, setup_nomad_client,
}
use smuggle.Agent.Modes.{is_there, new_agent_one_mode}
use smuggle.Agent.Shutdown.{IsQuiet}

-- The state is the list of what was called; stopping the client gives an error.
abbrev pub called : String → St (List String) (Unit {0})
called x s = (ok tt, x ∷ s)

abbrev pub failing : String → St (List String) (Unit {0})
failing x s = (err (errorf x []), x ∷ s)

abbrev pub parts : Parts
parts = record {
  State = List String;
  Level = String;
  Nomad = ApiConfig;
  Manager = String;
  parse_atomic_level = λ t. ok t;
  build = λ l. ok tt;
  decimal = λ n. "9090";
  default_config = record {
    api_address = "http://127.0.0.1:4646";
    secret_id = "";
    tls_ca_cert = "";
    tls_ca_path = "";
    tls_client_cert = "";
    tls_client_key = "";
    tls_server_name = "";
    insecure = false;
  };
  new_client = λ c. ok c;
  leader = λ c. called "leader";
  new_manager = λ i s. (ok i, s);
  start_client = λ x. called "start client";
  stop_client = λ x. failing "stop client";
  start_server = λ x. called "start server";
  stop_server = λ x. called "stop server";
  start_http = λ x. called "start http";
  shutdown_http = λ x. called "shutdown http";
}

pub parts-IsQuiet : IsQuiet parts
parts-IsQuiet = record {
  shutdown_http = λ x s p e. cc e;
  stop_client = λ x s p e. cc e;
  stop_server = λ x s p e. cc e;
}

abbrev enabled_client : ClientConfig
enabled_client = record default_client_config { enabled = some true }

abbrev start_from : AgentConfig × Heap
start_from = default_agent_config empty_heap

abbrev cfg : AgentConfig
cfg = record start_from.0 { client = some enabled_client }

abbrev heap : Heap
heap = start_from.1

abbrev pub platform : Platform
platform = record { goos = "linux"; is_abs = λ p. true; to_lower = λ t. t; parse_level = λ t. none }

-- The agent with its HTTP server and its client.
abbrev http_part : Server
http_part = record {
  addr = "localhost:9090";
  router = record { access_log = debug; routes = ("/v1/system/health", get_health) ∷ [] };
  read_timeout = pos 10000000000;
  write_timeout = pos 10000000000;
  idle_timeout = pos 60000000000;
}

abbrev nomad : ApiConfig
nomad = record parts.default_config { api_address = "http://localhost:4646" }

abbrev agent : Agent parts
agent = record {
  http_server = some http_part;
  client = some (enabled_client, "", nomad, "smuggle/");
  server = none;
}

agent_made : (new_agent parts 3 cfg heap []).0 ≡ ok agent
unfolding new_agent new_logger setup_client setup_server setup_store setup_nomad_client new_server
    setup_router logger_method retry retry_from
agent_made = refl

new_agent_one_mode_example :
    (is_there agent.client ≡ not (is_there agent.server))
    × (is_there agent.client ≡ Client.is_enabled cfg.client)
    × (is_there agent.http_server ≡ is_true default_http_config.enabled)
new_agent_one_mode_example =
    new_agent_one_mode parts 3 cfg heap platform default_http_config default_log_config
      (record { backend = "nvar"; nvar = some 2 }) [] agent refl refl refl refl agent_made

pub interrupt_differs : ◌≢◌ {A = Signal} interrupt sighup
interrupt_differs e = cc e
