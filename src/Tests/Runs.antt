-- ===== src/Tests/Runs.antt =====
-- A run of the command with a configuration file that enables the server.
use smuggle.Prelude.{String, List, [], ◌∷◌, ◌≡◌, refl}
use smuggle.Prelude.Error.{ok}
use smuggle.Config.Cells.{Heap}
use smuggle.Config.Agent.{AgentConfig}
use smuggle.Config.Files.{parse_agent_config_file, parse_hcl_config_file}
use smuggle.Config.Load.{load_config}
use smuggle.Http.{new_server, setup_router, logger_method}
use smuggle.Vxlan.Retry.{retry, retry_from}
use smuggle.Agent.{
  interrupt, sigterm, sighup, stopped, new_agent, new_logger, setup_client, setup_server,
  setup_store, setup_nomad_client, start, stop, wait_for_signal,
}
use smuggle.Agent.Run.{Outcome, served, run_agent, run_checked, run_command, run_command-Outcome}
use smuggle.Tests.Configs.{files, command}
use smuggle.Tests.Agents.{parts, platform, parts-IsQuiet, interrupt_differs}

abbrev calls : List String
calls = (run_command files platform parts 3 command (sighup ∷ (interrupt ∷ (sigterm ∷ []))) []).1

run_ok :
    (run_command files platform parts 3 command (sighup ∷ (interrupt ∷ (sigterm ∷ []))) []).0
    ≡ ok (served stopped)
unfolding run_command run_checked run_agent load_config parse_agent_config_file
    parse_hcl_config_file new_agent new_logger setup_client setup_server setup_store
    setup_nomad_client new_server setup_router logger_method retry retry_from start stop
    wait_for_signal
run_ok = refl

-- The server and the HTTP server are started, and stopped in the other order.
run_calls :
    calls ≡ "stop server" ∷ ("shutdown http" ∷ ("start http" ∷ ("start server" ∷ ("leader" ∷ []))))
unfolding run_command run_checked run_agent load_config parse_agent_config_file
    parse_hcl_config_file new_agent new_logger setup_client setup_server setup_store
    setup_nomad_client new_server setup_router logger_method retry retry_from start stop
    wait_for_signal
run_calls = refl

run_command-Outcome_example :
    (a : AgentConfig) × (h : Heap) × (load_config files command ≡ ok (a, h))
    × Outcome files platform parts 3 a h [] (served stopped) calls
run_command-Outcome_example =
    run_command-Outcome files platform parts 3 command (sighup ∷ []) interrupt (sigterm ∷ []) []
      (served stopped) parts-IsQuiet (refl, tt) interrupt_differs run_ok
