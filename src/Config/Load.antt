-- ===== src/Config/Load.antt =====
-- internal/cmd/agent/run.go: the configuration that the command `run` ends up with.
pub mod Effective
use smuggle.Prelude.{ℕ, String, Option, none, some, List}
use smuggle.Prelude.Error.{Error, Result, ok, panic, ◌>>=◌}
use smuggle.Config.Command.{Command}
use smuggle.Config.Cells.{Heap, empty_heap}
use smuggle.Config.Agent.{
  AgentConfig, Platform, default_agent_config, agent_config_from_command, merge, validate,
}
use smuggle.Config.Files.{Files, agent_config_from_files}

abbrev pub not_nil : Option AgentConfig → Heap → Result (AgentConfig × Heap)
not_nil none h = panic "nil pointer dereference"
not_nil (some a) h = ok (a, h)

-- The result of the first `Merge` is not kept, but what it writes through pointers is.
abbrev pub merge_command :
    AgentConfig → Option AgentConfig → Command → Heap → Result (AgentConfig × Heap)
merge_command defaults file cmd h =
    let (unused, h1) = merge (some defaults) file h in
    let (given, h2) = agent_config_from_command cmd h1 in
    let (merged, h3) = merge (some defaults) (some given) h2 in not_nil merged h3

unfoldable pub load_config : Files → Command → Result (AgentConfig × Heap)
load_config F cmd =
    let (defaults, h) = default_agent_config empty_heap in
    agent_config_from_files F cmd h >>= λ (file, h1). merge_command defaults file cmd h1

-- The errors on which the command exits.
unfoldable pub check_config : Files → Platform → Command → Result (List Error)
check_config F P cmd = load_config F cmd >>= λ (a, h). validate P a h
