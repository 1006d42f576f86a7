-- ===== src/Config/Agent.antt =====
-- internal/config/agent.go: the sections together, and the files that they are read from.
use smuggle.Prelude.{
  ℕ, String, Bool, ◌&&◌, not, Option, none, some, List, [], ◌∷◌, ◌++◌, if◌then◌else◌, string_eq,
}
use smuggle.Prelude.Error.{Error, Result, ok, panic, new_error, ◌>>=◌}
use smuggle.Config.Merge.{merge_with}
use smuggle.Config.Command.{Command, Flag, string_slice_flag}
use smuggle.Config.Client
use smuggle.Config.Client.{
  ClientConfig, default_client_config, client_config_from_command, client_config_command_flags,
}
use smuggle.Config.Http
use smuggle.Config.Http.{
  HttpConfig, default_http_config, http_config_from_command, http_config_command_flags,
}
use smuggle.Config.Log
use smuggle.Config.Log.{
  LogConfig, default_log_config, log_config_from_command, log_config_command_flags,
}
use smuggle.Config.Nomad
use smuggle.Config.Nomad.{
  NomadConfig, default_nomad_config, nomad_config_from_command, nomad_config_command_flags,
}
use smuggle.Config.Cells.{StoreConfig, Heap}
use smuggle.Config.Server
use smuggle.Config.Server.{
  default_server_config, server_config_from_command, server_config_command_flags,
}
use smuggle.Config.Store
use smuggle.Config.Store.{
  default_store_config, store_config_from_command, store_config_command_flags,
}

pub record AgentConfig : Type 0 where
  pub client : Option ClientConfig
  pub http : Option HttpConfig
  pub log : Option LogConfig
  pub nomad : Option NomadConfig
  pub server : Option ℕ
  pub store : Option StoreConfig

-- `Merge` of two that are not nil: a copy of the receiver, whose server cell is the receiver's.
abbrev pub merge_sections : AgentConfig → AgentConfig → Heap → AgentConfig × Heap
merge_sections a other h =
    let (server, h1) = Server.merge a.server other.server h in
    let (store, h2) = Store.merge a.store other.store h1 in
    (
      record {
        client = merge_with Client.merge a.client other.client;
        http = merge_with Http.merge a.http other.http;
        log = merge_with Log.merge a.log other.log;
        nomad = merge_with Nomad.merge a.nomad other.nomad;
        server = server;
        store = store;
      },
      h2,
    )

abbrev pub merge : Option AgentConfig → Option AgentConfig → Heap → Option AgentConfig × Heap
merge none other h = (other, h)
merge (some a) none h = (some a, h)
merge (some a) (some other) h = let (result, h1) = merge_sections a other h in (some result, h1)

-- What the checks use of the host and of other packages: the operating system, package filepath,
-- package strings and zap's levels, which give an error for a text that is no level.
pub record Platform : Type 0 where
  pub goos : String
  pub is_abs : String → Bool
  pub to_lower : String → String
  pub parse_level : String → Option Error

-- The two tests of the modes.
abbrev pub check_modes : Bool → Bool → List Error
check_modes client server =
    (if client && server
      then new_error "agent cannot be configured as both client and server" ∷ []
      else [])
    ++ (if not client && not server
        then new_error "agent must be configured as either client or server" ∷ []
        else [])

-- A section that is read through nil ends the program.
abbrev pub check_section : {A : Type 0} → (A → List Error) → Option A → Result (List Error)
check_section f none = panic "nil pointer dereference"
check_section f (some a) = ok (f a)

module _ (P : Platform) where
  abbrev pub validate : AgentConfig → Heap → Result (List Error)
  validate a h = do
    http ← check_section (Http.validate P.parse_level P.to_lower) a.http
    log ← check_section (Log.validate P.parse_level) a.log
    store ← check_section (Store.validate h) a.store
    ok (
        check_modes (Client.is_enabled a.client) (Server.is_enabled h a.server)
        ++ (Client.validate P.goos P.is_abs a.client
            ++ (http
                ++ (log ++ (Nomad.validate a.nomad ++ (Server.validate h a.server ++ store))))))

abbrev pub default_agent_config : Heap → AgentConfig × Heap
default_agent_config h =
    let (server, h1) = default_server_config h in
    let (store, h2) = default_store_config h1 in
    (
      record {
        client = some default_client_config;
        http = some default_http_config;
        log = some default_log_config;
        nomad = some default_nomad_config;
        server = some server;
        store = some store;
      },
      h2,
    )

abbrev pub agent_config_command_flags : List Flag
agent_config_command_flags =
    record {
      kind = string_slice_flag;
      name = "config";
      usage = "The path to a configuration file to load";
      env = none;
    }
    ∷ (client_config_command_flags
        ++ (http_config_command_flags
            ++ (log_config_command_flags
                ++ (nomad_config_command_flags
                    ++ (server_config_command_flags ++ store_config_command_flags)))))

abbrev pub agent_config_from_command : Command → Heap → AgentConfig × Heap
agent_config_from_command cmd h =
    let (server, h1) = server_config_from_command cmd h in
    let (store, h2) = store_config_from_command cmd h1 in
    (
      record {
        client = some (client_config_from_command cmd);
        http = some (http_config_from_command cmd);
        log = some (log_config_from_command cmd);
        nomad = some (nomad_config_from_command cmd);
        server = some server;
        store = some store;
      },
      h2,
    )
