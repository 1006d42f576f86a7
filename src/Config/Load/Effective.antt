-- ===== src/Config/Load/Effective.antt =====
-- The configuration that the command `run` ends up with, as a value.
use smuggle.Prelude.{ℕ, String, Bool, false, Option, none, some, [], ◌∷◌, ◌≡◌, refl, subst}
use smuggle.Prelude.{nat_eq, string_eq}
use smuggle.Prelude.Error.{ok}
use smuggle.Config.Merge.{override, override_text}
use smuggle.Config.Command.{Command, bool_if_set}
use smuggle.Config.Client
use smuggle.Config.Http
use smuggle.Config.Log
use smuggle.Config.Nomad
use smuggle.Config.Cells.{Heap, ReaperConfig, StoreConfig, empty_reaper, empty_heap}
use smuggle.Config.Server.{
  override_reaper, default_reaper, enabled_flag, reaper_interval_flag, reaper_threshold_flag,
}
use smuggle.Config.Store.{backend_flag, nvar_path_flag}
use smuggle.Config.Agent.{AgentConfig, default_agent_config}
use smuggle.Config.Files.{
  Files, AgentValue, ServerValue, StoreValue, place, parse_agent_config_file,
}
use smuggle.Config.Load.{merge_command, load_config}

-- What the pointers stand for.
abbrev pub server_value : Heap → Option ℕ → Option ServerValue
server_value h none = none
server_value h (some s) = some (record {
  enabled = (h.servers s).enabled;
  reaper = elim (h.servers s).reaper [ none ↦ none | some r ↦ some (h.reapers r) ];
})

abbrev pub store_value : Heap → Option StoreConfig → Option StoreValue
store_value h none = none
store_value h (some s) =
    some (record {
      backend = s.backend;
      nvar = elim s.nvar [ none ↦ none | some r ↦ some (h.nvars r) ];
    })

abbrev pub value : AgentConfig × Heap → AgentValue
value (a, h) = record {
  client = a.client;
  http = a.http;
  log = a.log;
  nomad = a.nomad;
  server = server_value h a.server;
  store = store_value h a.store;
}

-- The reaper's durations, and the server's section, over those of the defaults.
abbrev pub over_reaper : ReaperConfig → Option ReaperConfig → ReaperConfig
over_reaper base none = base
over_reaper base (some r) = override_reaper base r

abbrev pub over_server :
    Option Bool × ReaperConfig → Option ServerValue → Option Bool × ReaperConfig
over_server base none = base
over_server base (some v) = (override base.0 v.enabled, over_reaper base.1 v.reaper)

abbrev pub over_path : String → Option StoreValue → String
over_path base none = base
over_path base (some v) = elim v.nvar [ none ↦ base | some path ↦ override_text base path ]

abbrev pub command_reaper : Command → ReaperConfig
command_reaper cmd = record empty_reaper {
  interval = cmd.duration reaper_interval_flag;
  threshold = cmd.duration reaper_threshold_flag;
}

-- The file's part of the effective configuration: its server section and the path of its store
-- section, and nothing else.
abbrev pub effective : Option AgentValue → Command → AgentValue
effective file cmd =
    let server =
      over_server (some false, default_reaper) (elim file [ none ↦ none | some v ↦ v.server ]) in
    let path = over_path "smuggle/" (elim file [ none ↦ none | some v ↦ v.store ]) in
    record {
      client =
          some (Client.merge Client.default_client_config (Client.client_config_from_command cmd));
      http = some (Http.merge Http.default_http_config (Http.http_config_from_command cmd));
      log = some (Log.merge Log.default_log_config (Log.log_config_from_command cmd));
      nomad = some (Nomad.merge Nomad.default_nomad_config (Nomad.nomad_config_from_command cmd));
      server = some (record {
        enabled = override server.0 (bool_if_set cmd enabled_flag);
        reaper = some (override_reaper server.1 (command_reaper cmd));
      });
      store = some (record {
        backend = override_text "nvar" (cmd.string backend_flag);
        nvar = some (override_text path (cmd.string nvar_path_flag));
      });
    }

abbrev defaults : AgentConfig × Heap
defaults = default_agent_config empty_heap

-- The sections of a file that have pointers, taken apart.
abbrev server_of : Option (Option Bool × Option ReaperConfig) → Option ServerValue
server_of none = none
server_of (some (e, r)) = some (record { enabled = e; reaper = r })

abbrev store_of : Option (String × Option String) → Option StoreValue
store_of none = none
store_of (some (b, p)) = some (record { backend = b; nvar = p })

-- The configuration of a file whose pointers are placed after those of the defaults.
abbrev IsMerged : Option AgentValue → Option AgentConfig × Heap → Command → Type 0
IsMerged v (file, h) cmd =
    (r : AgentConfig × Heap) × (merge_command defaults.0 file cmd h ≡ ok r)
    × (value r ≡ effective v cmd)

abbrev placed : AgentValue → Option AgentConfig × Heap
placed v = let (a, h) = place v defaults.1 in (some a, h)

module _ (cmd : Command) (v : AgentValue) where
  abbrev with_parts :
      Option (Option Bool × Option ReaperConfig) → Option (String × Option String) → AgentValue
  with_parts s t = record v { server = server_of s; store = store_of t }

  with_parts-IsMerged :
      (s : Option (Option Bool × Option ReaperConfig)) (t : Option (String × Option String))
      → IsMerged (some (with_parts s t)) (placed (with_parts s t)) cmd
  with_parts-IsMerged none none = (_, refl, refl)
  with_parts-IsMerged none (some (b, none)) = (_, refl, refl)
  with_parts-IsMerged none (some (b, some p)) = (_, refl, refl)
  with_parts-IsMerged (some (e, none)) none = (_, refl, refl)
  with_parts-IsMerged (some (e, none)) (some (b, none)) = (_, refl, refl)
  with_parts-IsMerged (some (e, none)) (some (b, some p)) = (_, refl, refl)
  with_parts-IsMerged (some (e, some r)) none = (_, refl, refl)
  with_parts-IsMerged (some (e, some r)) (some (b, none)) = (_, refl, refl)
  with_parts-IsMerged (some (e, some r)) (some (b, some p)) = (_, refl, refl)

  split_server :
      (o : Option ServerValue)
      → (s : Option (Option Bool × Option ReaperConfig)) × (server_of s ≡ o)
  split_server none = (none, refl)
  split_server (some x) = (some (x.enabled, x.reaper), refl)

  split_store : (o : Option StoreValue) → (t : Option (String × Option String)) × (store_of t ≡ o)
  split_store none = (none, refl)
  split_store (some x) = (some (x.backend, x.nvar), refl)

  placed-IsMerged : IsMerged (some v) (placed v) cmd
  placed-IsMerged =
      let (s, at_s) = split_server v.server in
      let (t, at_t) = split_store v.store in
      let whole : with_parts s t ≡ v = rw (at_s, at_t) refl in
      subst (λ w. IsMerged (some w) (placed w) cmd) whole (with_parts-IsMerged s t)

-- What the same code would do with one configuration file that can be read: only the file's server
-- section and the path of its store section would have an effect. The command `run` does not get there.
load_config_one_file :
    (F : Files) (cmd : Command) (file : String) (v : AgentValue)
    → cmd.string_args "config" ≡ file ∷ []
    → parse_agent_config_file F file ≡ ok v
    → (r : AgentConfig × Heap) × (load_config F cmd ≡ ok r) × (value r ≡ effective (some v) cmd)
unfolding load_config
load_config_one_file F cmd file v given parsed =
    let (r, loaded, is) = placed-IsMerged cmd v in (r, rw (given, parsed) loaded, is)
