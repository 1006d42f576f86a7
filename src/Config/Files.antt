-- ===== src/Config/Files.antt =====
-- internal/config/agent.go: `AgentConfigFromFiles`. Reading and decoding a file is that of packages
-- os and hcl.
use smuggle.Prelude.{
  ℕ, String, Bool, Option, none, some, List, [], ◌∷◌, if◌then◌else◌, ◌==◌, string_eq,
}
use smuggle.Prelude.Error.{Result, ok, err, errorf, wrapf, wrap, map_err, ◌>>=◌}
use smuggle.Prelude.Int.{ℤ}
use smuggle.Config.Command.{Command}
use smuggle.Config.Client.{ClientConfig}
use smuggle.Config.Http.{HttpConfig}
use smuggle.Config.Log.{LogConfig}
use smuggle.Config.Nomad.{NomadConfig}
use smuggle.Config.Cells.{ReaperConfig, StoreConfig, Heap, new_server, new_reaper, new_nvar}
use smuggle.Config.Server.{parse}
use smuggle.Config.Agent.{AgentConfig, merge}

-- The contents of a file, before pointers are made for them.
pub record ServerValue : Type 0 where
  pub enabled : Option Bool
  pub reaper : Option ReaperConfig

pub record StoreValue : Type 0 where
  pub backend : String
  pub nvar : Option String

pub record AgentValue : Type 0 where
  pub client : Option ClientConfig
  pub http : Option HttpConfig
  pub log : Option LogConfig
  pub nomad : Option NomadConfig
  pub server : Option ServerValue
  pub store : Option StoreValue

-- `abs` and `ext` are those of package filepath; a body is what the parser makes of a file, and
-- `decode_body` fills in the configuration.
pub record Files : Type 1 where
  pub Body : Type 0
  pub abs : String → Result String
  pub ext : String → String
  pub read_file : String → Result String
  pub parse_hcl_file : String → Result Body
  pub parse_json : String → String → Result Body
  pub decode_body : Body → Result AgentValue
  pub parse_duration : String → Result ℤ

abbrev pub place_reaper : Option ReaperConfig → Heap → Option ℕ × Heap
place_reaper none h = (none, h)
place_reaper (some c) h = let (r, h1) = new_reaper c h in (some r, h1)

abbrev pub place_server : Option ServerValue → Heap → Option ℕ × Heap
place_server none h = (none, h)
place_server (some v) h =
    let (reaper, h1) = place_reaper v.reaper h in
    let (s, h2) = new_server (record { enabled = v.enabled; reaper = reaper }) h1 in (some s, h2)

abbrev pub place_nvar : Option String → Heap → Option ℕ × Heap
place_nvar none h = (none, h)
place_nvar (some path) h = let (r, h1) = new_nvar path h in (some r, h1)

abbrev pub place_store : Option StoreValue → Heap → Option StoreConfig × Heap
place_store none h = (none, h)
place_store (some v) h =
    let (nvar, h1) = place_nvar v.nvar h in (some (record { backend = v.backend; nvar = nvar }), h1)

-- The pointers of a decoded configuration.
abbrev pub place : AgentValue → Heap → AgentConfig × Heap
place v h =
    let (server, h1) = place_server v.server h in
    let (store, h2) = place_store v.store h1 in
    (
      record {
        client = v.client;
        http = v.http;
        log = v.log;
        nomad = v.nomad;
        server = server;
        store = store;
      },
      h2,
    )

module _ (F : Files) where
  open F use {abs, ext, read_file, parse_hcl_file, parse_json, decode_body, parse_duration}

  abbrev pub parse_reaper : Option ReaperConfig → Result (Option ReaperConfig)
  parse_reaper none = ok none
  parse_reaper (some r) = do
    parsed ← map_err (wrap "failed to parse server config: %w") (parse parse_duration r)
    ok (some parsed)

  -- The durations of a decoded configuration are read from their texts.
  abbrev pub parse_server : Option ServerValue → Result (Option ServerValue)
  parse_server none = ok none
  parse_server (some s) = do
    reaper ← parse_reaper s.reaper
    ok (some (record s { reaper = reaper }))

  abbrev pub parse_durations : AgentValue → Result AgentValue
  parse_durations v = do server ← parse_server v.server; ok (record v { server = server })

  unfoldable pub parse_hcl_config_file : String → Result AgentValue
  parse_hcl_config_file path = do
    body ← map_err (wrap "failed to parse HCL file: %w") (parse_hcl_file path)
    v ← map_err (wrap "failed to decode HCL: %w") (decode_body body)
    parse_durations v

  unfoldable pub parse_json_config_file : String → Result AgentValue
  parse_json_config_file path = do
    text ← map_err (wrap "failed to read JSON file: %w") (read_file path)
    body ← map_err (wrap "failed to parse JSON file: %w") (parse_json text path)
    v ← map_err (wrap "failed to decode JSON: %w") (decode_body body)
    parse_durations v

  unfoldable pub parse_agent_config_file : String → Result AgentValue
  parse_agent_config_file path = do
    abs_path ← abs path
    if ext abs_path == ".json"
        then parse_json_config_file abs_path
        else if ext abs_path == ".hcl"
        then parse_hcl_config_file abs_path
        else err (errorf "unsupported config file format: %q" (ext abs_path ∷ []))

  -- The loop over the files, with what was merged before.
  abbrev pub merge_files :
      List String → Option AgentConfig → Heap → Result (Option AgentConfig × Heap)
  merge_files [] cfg h = ok (cfg, h)
  merge_files (file ∷ rest) cfg h =
      map_err (wrapf "failed to parse config file %q: %w" (file ∷ []))
        (parse_agent_config_file file)
      >>= λ v.
          let (file_cfg, h1) = place v h in
          let (merged, h2) = merge cfg (some file_cfg) h1 in merge_files rest merged h2

  -- The files are taken from the arguments of that name, not from the flag.
  abbrev pub agent_config_from_files : Command → Heap → Result (Option AgentConfig × Heap)
  agent_config_from_files cmd h = merge_files (cmd.string_args "config") none h
