-- ===== src/Tests/Configs.antt =====
-- A configuration file, a command line and a host, and the theorems on configurations applied to
-- them.
use smuggle.Prelude.{
  String, true, false, Option, none, some, [], ◌∷◌, ◌≡◌, ◌≢◌, ap, ◌↔◌, refl, arith, inl, inr,
  if◌then◌else◌, ◌==◌, string_eq,
}
use smuggle.Prelude.Error.{Error, ok, panic, errorf}
use smuggle.Prelude.Int.{pos}
use smuggle.Config.Command.{Command}
use smuggle.Config.Http
use smuggle.Config.Http.{HttpConfig, default_http_config}
use smuggle.Config.Log
use smuggle.Config.Cells.{Heap, empty_heap}
use smuggle.Config.Agent.{AgentConfig, Platform, default_agent_config, validate}
use smuggle.Config.Files.{Files, AgentValue, parse_agent_config_file, parse_hcl_config_file}
use smuggle.Config.Checks.{IsRunnable, validate_iff_IsRunnable}
use smuggle.Http.{new_server}
use smuggle.Http.Level.{IsServed, validate-panics}

-- A file that enables the server and names another port and another kind of store.
abbrev pub said : AgentValue
said = record {
  client = none;
  http = some (record default_http_config { port = 80 });
  log = none;
  nomad = none;
  server = some (record { enabled = some true; reaper = none });
  store = some (record { backend = "consul"; nvar = some "other/" });
}

abbrev pub files : Files
files = record {
  Body = String;
  abs = λ p. ok p;
  ext = λ p. ".hcl";
  read_file = λ p. ok p;
  parse_hcl_file = λ p. ok p;
  parse_json = λ t p. ok t;
  decode_body = λ b. ok said;
  parse_duration = λ t. ok (pos 0);
}

abbrev pub command : Command
command = record {
  is_set = λ n. false;
  string = λ n. "";
  bool = λ n. false;
  uint = λ n. 0;
  duration = λ n. pos 0;
  string_args = λ n. "agent.hcl" ∷ [];
}

said_parsed : parse_agent_config_file files "agent.hcl" ≡ ok said
unfolding parse_agent_config_file parse_hcl_config_file
said_parsed = refl

-- As `run` gets it: no arguments, and some flags.
abbrev given : Command
given = record command { string_args = λ n. [] }

abbrev http_80 : HttpConfig
http_80 = record default_http_config { port = 80 }

abbrev shouting : HttpConfig
shouting = record default_http_config { access_log_level = "DEBUG" }

abbrev lower : String → String
lower t = if t == "DEBUG" then "debug" else t

abbrev level : String → Option Error
level t = if t == "debug" then none else some (errorf "unrecognized level: %q" (t ∷ []))

abbrev platform : Platform
platform = record { goos = "linux"; is_abs = λ p. true; to_lower = lower; parse_level = level }

abbrev plain : AgentConfig × Heap
plain = default_agent_config empty_heap

validate_iff_IsRunnable_example :
    (validate platform plain.0 plain.1 ≡ ok [])
    ↔ IsRunnable platform plain.1 plain.0 default_http_config Log.default_log_config
        (record { backend = "nvar"; nvar = some 2 })
validate_iff_IsRunnable_example =
    validate_iff_IsRunnable platform plain.1 plain.0 default_http_config Log.default_log_config
      (record { backend = "nvar"; nvar = some 2 }) refl refl refl

other_text : (s : String) → ("DEBUG" == s) ≡ false → (s == s) ≡ true → "DEBUG" ≢ s
other_text s f t e = let same : ("DEBUG" == s) ≡ (s == s) = ap (λ x. x == s) e in cc (same, f, t)

not-IsServed : ¬ (IsServed "DEBUG")
not-IsServed (inl e) = other_text "debug" refl refl e
not-IsServed (inr (inl e)) = other_text "info" refl refl e
not-IsServed (inr (inr (inl e))) = other_text "warn" refl refl e
not-IsServed (inr (inr (inr e))) = other_text "error" refl refl e

validate-panics_example :
    (Http.validate level lower shouting ≡ [])
    × (new_server (λ n. "9090") shouting ≡ panic "unsupported access log level")
validate-panics_example =
    validate-panics level lower (λ n. "9090") shouting refl not-IsServed refl (omega arith)
      (omega arith)
