-- ===== src/Config/Http.antt =====
-- internal/config/http.go
use smuggle.Prelude.{
  ℕ, String, Bool, true, false, ◌&&◌, ◌||◌, not, Option, none, some, List, [], ◌∷◌, ◌++◌,
  if◌then◌else◌, ltb,
}
use smuggle.Prelude.{◌==◌, nat_eq, string_eq, ◌≡◌}
use smuggle.Prelude.Error.{Error, new_error}
use smuggle.Config.Merge.{
  override, override_text, override_nat, is_true, override_assoc, override_text_assoc,
  override_nat_assoc,
}
use smuggle.Config.Command.{Command, Flag, flag, bool_flag, string_flag, uint_flag, bool_if_set}

pub record HttpConfig : Type 0 where
  pub enabled : Option Bool
  pub debug_enabled : Option Bool
  pub address : String
  pub access_log_level : String
  pub port : ℕ

-- The level is the text of zap's debug level.
abbrev pub default_http_config : HttpConfig
default_http_config = record {
  enabled = some true;
  debug_enabled = some false;
  address = "localhost";
  access_log_level = "debug";
  port = 9090;
}

abbrev pub is_enabled : Option HttpConfig → Bool
is_enabled none = false
is_enabled (some h) = is_true h.enabled

abbrev pub is_debug_enabled : Option HttpConfig → Bool
is_debug_enabled none = false
is_debug_enabled (some h) = is_true h.debug_enabled

abbrev pub merge : HttpConfig → HttpConfig → HttpConfig
merge h other = record {
  enabled = override h.enabled other.enabled;
  debug_enabled = override h.debug_enabled other.debug_enabled;
  address = override_text h.address other.address;
  access_log_level = override_text h.access_log_level other.access_log_level;
  port = override_nat h.port other.port;
}

-- `parse_level` is zap's test of a level, which gives the error, and `to_lower` is that of package
-- strings. A nil configuration is read, so this is for one that is not nil.
abbrev pub validate : (String → Option Error) → (String → String) → HttpConfig → List Error
validate parse_level to_lower h =
    (if not (is_true h.enabled) && is_true h.debug_enabled
      then new_error "http debug enabled cannot be true when http enabled is false" ∷ []
      else [])
    ++ (elim (parse_level (to_lower h.access_log_level)) [ none ↦ [] | some e ↦ e ∷ [] ])
    ++ (if h.port == 0 || ltb 65535 h.port
        then new_error "http port must be between 1 and 65535" ∷ []
        else [])

abbrev pub enabled_flag : String
enabled_flag = "http-enabled"

abbrev pub address_flag : String
address_flag = "http-address"

abbrev pub port_flag : String
port_flag = "http-port"

abbrev pub access_log_level_flag : String
access_log_level_flag = "http-access-log-level"

abbrev pub enable_debug_flag : String
enable_debug_flag = "http-debug-enabled"

abbrev pub http_config_command_flags : List Flag
http_config_command_flags =
    flag bool_flag enabled_flag "SMUGGLE_HTTP_ENABLED" "Enable the HTTP server"
    ∷ flag string_flag address_flag "SMUGGLE_HTTP_ADDRESS" "The address to bind the HTTP server to"
    ∷ flag uint_flag port_flag "SMUGGLE_HTTP_PORT" "The port to bind the HTTP server to"
    ∷ flag string_flag access_log_level_flag "SMUGGLE_HTTP_ACCESS_LOG_LEVEL"
        "The access log level for the HTTP server (debug, info, warn, error)"
    ∷ flag bool_flag enable_debug_flag "SMUGGLE_HTTP_ENABLE_DEBUG"
        "Enable debug endpoints on the HTTP server"
    ∷ []

abbrev pub http_config_from_command : Command → HttpConfig
http_config_from_command cmd = record {
  enabled = bool_if_set cmd enabled_flag;
  debug_enabled = bool_if_set cmd enable_debug_flag;
  address = cmd.string address_flag;
  access_log_level = cmd.string access_log_level_flag;
  port = cmd.uint port_flag;
}

pub merge_assoc : (a b c : HttpConfig) → merge (merge a b) c ≡ merge a (merge b c)
merge_assoc a b c = rw (
  override_assoc a.enabled b.enabled c.enabled,
  override_assoc a.debug_enabled b.debug_enabled c.debug_enabled,
  override_text_assoc a.address b.address c.address,
  override_text_assoc a.access_log_level b.access_log_level c.access_log_level,
  override_nat_assoc a.port b.port c.port,
)
