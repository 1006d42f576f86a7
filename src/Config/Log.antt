-- ===== src/Config/Log.antt =====
-- internal/config/log.go
use smuggle.Prelude.{String, Bool, false, Option, none, some, List, [], ◌∷◌, ◌≡◌}
use smuggle.Prelude.Error.{Error}
use smuggle.Config.Merge.{override, override_text, override_assoc, override_text_assoc}
use smuggle.Config.Command.{Command, Flag, flag, bool_flag, string_flag, bool_if_set}

pub record LogConfig : Type 0 where
  pub level : String
  pub json : Option Bool
  pub include_line : Option Bool
  pub enable_stacktrace : Option Bool

-- The level is the text of zap's info level.
abbrev pub default_log_config : LogConfig
default_log_config = record {
  level = "info";
  json = some false;
  include_line = some false;
  enable_stacktrace = some false;
}

abbrev pub merge : LogConfig → LogConfig → LogConfig
merge l other = record {
  level = override_text l.level other.level;
  json = override l.json other.json;
  include_line = override l.include_line other.include_line;
  enable_stacktrace = override l.enable_stacktrace other.enable_stacktrace;
}

abbrev pub validate : (String → Option Error) → LogConfig → List Error
validate parse_level l = elim (parse_level l.level) [ none ↦ [] | some e ↦ e ∷ [] ]

abbrev pub level_flag : String
level_flag = "log-level"

abbrev pub json_flag : String
json_flag = "log-json"

abbrev pub include_line_flag : String
include_line_flag = "log-include-line"

abbrev pub enable_stacktrace_flag : String
enable_stacktrace_flag = "log-enable-stacktrace"

abbrev pub log_config_command_flags : List Flag
log_config_command_flags =
    flag string_flag level_flag "SMUGGLE_LOG_LEVEL" "The threshold level for logging"
    ∷ flag bool_flag json_flag "SMUGGLE_LOG_JSON" "If the output should be in JSON format"
    ∷ flag bool_flag include_line_flag "SMUGGLE_LOG_INCLUDE_LINE"
        "Include file and line information in each log line"
    ∷ flag bool_flag enable_stacktrace_flag "SMUGGLE_LOG_ENABLE_STACKTRACE"
        "Enable stacktrace capturing for error level logs"
    ∷ []

abbrev pub log_config_from_command : Command → LogConfig
log_config_from_command cmd = record {
  level = cmd.string level_flag;
  json = bool_if_set cmd json_flag;
  include_line = bool_if_set cmd include_line_flag;
  enable_stacktrace = bool_if_set cmd enable_stacktrace_flag;
}

pub merge_assoc : (a b c : LogConfig) → merge (merge a b) c ≡ merge a (merge b c)
merge_assoc a b c = rw (
  override_text_assoc a.level b.level c.level,
  override_assoc a.json b.json c.json,
  override_assoc a.include_line b.include_line c.include_line,
  override_assoc a.enable_stacktrace b.enable_stacktrace c.enable_stacktrace,
)
