-- ===== src/Config/Server.antt =====
-- internal/config/server.go
use smuggle.Prelude.{
  ℕ, String, Bool, false, Option, none, some, List, [], ◌∷◌, if◌then◌else◌, ◌==◌, string_eq,
}
use smuggle.Prelude.Error.{Error, Result, ok, ◌>>=◌}
use smuggle.Prelude.Int.{ℤ, pos}
use smuggle.Config.Merge.{override, override_duration, is_true}
use smuggle.Config.Cells.{
  ReaperConfig, Heap, write_server, write_reaper, new_server, new_reaper, empty_reaper,
}
use smuggle.Config.Command.{Command, Flag, flag, bool_flag, duration_flag, bool_if_set}

-- A text that is empty keeps the duration. `parse_duration` is that of package time.
abbrev pub parse_text : (String → Result ℤ) → String → ℤ → Result ℤ
parse_text parse_duration text old = if text == "" then ok old else parse_duration text

-- `Parse`. The receiver is written as it goes; where it fails its owner is dropped.
abbrev pub parse : (String → Result ℤ) → ReaperConfig → Result ReaperConfig
parse parse_duration r = do
  interval ← parse_text parse_duration r.interval_hcl r.interval
  threshold ← parse_text parse_duration r.threshold_hcl r.threshold
  ok (record r { interval = interval; threshold = threshold })

-- 5 minutes each.
abbrev pub default_reaper : ReaperConfig
default_reaper = record empty_reaper { interval = pos 300000000000; threshold = pos 300000000000 }

abbrev pub default_server_config : Heap → ℕ × Heap
default_server_config h =
    let (r, h1) = new_reaper default_reaper h in
    new_server (record { enabled = some false; reaper = some r }) h1

abbrev pub is_enabled : Heap → Option ℕ → Bool
is_enabled h none = false
is_enabled h (some s) = is_true (h.servers s).enabled

abbrev pub override_reaper : ReaperConfig → ReaperConfig → ReaperConfig
override_reaper r other = record r {
  interval = override_duration r.interval other.interval;
  threshold = override_duration r.threshold other.threshold;
}

-- `if s.Reaper == nil { s.Reaper = &ReaperConfig{} }`
abbrev pub ensure_reaper : ℕ → Option ℕ → Heap → ℕ × Heap
ensure_reaper s (some r) h = (r, h)
ensure_reaper s none h =
    let (r, h1) = new_reaper empty_reaper h in
    (r, write_server s (record (h1.servers s) { reaper = some r }) h1)

abbrev pub merge_reaper : ℕ → Option ℕ → Heap → Heap
merge_reaper s none h = h
merge_reaper s (some q) h =
    let (r, h1) = ensure_reaper s (h.servers s).reaper h in
    write_reaper r (override_reaper (h1.reapers r) (h1.reapers q)) h1

-- `Merge` writes to its receiver and returns it.
abbrev pub merge : Option ℕ → Option ℕ → Heap → Option ℕ × Heap
merge none other h = (other, h)
merge (some s) none h = (some s, h)
merge (some s) (some o) h =
    let h1 =
      write_server s
        (record (h.servers s) { enabled = override (h.servers s).enabled (h.servers o).enabled })
        h in
    (some s, merge_reaper s (h1.servers o).reaper h1)

abbrev pub validate : Heap → Option ℕ → List Error
validate h s = []

abbrev pub enabled_flag : String
enabled_flag = "server-enabled"

abbrev pub reaper_interval_flag : String
reaper_interval_flag = "server-reaper-interval"

abbrev pub reaper_threshold_flag : String
reaper_threshold_flag = "server-reaper-threshold"

abbrev pub server_config_command_flags : List Flag
server_config_command_flags =
    flag bool_flag enabled_flag "SMUGGLE_SERVER_ENABLED" "Enable the Smuggle server functionality"
    ∷ flag duration_flag reaper_interval_flag "SMUGGLE_SERVER_REAPER_INTERVAL"
        "Interval between runs of the server reaper"
    ∷ flag duration_flag reaper_threshold_flag "SMUGGLE_SERVER_REAPER_THRESHOLD"
        "Duration after which inactive clients are reaped"
    ∷ []

abbrev pub server_config_from_command : Command → Heap → ℕ × Heap
server_config_from_command cmd h =
    let (r, h1) =
      new_reaper
        (record empty_reaper {
          interval = cmd.duration reaper_interval_flag;
          threshold = cmd.duration reaper_threshold_flag;
        })
        h in
    new_server (record { enabled = bool_if_set cmd enabled_flag; reaper = some r }) h1
