-- ===== src/Http.antt =====
-- internal/http: the server of the agent, its routes, and the level of its access log. Listening
-- and serving are those of net/http and chi.
pub mod Level
use smuggle.Prelude.{
  ℕ, String, ◌<>◌, Bool, true, false, Option, none, some, List, [], ◌∷◌, ◌++◌, if◌then◌else◌, ◌==◌,
  string_eq,
}
use smuggle.Prelude.Error.{Error, errorf, wrapf, sentinel, Result, ok, err, panic, ◌>>=◌}
use smuggle.Prelude.Int.{ℤ, pos}
use smuggle.Config.Merge.{is_true}
use smuggle.Config.Http.{HttpConfig}

-- The methods of the logger that requests can be written with.
pub data LogMethod : Type 0 where
  debug info warn error_method : LogMethod

-- `loggerMiddleware`: the method for a level; the message of the panic is without its argument.
unfoldable pub logger_method : String → Result LogMethod
logger_method access_level =
    if access_level == "debug"
    then ok debug
    else if access_level == "info"
    then ok info
    else if access_level == "warn"
    then ok warn
    else if access_level == "error"
    then ok error_method
    else panic "unsupported access log level"

-- `contentInBytes`, on the header's value; `atoi` is that of package strconv.
unfoldable pub content_in_bytes : (String → Result ℤ) → String → ℤ
content_in_bytes atoi content_length = elim (atoi content_length) [
  | ok i ↦ i
  | err _ ↦ pos 0
  | panic _ ↦ pos 0
]

pub data Handler : Type 0 where
  get_health profiler : Handler

-- What `getHealth` answers with: the status and the fields of the body.
pub record HealthResponse : Type 0 where
  pub code : ℕ
  pub content_type : String
  pub status : String
  pub message : String

unfoldable pub health_response : HealthResponse
health_response = record {
  code = 200;
  content_type = "application/json";
  status = "OK";
  message = "Smuggle agent is healthy";
}

-- `setupRouter`: the paths with their handlers, and the method of the access log.
pub record Router : Type 0 where
  pub access_log : LogMethod
  pub routes : List (String × Handler)

unfoldable pub setup_router : HttpConfig → Result Router
unfolding logger_method
setup_router cfg = do
  access_log ← logger_method cfg.access_log_level
  ok (record {
    access_log = access_log;
    routes =
        ("/v1/system/health", get_health)
        ∷ (if is_true cfg.debug_enabled then ("/v1/debug", profiler) ∷ [] else []);
  })

-- The server of net/http, with its timeouts in nanoseconds.
pub record Server : Type 0 where
  pub addr : String
  pub router : Router
  pub read_timeout : ℤ
  pub write_timeout : ℤ
  pub idle_timeout : ℤ

-- `New`; `decimal` is the text of a number.
unfoldable pub new_server : (ℕ → String) → HttpConfig → Result Server
unfolding setup_router
new_server decimal cfg = do
  router ← setup_router cfg
  ok (record {
    addr = cfg.address <> ":" <> decimal cfg.port;
    router = router;
    read_timeout = pos 10000000000;
    write_timeout = pos 10000000000;
    idle_timeout = pos 60000000000;
  })

-- The goroutine of `Start`, when `ListenAndServe` has returned: the errors that it logs. `Start` itself
-- has returned nil before.
unfoldable pub serve_errors : Result (Unit {0}) → List Error
serve_errors (ok u) = []
serve_errors (err (sentinel name)) =
    if name == "http: Server closed" then [] else sentinel name ∷ []
serve_errors (err (errorf message args)) = errorf message args ∷ []
serve_errors (err (wrapf message args e)) = wrapf message args e ∷ []
serve_errors (panic p) = []
