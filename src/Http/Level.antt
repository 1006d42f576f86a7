-- ===== src/Http/Level.antt =====
-- The levels that the configuration allows against those that the server has.
use smuggle.Prelude.{
  ℕ, ◌<◌, ◌≤◌, String, true, none, Option, [], ◌≡◌, ◌⊎◌, refl, arith, ==_ne, string_eq, inl, inr,
}
use smuggle.Prelude.Error.{Error, ok, panic}
use smuggle.Config.Merge.{is_true}
use smuggle.Config.Http.{HttpConfig, validate}
use smuggle.Http.{
  debug, info, warn, error_method, LogMethod, logger_method, setup_router, new_server,
}

-- The texts of the four levels, in lower case.
abbrev pub IsServed : String → Type 0
IsServed level = (level ≡ "debug") ⊎ (level ≡ "info") ⊎ (level ≡ "warn") ⊎ (level ≡ "error")

unserved-panic :
    (level : String)
    → ¬ (IsServed level)
    → logger_method level ≡ panic "unsupported access log level"
unfolding logger_method
unserved-panic level h =
    rw
      (
        ==_ne level "debug" (λ e. h (inl e)),
        ==_ne level "info" (λ e. h (inr (inl e))),
        ==_ne level "warn" (λ e. h (inr (inr (inl e)))),
        ==_ne level "error" (λ e. h (inr (inr (inr e)))),
      )
      refl

served-ok : (level : String) → IsServed level → (m : LogMethod) × (logger_method level ≡ ok m)
unfolding logger_method
served-ok level (inl e) = (debug, rw e refl)
served-ok level (inr (inl e)) = (info, rw e refl)
served-ok level (inr (inr (inl e))) = (warn, rw e refl)
served-ok level (inr (inr (inr e))) = (error_method, rw e refl)

-- A configuration whose level zap takes, once it is in lower case, but that is not one of the
-- server's four texts itself, passes validation and makes the server panic when it is built: an
-- upper case DEBUG does, and so does zap's level fatal.
pub validate-panics :
    (parse_level : String → Option Error) (to_lower : String → String) (decimal : ℕ → String)
    (c : HttpConfig)
    → parse_level (to_lower c.access_log_level) ≡ none
    → ¬ (IsServed c.access_log_level)
    → is_true c.enabled ≡ true
    → 0 < c.port
    → c.port ≤ 65535
    → (validate parse_level to_lower c ≡ [])
      × (new_server decimal c ≡ panic "unsupported access log level")
unfolding new_server setup_router
validate-panics parse_level to_lower decimal c level unserved on low high =
    (ground arith, rw (unserved-panic c.access_log_level unserved) refl)
