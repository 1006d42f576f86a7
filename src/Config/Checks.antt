-- ===== src/Config/Checks.antt =====
-- Which configurations pass `Validate`.
use text.Mathlib.TextEquality.{eq_iff}
use smuggle.Prelude.{
  ℕ, ◌<◌, ◌≤◌, Bool, true, false, not, Option, none, some, List, [], ◌∷◌, ◌++◌, ◌≡◌, ◌≢◌, ◌↔◌, refl,
  arith, Option-cases, inl, inr, ap, sym, ◌∙◌,
}
use smuggle.Prelude.{==_ne, nat_eq, string_eq}
use smuggle.Prelude.Error.{Result, ok}
use smuggle.Config.Merge.{is_true}
use smuggle.Config.Client
use smuggle.Config.Client.{ClientConfig}
use smuggle.Config.Http
use smuggle.Config.Http.{HttpConfig}
use smuggle.Config.Log
use smuggle.Config.Log.{LogConfig}
use smuggle.Config.Cells.{Heap, StoreConfig}
use smuggle.Config.Server
use smuggle.Config.Store
use smuggle.Config.Agent.{AgentConfig, Platform, check_modes, validate}

append-nil : {A : Type 0} (xs ys : List A) → (xs ++ ys ≡ []) ↔ ((xs ≡ []) × (ys ≡ []))
append-nil [] ys = (λ h. (refl, h), λ h. h.1)
append-nil (x ∷ xs) ys = (λ h. cc h, λ h. cc h.0)

module _ (P : Platform) (h : Heap) where
  -- A client needs Linux and an absolute directory, if it is enabled.
  abbrev pub IsReadyClient : Option ClientConfig → Type 0
  IsReadyClient none = Unit
  IsReadyClient (some c) =
      is_true c.enabled ≡ true
      → (P.goos ≡ "linux") × (P.is_abs c.data_dir ≡ true) × (c.data_dir ≢ "")

  abbrev pub IsReadyHttp : HttpConfig → Type 0
  IsReadyHttp c =
      (is_true c.debug_enabled ≡ true → is_true c.enabled ≡ true)
      × (P.parse_level (P.to_lower c.access_log_level) ≡ none)
      × (0 < c.port)
      × (c.port ≤ 65535)

  abbrev pub IsReadyStore : StoreConfig → Type 0
  IsReadyStore s = (s.backend ≡ "nvar") × (r : ℕ) × (s.nvar ≡ some r) × (h.nvars r ≢ "")

  client_iff :
      (c : Option ClientConfig) → (Client.validate P.goos P.is_abs c ≡ []) ↔ IsReadyClient c
  client_iff none = (λ e. tt, λ r. refl)
  client_iff (some c) = ground (arith, eq_iff P.goos "linux", eq_iff c.data_dir "")

  http_iff : (c : HttpConfig) → (Http.validate P.parse_level P.to_lower c ≡ []) ↔ IsReadyHttp c
  http_iff c = ground arith

  log_iff : (l : LogConfig) → (Log.validate P.parse_level l ≡ []) ↔ (P.parse_level l.level ≡ none)
  log_iff l = ground arith

  IsReadyStore-validate :
      (s : StoreConfig) (r : ℕ)
      → s.backend ≡ "nvar"
      → s.nvar ≡ some r
      → h.nvars r ≢ ""
      → Store.validate h s ≡ []
  IsReadyStore-validate s r kind at set = rw (kind, at, ==_ne (h.nvars r) "" set) refl

  validate-IsReadyStore : (s : StoreConfig) → Store.validate h s ≡ [] → IsReadyStore s
  validate-IsReadyStore s e = elim (Option-cases s.nvar) [
    | inl absent ↦ absurd (ground (arith, e))
    | inr (r, there) ↦ (
      ground (arith, e, eq_iff s.backend "nvar"),
      r,
      there,
      ground (arith, e, eq_iff (h.nvars r) ""),
    )
  ]

  store_iff : (s : StoreConfig) → (Store.validate h s ≡ []) ↔ IsReadyStore s
  store_iff s =
      (validate-IsReadyStore s, λ (kind, r, at, set). IsReadyStore-validate s r kind at set)

  -- What an agent with its sections needs.
  pub record IsRunnable (a : AgentConfig) (http : HttpConfig) (log : LogConfig)
      (store : StoreConfig) : Type 0 where
    pub one_mode : Client.is_enabled a.client ≡ not (Server.is_enabled h a.server)
    pub client_ready : IsReadyClient a.client
    pub http_ready : IsReadyHttp http
    pub log_ready : P.parse_level log.level ≡ none
    pub store_ready : IsReadyStore store

  modes_iff : (c s : Bool) → (check_modes c s ≡ []) ↔ (c ≡ not s)
  modes_iff true true = (λ e. cc e, λ e. cc e)
  modes_iff true false = (λ e. refl, λ e. refl)
  modes_iff false true = (λ e. refl, λ e. refl)
  modes_iff false false = (λ e. cc e, λ e. cc e)

  ok-injective : {A : Type 0} (a b : A) → ◌≡◌ {A = Result A} (ok a) (ok b) → a ≡ b
  ok-injective a b e = cc e

  -- A configuration whose HTTP, log and store sections are there passes `Validate` exactly when one
  -- of the client and the server is enabled and not both, an enabled client is on Linux with an
  -- absolute data directory, the HTTP section has a port and a level that zap knows and debugs only
  -- where it is enabled, the log has such a level, and the store is that of Nomad with a path.
  pub validate_iff_IsRunnable :
      (a : AgentConfig) (http : HttpConfig) (log : LogConfig) (store : StoreConfig)
      → a.http ≡ some http
      → a.log ≡ some log
      → a.store ≡ some store
      → (validate P a h ≡ ok []) ↔ IsRunnable a http log store
  validate_iff_IsRunnable a http log store at_http at_log at_store =
      let modes = check_modes (Client.is_enabled a.client) (Server.is_enabled h a.server) in
      let c = Client.validate P.goos P.is_abs a.client in
      let hs = Http.validate P.parse_level P.to_lower http in
      let ls = Log.validate P.parse_level log in
      let st = Store.validate h store in
      let whole : validate P a h ≡ ok (modes ++ (c ++ (hs ++ (ls ++ st)))) =
        rw (at_http, at_log, at_store) refl in
      (
        λ e.
            let all = ok-injective (modes ++ (c ++ (hs ++ (ls ++ st)))) [] (sym whole ∙ e) in
            let (m, rest) = (append-nil modes (c ++ (hs ++ (ls ++ st)))).0 all in
            let (cl, rest') = (append-nil c (hs ++ (ls ++ st))).0 rest in
            let (ht, rest'') = (append-nil hs (ls ++ st)).0 rest' in
            let (lo, so) = (append-nil ls st).0 rest'' in
            record {
              one_mode = (modes_iff _ _).0 m;
              client_ready = (client_iff a.client).0 cl;
              http_ready = (http_iff http).0 ht;
              log_ready = (log_iff log).0 lo;
              store_ready = (store_iff store).0 so;
            },
        λ r.
            whole
            ∙ ap ok (
                (append-nil modes (c ++ (hs ++ (ls ++ st)))).1 (
                  (modes_iff _ _).1 r.one_mode,
                  (append-nil c (hs ++ (ls ++ st))).1 (
                    (client_iff a.client).1 r.client_ready,
                    (append-nil hs (ls ++ st)).1 (
                      (http_iff http).1 r.http_ready,
                      (append-nil ls st).1
                          ((log_iff log).1 r.log_ready, (store_iff store).1 r.store_ready),
                    ),
                  ),
                )),
      )
