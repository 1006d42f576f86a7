-- ===== src/Agent/Modes.antt =====
-- Which parts an agent has.
use smuggle.Prelude.{
  ℕ, Bool, true, false, not, Option, none, some, [], ◌≡◌, refl, ◌∙◌, ap, sym, Bool-cases, inl, inr,
}
use smuggle.Prelude.Error.{Result-cases, ok, wrap}
use smuggle.Prelude.State.{St, return, lift, on_error, >>=-ok}
use smuggle.Config.Merge.{is_true}
use smuggle.Config.Client
use smuggle.Config.Http
use smuggle.Config.Http.{HttpConfig}
use smuggle.Config.Log.{LogConfig}
use smuggle.Config.Cells.{Heap, StoreConfig}
use smuggle.Config.Server
use smuggle.Config.Agent.{AgentConfig, Platform, validate}
use smuggle.Config.Checks.{validate_iff_IsRunnable}
use smuggle.Http.{Server, new_server}
use smuggle.Agent.{
  Parts, Agent, deref, built_logger, setup_http, setup_client, setup_server, when, new_agent,
}

abbrev pub is_there : {A : Type 0} → Option A → Bool
is_there none = false
is_there (some x) = true

module _ (P : Parts) (attempts : ℕ) (a : AgentConfig) (h : Heap) where
  when-is_there :
      {A : Type 0} (b : Bool) (m : St P.State A) (s : P.State) {o : Option A}
      → (when P attempts a h b m s).0 ≡ ok o
      → is_there o ≡ b
  when-is_there {A = A} false m s {o = o} done =
      let same : ◌≡◌ {A = Option A} none o = cc done in rw (sym same) refl
  when-is_there {A = A} true m s {o = o} done =
      let (x, e, made, at) = >>=-ok m (λ x. return (some x)) s done in
      let same : some x ≡ o = cc made in rw (sym same) refl

  setup_http-is_there :
      (cfg : Option HttpConfig) {o : Option Server}
      → setup_http P attempts a h cfg ≡ ok o
      → is_there o ≡ Http.is_enabled cfg
  setup_http-is_there none {o = o} done =
      let same : ◌≡◌ {A = Option Server} none o = cc done in rw (sym same) refl
  setup_http-is_there (some cfg) {o = o} done = elim (Bool-cases (is_true cfg.enabled)) [
    | inl on ↦ elim (Result-cases (new_server P.decimal cfg)) [
      | inl (x, made) ↦ let same : some x ≡ o = cc (rw (on, made) at done) in rw (sym same, on) refl
      | inr (inl (e, failed)) ↦ cc (rw (on, failed) at done)
      | inr (inr (m, crashed)) ↦ cc (rw (on, crashed) at done)
    ]
    | inr off ↦
        let same : ◌≡◌ {A = Option Server} none o = cc (rw off at done) in rw (sym same, off) refl
  ]

  -- The agent that `New` makes has exactly the parts that its configuration enables.
  new_agent_lem :
      (s : P.State) (g : Agent P)
      → (new_agent P attempts a h s).0 ≡ ok g
      → (is_there g.http_server ≡ Http.is_enabled a.http)
        × (is_there g.client ≡ Client.is_enabled a.client)
        × (is_there g.server ≡ Server.is_enabled h a.server)
  unfolding new_agent
  new_agent_lem s g done =
      let (log, e1, done1, at1) = >>=-ok (lift (deref a.log)) _ s done in
      let (logger, e2, done2, at2) =
        >>=-ok
          (on_error (wrap "failed to create logger: %w") (lift (built_logger P attempts a h log))) _
          s done1 in
      let (http, e3, done3, at3) = >>=-ok (lift (setup_http P attempts a h a.http)) _ s done2 in
      let client_of =
        when P attempts a h (Client.is_enabled a.client)
          (on_error (wrap "failed to setup client: %w") (setup_client P attempts a h)) in
      let server_of =
        when P attempts a h (Server.is_enabled h a.server)
          (on_error (wrap "failed to setup server: %w") (setup_server P attempts a h)) in
      let (client, e4, done4, at4) = >>=-ok client_of _ s done3 in
      let s1 = (client_of s).1 in
      let (server, e5, done5, at5) = >>=-ok server_of _ s1 done4 in
      let built : Agent P = record { http_server = http; client = client; server = server } in
      let made : built ≡ g = cc done5 in
      (
        ap (λ x. is_there x.http_server) (sym made) ∙ setup_http-is_there a.http e3,
        ap (λ x. is_there x.client) (sym made) ∙ when-is_there _ _ s e4,
        ap (λ x. is_there x.server) (sym made) ∙ when-is_there _ _ s1 e5,
      )

  -- A configuration that passes `Validate` and of which `New` makes an agent gives it a client or a
  -- server and not both, each where it is enabled, and the HTTP server where that is.
  pub new_agent_one_mode :
      (H : Platform) (http : HttpConfig) (log : LogConfig) (store : StoreConfig) (s : P.State)
      (g : Agent P)
      → a.http ≡ some http
      → a.log ≡ some log
      → a.store ≡ some store
      → validate H a h ≡ ok []
      → (new_agent P attempts a h s).0 ≡ ok g
      → (is_there g.client ≡ not (is_there g.server))
        × (is_there g.client ≡ Client.is_enabled a.client)
        × (is_there g.http_server ≡ is_true http.enabled)
  new_agent_one_mode H http log store s g at_http at_log at_store valid done =
      let (http_there, client_there, server_there) = new_agent_lem s g done in
      let runnable =
        (validate_iff_IsRunnable H h a http log store at_http at_log at_store).0 valid in
      (
        client_there ∙ runnable.one_mode ∙ ap not (sym server_there),
        client_there,
        http_there ∙ ap Http.is_enabled at_http,
      )
