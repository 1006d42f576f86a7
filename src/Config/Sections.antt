-- ===== src/Config/Sections.antt =====
-- Laws of the sections that are merged as values.
use mathlib.Core.Path.{fun_ext}
use smuggle.Prelude.{String, Bool, false, Option, none, some, ◌≡◌, refl}
use smuggle.Prelude.{nat_eq, string_eq}
use smuggle.Config.Merge.{override, merge_with, merge_with_assoc, override_text_assoc}
use smuggle.Config.Command.{Command}
use smuggle.Config.Client
use smuggle.Config.Http
use smuggle.Config.Log
use smuggle.Config.Nomad
use smuggle.Config.Nomad.{ApiConfig, NomadConfig, nomad_client_config}

-- Three configurations of a section may be merged in groups from either side, nil pointers included:
-- merging what the files say and then the flags is merging each in turn.
pub merge_sections_assoc :
    (c c' c'' : Option Client.ClientConfig) (h h' h'' : Option Http.HttpConfig)
    (l l' l'' : Option Log.LogConfig) (n n' n'' : Option NomadConfig)
    → (merge_with Client.merge (merge_with Client.merge c c') c''
        ≡ merge_with Client.merge c (merge_with Client.merge c' c''))
      × (merge_with Http.merge (merge_with Http.merge h h') h''
          ≡ merge_with Http.merge h (merge_with Http.merge h' h''))
      × (merge_with Log.merge (merge_with Log.merge l l') l''
          ≡ merge_with Log.merge l (merge_with Log.merge l' l''))
      × (merge_with Nomad.merge (merge_with Nomad.merge n n') n''
          ≡ merge_with Nomad.merge n (merge_with Nomad.merge n' n''))
merge_sections_assoc c c' c'' h h' h'' l l' l'' n n' n'' = (
  merge_with_assoc Client.merge Client.merge_assoc c c' c'',
  merge_with_assoc Http.merge Http.merge_assoc h h' h'',
  merge_with_assoc Log.merge Log.merge_assoc l l' l'',
  merge_with_assoc Nomad.merge Nomad.merge_assoc n n' n'',
)

-- A command without flags.
pub record IsBare (cmd : Command) : Type 0 where
  pub unset : (name : String) → cmd.is_set name ≡ false
  pub no_string : (name : String) → cmd.string name ≡ ""
  pub no_uint : (name : String) → cmd.uint name ≡ 0

-- The flags that are not given leave every section as it is.
pub bare_command_keeps :
    (cmd : Command) (c : Client.ClientConfig) (h : Http.HttpConfig) (l : Log.LogConfig)
    (n : NomadConfig)
    → IsBare cmd
    → (Client.merge c (Client.client_config_from_command cmd) ≡ c)
      × (Http.merge h (Http.http_config_from_command cmd) ≡ h)
      × (Log.merge l (Log.log_config_from_command cmd) ≡ l)
      × (Nomad.merge n (Nomad.nomad_config_from_command cmd) ≡ n)
bare_command_keeps cmd c h l n b =
    let no_flag : cmd.is_set ≡ (λ _. false) = fun_ext b.unset in
    let no_text : cmd.string ≡ (λ _. "") = fun_ext b.no_string in
    let no_number : cmd.uint ≡ (λ _. 0) = fun_ext b.no_uint in
    (
      rw (no_flag, no_text) refl,
      rw (no_flag, no_text, no_number) refl,
      rw (no_flag, no_text) refl,
      rw (no_flag, no_text) refl,
    )

tls_assoc :
    (base : Bool) (a b : Option Bool)
    → (elim b [ none ↦ (elim a [ none ↦ base | some x ↦ x ]) | some y ↦ y ])
      ≡ (elim (override a b) [ none ↦ base | some x ↦ x ])
tls_assoc base a none = refl
tls_assoc base a (some y) = refl

-- The settings of Nomad's client that a merged section gives are those that its parts give one
-- after the other.
pub nomad_client_config-merge :
    (base : ApiConfig) (a b : NomadConfig)
    → nomad_client_config base (some (Nomad.merge a b))
      ≡ nomad_client_config (nomad_client_config base (some a)) (some b)
nomad_client_config-merge base a b =
    rw
      (
        override_text_assoc base.api_address a.address b.address,
        override_text_assoc base.secret_id a.token b.token,
        override_text_assoc base.tls_ca_cert a.ca_cert b.ca_cert,
        override_text_assoc base.tls_ca_path a.ca_path b.ca_path,
        override_text_assoc base.tls_client_cert a.client_cert b.client_cert,
        override_text_assoc base.tls_client_key a.client_key b.client_key,
        override_text_assoc base.tls_server_name a.tls_server_name b.tls_server_name,
        tls_assoc base.insecure a.skip_verify b.skip_verify,
      )
      refl
