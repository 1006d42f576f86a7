-- ===== src/Config/Nomad.antt =====
-- internal/config/nomad.go
use smuggle.Prelude.{String, Bool, false, Option, none, some, List, [], ◌∷◌, ◌≡◌}
use smuggle.Prelude.Error.{Error}
use smuggle.Config.Merge.{override, override_text, override_assoc, override_text_assoc}
use smuggle.Config.Command.{Command, Flag, flag, bool_flag, string_flag, bool_if_set}

pub record NomadConfig : Type 0 where
  pub address : String
  pub token : String
  pub ca_cert : String
  pub ca_path : String
  pub client_cert : String
  pub client_key : String
  pub tls_server_name : String
  pub skip_verify : Option Bool

abbrev pub default_nomad_config : NomadConfig
default_nomad_config = record {
  address = "http://localhost:4646";
  token = "";
  ca_cert = "";
  ca_path = "";
  client_cert = "";
  client_key = "";
  tls_server_name = "";
  skip_verify = some false;
}

abbrev pub merge : NomadConfig → NomadConfig → NomadConfig
merge n other = record {
  address = override_text n.address other.address;
  token = override_text n.token other.token;
  ca_cert = override_text n.ca_cert other.ca_cert;
  ca_path = override_text n.ca_path other.ca_path;
  client_cert = override_text n.client_cert other.client_cert;
  client_key = override_text n.client_key other.client_key;
  tls_server_name = override_text n.tls_server_name other.tls_server_name;
  skip_verify = override n.skip_verify other.skip_verify;
}

abbrev pub validate : Option NomadConfig → List Error
validate n = []

abbrev pub addr_flag : String
addr_flag = "nomad-addr"

abbrev pub token_flag : String
token_flag = "nomad-token"

abbrev pub ca_cert_flag : String
ca_cert_flag = "nomad-ca-cert"

abbrev pub ca_path_flag : String
ca_path_flag = "nomad-ca-path"

abbrev pub client_cert_flag : String
client_cert_flag = "nomad-client-cert"

abbrev pub client_key_flag : String
client_key_flag = "nomad-client-key"

abbrev pub tls_server_name_flag : String
tls_server_name_flag = "nomad-tls-server-name"

abbrev pub skip_verify_flag : String
skip_verify_flag = "nomad-skip-verify"

abbrev pub nomad_config_command_flags : List Flag
nomad_config_command_flags =
    flag string_flag addr_flag "NOMAD_ADDR" "The Nomad server address"
    ∷ flag string_flag token_flag "NOMAD_TOKEN" "The Nomad ACL token to use for HTTP requests"
    ∷ flag string_flag ca_cert_flag "NOMAD_CACERT"
        "Path to a PEM encoded CA cert file to use to verify the Nomad server SSL certificate"
    ∷ flag string_flag ca_path_flag "NOMAD_CAPATH"
        "Path to a directory of PEM encoded CA cert files to verify the Nomad server SSL certificate"
    ∷ flag string_flag client_cert_flag "NOMAD_CLIENT_CERT"
        "Path to a PEM encoded client certificate for TLS authentication to the Nomad server"
    ∷ flag string_flag client_key_flag "NOMAD_CLIENT_KEY"
        "Path to an unencrypted PEM encoded private key matching the client certificate"
    ∷ flag string_flag tls_server_name_flag "NOMAD_TLS_SERVER_NAME"
        "The server name to use as the SNI host when connecting via TLS"
    ∷ flag bool_flag skip_verify_flag "NOMAD_SKIP_VERIFY" "Do not verify TLS certificate"
    ∷ []

abbrev pub nomad_config_from_command : Command → NomadConfig
nomad_config_from_command cmd = record {
  address = cmd.string addr_flag;
  token = cmd.string token_flag;
  ca_cert = cmd.string ca_cert_flag;
  ca_path = cmd.string ca_path_flag;
  client_cert = cmd.string client_cert_flag;
  client_key = cmd.string client_key_flag;
  tls_server_name = cmd.string tls_server_name_flag;
  skip_verify = bool_if_set cmd skip_verify_flag;
}

-- `api.Config`, as far as it is set.
pub record ApiConfig : Type 0 where
  pub api_address : String
  pub secret_id : String
  pub tls_ca_cert : String
  pub tls_ca_path : String
  pub tls_client_cert : String
  pub tls_client_key : String
  pub tls_server_name : String
  pub insecure : Bool

-- `NomadClient`: the settings over those of `api.DefaultConfig`.
abbrev pub nomad_client_config : ApiConfig → Option NomadConfig → ApiConfig
nomad_client_config base none = base
nomad_client_config base (some cfg) = record {
  api_address = override_text base.api_address cfg.address;
  secret_id = override_text base.secret_id cfg.token;
  tls_ca_cert = override_text base.tls_ca_cert cfg.ca_cert;
  tls_ca_path = override_text base.tls_ca_path cfg.ca_path;
  tls_client_cert = override_text base.tls_client_cert cfg.client_cert;
  tls_client_key = override_text base.tls_client_key cfg.client_key;
  tls_server_name = override_text base.tls_server_name cfg.tls_server_name;
  insecure = elim cfg.skip_verify [ none ↦ base.insecure | some b ↦ b ];
}

pub merge_assoc : (a b c : NomadConfig) → merge (merge a b) c ≡ merge a (merge b c)
merge_assoc a b c = rw (
  override_text_assoc a.address b.address c.address,
  override_text_assoc a.token b.token c.token,
  override_text_assoc a.ca_cert b.ca_cert c.ca_cert,
  override_text_assoc a.ca_path b.ca_path c.ca_path,
  override_text_assoc a.client_cert b.client_cert c.client_cert,
  override_text_assoc a.client_key b.client_key c.client_key,
  override_text_assoc a.tls_server_name b.tls_server_name c.tls_server_name,
  override_assoc a.skip_verify b.skip_verify c.skip_verify,
)
