-- ===== src/Config/Client.antt =====
-- internal/config/client.go
use smuggle.Prelude.{
  String, Bool, true, false, ◌||◌, not, Option, none, some, List, [], ◌∷◌, ◌++◌, if◌then◌else◌,
}
use smuggle.Prelude.{◌==◌, string_eq, ◌≡◌, refl}
use smuggle.Prelude.Error.{Error, errorf, new_error}
use smuggle.Config.Merge.{override, override_text, is_true, override_assoc, override_text_assoc}
use smuggle.Config.Command.{Command, Flag, flag, bool_flag, string_flag, bool_if_set}

pub record ClientConfig : Type 0 where
  pub enabled : Option Bool
  pub data_dir : String
  pub disable_ip_masq : Bool
  pub network_interface : String

abbrev pub default_client_config : ClientConfig
default_client_config = record {
  enabled = some false;
  data_dir = "/var/lib/smuggle/client";
  disable_ip_masq = false;
  network_interface = "";
}

abbrev pub is_enabled : Option ClientConfig → Bool
is_enabled none = false
is_enabled (some c) = is_true c.enabled

-- `Merge` of two configurations that are not nil. A Bool without a pointer can only be switched on.
abbrev pub merge : ClientConfig → ClientConfig → ClientConfig
merge c other = record {
  enabled = override c.enabled other.enabled;
  data_dir = override_text c.data_dir other.data_dir;
  disable_ip_masq = (if other.disable_ip_masq then other.disable_ip_masq else c.disable_ip_masq);
  network_interface = override_text c.network_interface other.network_interface;
}

-- `goos` is the operating system, and `is_abs` is that of package filepath.
module _ (goos : String) (is_abs : String → Bool) where
  abbrev pub check : ClientConfig → List Error
  check c =
      (if goos == "linux"
        then []
        else errorf "client functionality not supported on %q" (goos ∷ []) ∷ [])
      ++ (if not (is_abs c.data_dir) || c.data_dir == ""
          then new_error "client data directory must be an absolute path" ∷ []
          else [])

  abbrev pub validate : Option ClientConfig → List Error
  validate none = []
  validate (some c) = if not (is_true c.enabled) then [] else check c

abbrev pub enabled_flag : String
enabled_flag = "client-enabled"

abbrev pub data_dir_flag : String
data_dir_flag = "client-data-dir"

abbrev pub disable_ip_masq_flag : String
disable_ip_masq_flag = "client-disable-ipmasq"

abbrev pub network_interface_flag : String
network_interface_flag = "client-network-interface"

abbrev pub client_config_command_flags : List Flag
client_config_command_flags =
    flag bool_flag enabled_flag "SMUGGLE_CLIENT_ENABLED"
      "Enable or disable the Smuggle client functionality"
    ∷ flag string_flag data_dir_flag "SMUGGLE_CLIENT_DATA_DIR"
        "The data directory for the Smuggle client"
    ∷ flag bool_flag disable_ip_masq_flag "SMUGGLE_CLIENT_DISABLE_IPMASQ"
        "Disable IP masquerading for client networks"
    ∷ flag string_flag network_interface_flag "SMUGGLE_CLIENT_NETWORK_INTERFACE"
        "The network interface to use for client networking"
    ∷ []

abbrev pub client_config_from_command : Command → ClientConfig
client_config_from_command cmd = record {
  enabled = bool_if_set cmd enabled_flag;
  data_dir = cmd.string data_dir_flag;
  disable_ip_masq =
      (if cmd.is_set disable_ip_masq_flag then cmd.bool disable_ip_masq_flag else false);
  network_interface = cmd.string network_interface_flag;
}

pub merge_assoc : (a b c : ClientConfig) → merge (merge a b) c ≡ merge a (merge b c)
merge_assoc a b c = rw (
  override_assoc a.enabled b.enabled c.enabled,
  override_text_assoc a.data_dir b.data_dir c.data_dir,
  override_text_assoc a.network_interface b.network_interface c.network_interface,
  later_flag a.disable_ip_masq b.disable_ip_masq c.disable_ip_masq,
)
  where
    later_flag :
        (x y z : Bool)
        → (if z then z else (if y then y else x))
          ≡ (if (if z then z else y) then (if z then z else y) else x)
    later_flag x y true = refl
    later_flag x true false = refl
    later_flag x false false = refl
