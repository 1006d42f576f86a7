-- ===== src/Config/Store.antt =====
-- internal/config/store.go
use smuggle.Prelude.{ℕ, String, Option, none, some, List, [], ◌∷◌, if◌then◌else◌, ◌==◌, string_eq}
use smuggle.Prelude.Error.{Error, errorf, new_error}
use smuggle.Config.Merge.{override_text}
use smuggle.Config.Cells.{StoreConfig, Heap, write_nvar, new_nvar}
use smuggle.Config.Command.{Command, Flag, flag, string_flag}

abbrev pub default_store_config : Heap → StoreConfig × Heap
default_store_config h =
    let (r, h1) = new_nvar "smuggle/" h in (record { backend = "nvar"; nvar = some r }, h1)

-- `if other.NVar != nil { … }` on the copy `s`, whose pointer is that of the receiver.
abbrev pub merge_nvar : StoreConfig → Option ℕ → Option ℕ → Heap → StoreConfig × Heap
merge_nvar s own none h = (s, h)
merge_nvar s (some r) (some q) h = (s, write_nvar r (override_text (h.nvars r) (h.nvars q)) h)
merge_nvar s none (some q) h =
    let (r, h1) = new_nvar "" h in
    (record s { nvar = some r }, write_nvar r (override_text (h1.nvars r) (h1.nvars q)) h1)

-- `Merge` returns a copy, but writes the path of its receiver.
abbrev pub merge : Option StoreConfig → Option StoreConfig → Heap → Option StoreConfig × Heap
merge none other h = (other, h)
merge (some s) none h = (some s, h)
merge (some s) (some o) h =
    let copied = record s { backend = override_text s.backend o.backend } in
    let (result, h1) = merge_nvar copied copied.nvar o.nvar h in (some result, h1)

-- A nil configuration is read, so this is for one that is not nil.
abbrev pub validate : Heap → StoreConfig → List Error
validate h s =
    if s.backend == "nvar"
    then elim s.nvar [
      | none ↦ new_error "nvar backend set without nvar configuration" ∷ []
      | some r ↦
          if h.nvars r == "" then new_error "nvar backend requires path to be set" ∷ [] else []
    ]
    else errorf "unsupported backend: %q" (s.backend ∷ []) ∷ []

abbrev pub backend_flag : String
backend_flag = "store-backend"

abbrev pub nvar_path_flag : String
nvar_path_flag = "store-nvar-path"

abbrev pub store_config_command_flags : List Flag
store_config_command_flags =
    flag string_flag backend_flag "SMUGGLE_STORE_BACKEND"
      "The backend to use for storing network configuration"
    ∷ flag string_flag nvar_path_flag "SMUGGLE_STORE_NVAR_PATH"
        "The path prefix to use when storing network configuration in Nomad variables"
    ∷ []

abbrev pub store_config_from_command : Command → Heap → StoreConfig × Heap
store_config_from_command cmd h =
    let (r, h1) = new_nvar (cmd.string nvar_path_flag) h in
    (record { backend = cmd.string backend_flag; nvar = some r }, h1)
