-- ===== src/Config/Command.antt =====
-- The command line that the configuration is read from: package cli, as far as it is used.
use smuggle.Prelude.{ℕ, String, Bool, Option, none, some, List, if◌then◌else◌}
use smuggle.Prelude.Int.{ℤ}

-- What the flags of a command give; a flag that is not given reads as its zero value.
pub record Command : Type 0 where
  pub is_set : String → Bool
  pub string : String → String
  pub bool : String → Bool
  pub uint : String → ℕ
  pub duration : String → ℤ
  pub string_args : String → List String

pub data FlagKind : Type 0 where
  bool_flag string_flag uint_flag duration_flag string_slice_flag : FlagKind

-- The fields of a flag that the code sets, and the variable that it is read from.
pub record Flag : Type 0 where
  pub kind : FlagKind
  pub name : String
  pub usage : String
  pub env : Option String

-- A flag with `HideDefault` and one variable.
abbrev pub flag : FlagKind → String → String → String → Flag
flag kind name env usage = record { kind = kind; name = name; usage = usage; env = some env }

-- `if cmd.IsSet(flag) { val := cmd.Bool(flag); return &val }; return nil`
abbrev pub bool_if_set : Command → String → Option Bool
bool_if_set cmd name = if cmd.is_set name then some (cmd.bool name) else none
