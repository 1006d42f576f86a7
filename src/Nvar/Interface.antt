-- ===== src/Nvar/Interface.antt =====
-- The calls of Nomad's variables that the store makes, the JSON texts and the joining of paths, with
-- what their packages document of them.
use smuggle.Prelude.{ℕ, String, true, Option, none, some, List, ◌≡◌, ◌&&◌, ◌<>◌, All}
use smuggle.Prelude.{if◌then◌else◌, ◌==◌, string_eq}
use smuggle.Prelude.Error.{Error, Result, ok, err, panic, is_error}
use smuggle.Prelude.State.{St}
use smuggle.Network.{Network}
use smuggle.Subnet.{Subnet}
use smuggle.Firewall.Interface.{is_ok}

abbrev pub Items : Type 0
Items = List (String × String)

-- `api.VariableMetadata`: the path and the index of the last change.
pub record Stub : Type 0 where
  pub path : String
  pub modify_index : ℕ

-- The sentinel error of the API for a path that holds nothing.
abbrev pub variable_path_not_found : String
variable_path_not_found = "variable path not found"

-- A list returns the variables under a prefix and the index that it was made at. The second
-- argument is the index that a blocking query waits for.
pub record Variables : Type 1 where
  pub State : Type 0
  pub list : String → ℕ → St State (List Stub × ℕ)
  pub read : String → St State Items
  pub update : String → Items → St State (Unit {0})
  pub delete : String → St State (Unit {0})

pub record Codec (IP : Type 0) : Type 0 where
  pub join : List String → String
  pub marshal : Subnet IP → Result String
  pub unmarshal : String → Result (Subnet IP)
  pub unmarshal_network : String → Result Network

-- `items` is what a path holds. The paths that a list gives begin with its prefix. A call that fails changes nothing; a read of a path that holds
-- nothing fails with the sentinel, and one of a path that holds something with another error.
pub record IsLawful (V : Variables) : Type 0 where
  pub items : V.State → String → Option Items
  pub items-list :
      (prefix : String) (wait : ℕ) (s : V.State) (p : String)
      → items (V.list prefix wait s).1 p ≡ items s p
  pub items-read :
      (path : String) (s : V.State) (p : String) → items (V.read path s).1 p ≡ items s p
  pub items-update :
      (path : String) (v : Items) (s : V.State) (p : String)
      → items (V.update path v s).1 p
        ≡ (if is_ok (V.update path v s).0 && path == p then some v else items s p)
  pub items-delete :
      (path : String) (s : V.State) (p : String)
      → items (V.delete path s).1 p
        ≡ (if is_ok (V.delete path s).0 && path == p then none else items s p)
  pub list_ok :
      (prefix : String) (wait index : ℕ) (s : V.State) (ms : List Stub)
      → (V.list prefix wait s).0 ≡ ok (ms, index)
      → All (λ m. (rest : String) × (m.path ≡ prefix <> rest)) ms
  pub read_ok :
      (path : String) (s : V.State) (v : Items) → (V.read path s).0 ≡ ok v → items s path ≡ some v
  pub read_err :
      (path : String) (s : V.State) (e : Error)
      → (V.read path s).0 ≡ err e
      → is_error e variable_path_not_found ≡ true
      → items s path ≡ none
  pub read_panic : (path : String) (s : V.State) (p : String) → ¬ ((V.read path s).0 ≡ panic p)
