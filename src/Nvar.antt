-- ===== src/Nvar.antt =====
-- internal/store/nvar/nvar.go: the store on Nomad variables. The variables' API, the JSON texts and
-- the joining of paths are parameters.
pub mod Interface
pub mod Entries
pub mod Watch
pub mod Loop
pub mod Listing
pub mod Sound
pub mod Refinement
use smuggle.Prelude.{
  String, Bool, Option, none, some, List, [], ◌∷◌, ◌++◌, if◌then◌else◌, ◌==◌, string_eq,
}
use smuggle.Prelude.Error.{Error, Result, ok, err, panic, new_error, wrap, is_error, map_err}
use smuggle.Prelude.Error.{◌>>=◌ as ◌then_try◌}
use smuggle.Prelude.State.{St, return, lift, fail, on_error, ◌>>=◌, ◌>>◌}
use smuggle.Network.{Network}
use smuggle.Subnet.{Subnet}
use Interface.{Variables, Codec, Stub, Items, variable_path_not_found}

-- The base paths are those that `New` computes: `networks` and `subnets` with the version under the
-- path of the configuration.
pub record Paths : Type 0 where
  pub config_path : String
  pub client_path : String

-- `items["data"]`
abbrev pub lookup : String → Items → Option String
lookup key [] = none
lookup key ((k, v) ∷ rest) = let later = lookup key rest in if k == key then some v else later

module _ {IP : Type 0} (C : Codec IP) where
  open C use {join, unmarshal, unmarshal_network}

  -- `New`
  unfoldable pub new_store : String → Paths
  new_store base = record {
    config_path = join (base ∷ "networks" ∷ "v1" ∷ []);
    client_path = join (base ∷ "subnets" ∷ "v1" ∷ []);
  }

  unfoldable pub parse_network : Items → Result Network
  parse_network items = elim (lookup "data" items) [
    | none ↦ err (new_error "data key not found in variable items")
    | some text ↦ unmarshal_network text
  ]

  unfoldable pub parse_client_subnet_config : Items → Result (Subnet IP)
  parse_client_subnet_config items = elim (lookup "data" items) [
    | none ↦ err (new_error "data key not found in variable items")
    | some text ↦ unmarshal text
  ]

  module _ (V : Variables) (paths : Paths) where
    open V use {State, list, read, update, delete}

    -- The loops over the variables that a list gives: each is read and parsed, and the first error
    -- ends the call.
    unfoldable pub read_networks : List Stub → St State (List Network)
    unfolding parse_network
    read_networks [] = return []
    read_networks (m ∷ rest) = do
      items ← on_error (wrap "failed to read network: %w") (read m.path)
      network ← lift (map_err (wrap "failed to parse network: %w") (parse_network items))
      networks ← read_networks rest
      return (network ∷ networks)

    unfoldable pub list_networks : St State (List Network)
    list_networks = do
      (l, _) ← on_error (wrap "failed to list networks: %w") (list paths.config_path 0)
      read_networks l

    unfoldable pub read_subnets : List Stub → St State (List (Subnet IP))
    read_subnets [] = return []
    read_subnets (m ∷ rest) = do
      items ← on_error (wrap "failed to read subnet: %w") (read m.path)
      subnet ← lift (map_err (wrap "failed to parse subnet: %w") (parse_client_subnet_config items))
      subnets ← read_subnets rest
      return (subnet ∷ subnets)

    unfoldable pub list_subnets : String → St State (List (Subnet IP))
    list_subnets network = do
      (l, _) ←
          on_error (wrap "failed to list subnets: %w")
            (list (join (paths.client_path ∷ network ∷ [])) 0)
      read_subnets l

    abbrev pub subnet_path : String → String → String
    subnet_path network id = join (paths.client_path ∷ network ∷ id ∷ [])

    unfoldable pub delete_subnet : String → String → St State (Unit {0})
    delete_subnet network id =
        on_error (wrap "failed to delete subnet: %w") (delete (subnet_path network id))

    unfoldable pub set_subnet : Subnet IP → St State (Unit {0})
    set_subnet x = do
      data_text ← lift (map_err (wrap "failed to marshal subnet: %w") (C.marshal x))
      on_error (wrap "failed to write subnet: %w")
          (update (subnet_path x.network_name x.client_id) (("data", data_text) ∷ []))

    -- The answer of a read: the sentinel error means that there is no subnet.
    unfoldable pub subnet_read : Result Items → Result (Option (Subnet IP))
    subnet_read (ok items) =
        map_err (wrap "failed to parse subnet: %w") (parse_client_subnet_config items) then_try λ x.
        ok (some x)
    subnet_read (err e) =
        if is_error e variable_path_not_found
        then ok none
        else err (wrap "failed to read subnet: %w" e)
    subnet_read (panic p) = panic p

    unfoldable pub get_subnet : String → String → St State (Option (Subnet IP))
    get_subnet network id s = let (r, t) = read (subnet_path network id) s in (subnet_read r, t)
