-- ===== src/Tests/Entries.antt =====
-- The theorems on the reaper, the client and the Nomad store, on stores in memory.
use smuggle.Prelude.{
  ℕ, suc, ◌&&◌, if◌then◌else◌, String, true, none, some, List, [], ◌∷◌, ◌≡◌, ◌⊎◌, refl, inl, ◌<>◌,
  ◌==◌, string_eq,
}
use smuggle.Prelude.Error.{Result, ok}
use smuggle.Prelude.Int.{ℤ, pos}
use smuggle.Subnet.{Subnet}
use smuggle.Reaper.{reap_subnet, run_subnet_reap}
use smuggle.Reaper.Pass.{reaped, reaped_entry, run_subnet_reap_lem}
use smuggle.Reaper.Complete.{run_subnet_reap_complete}
use smuggle.Client.Heartbeat.{heartbeats, heartbeats_expire}
use smuggle.Client.Remote.{
  handle_subnet_set, handle_subnet_delete, handle_subnet_report_lem, others, run_each,
}
use smuggle.Nvar.{
  Paths, parse_client_subnet_config, set_subnet, delete_subnet, list_subnets, read_subnets,
}
use smuggle.Nvar.Interface.{Codec}
use smuggle.Tests.Memory.{
  Shelf, memory_store, memory_store-IsLawful, list_at, Vault, memory_variables,
}
use smuggle.Tests.Plans.{blue, owned, net_b}

abbrev pub mine : Subnet ℕ
mine = owned "a" net_b

-- A store that holds one subnet.
abbrev pub shelf : Shelf
shelf n i = if n == "blue" && i == "a" then some mine else none

-- 25 hours.
abbrev later : ℤ
later = pos 90000000000000

run_subnet_reap_lem_example :
    (run_subnet_reap memory_store (pos 0) later blue shelf "blue" "a" ≡ shelf "blue" "a")
    ⊎ (run_subnet_reap memory_store (pos 0) later blue shelf "blue" "a"
        ≡ reaped_entry memory_store (pos 0) later (shelf "blue" "a"))
run_subnet_reap_lem_example =
    run_subnet_reap_lem memory_store (pos 0) later memory_store-IsLawful blue shelf "blue" "a"

run_subnet_reap_complete_example :
    run_subnet_reap memory_store (pos 0) later blue shelf "blue" "a"
    ≡ reaped memory_store (pos 0) later mine
run_subnet_reap_complete_example =
    run_subnet_reap_complete memory_store memory_store-IsLawful (λ x t. refl) (λ n i t. refl)
      (pos 0) later blue shelf (list_at shelf "blue") mine refl (inl refl)

heartbeats_expire_example :
    let after = heartbeats memory_store mine (pos 28800000000000 ∷ pos 57600000000000 ∷ []) shelf in
    (after "blue" "a" ≡ some mine)
    × (reap_subnet memory_store (pos 0) later mine after
        ≡ (memory_store.set_subnet (record mine { expired = true }) after).1)
heartbeats_expire_example =
    heartbeats_expire memory_store memory_store-IsLawful mine
      (pos 28800000000000 ∷ pos 57600000000000 ∷ []) (pos 0) later shelf refl refl refl

-- A provider that counts its calls.
abbrev counted : Subnet ℕ → ℕ → Result (Unit {0}) × ℕ
counted x n = (ok tt, suc n)

handle_subnet_report_lem_example :
    (handle_subnet_set "a" counted (mine ∷ owned "b" net_b ∷ []) 0
      ≡ run_each counted (others "a" (mine ∷ owned "b" net_b ∷ [])) 0)
    × (handle_subnet_delete "a" counted (mine ∷ owned "b" net_b ∷ []) 0
        ≡ run_each counted (others "a" (mine ∷ owned "b" net_b ∷ [])) 0)
handle_subnet_report_lem_example =
    handle_subnet_report_lem "a" counted counted (mine ∷ owned "b" net_b ∷ []) 0

-- One text, for one subnet, and paths joined by a slash.
abbrev pub joined : List String → String
joined [] = ""
joined (p ∷ []) = p
joined (p ∷ q ∷ rest) = p <> "/" <> joined (q ∷ rest)

abbrev pub codec : Codec ℕ
codec = record {
  join = joined;
  marshal = λ x. ok "json";
  unmarshal = λ t. ok mine;
  unmarshal_network = λ t. ok blue;
}

abbrev pub paths : Paths
paths = record { config_path = "n"; client_path = "p" }

abbrev empty_vault : Vault
empty_vault p = none

abbrev vault : Vault
vault p = if p == "p/blue/a" then some (("data", "json") ∷ []) else none

set_ok : (set_subnet codec memory_variables paths mine empty_vault).0 ≡ ok tt
unfolding set_subnet
set_ok = refl

delete_ok : (delete_subnet codec memory_variables paths "blue" "a" vault).0 ≡ ok tt
unfolding delete_subnet
delete_ok = refl

list_ok : (list_subnets codec memory_variables paths "blue" vault).0 ≡ ok (mine ∷ [])
unfolding list_subnets read_subnets parse_client_subnet_config
list_ok = refl

pub parse_ok : parse_client_subnet_config codec (("data", "json") ∷ []) ≡ ok mine
unfolding parse_client_subnet_config
parse_ok = refl
