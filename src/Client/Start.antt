-- ===== src/Client/Start.antt =====
-- internal/agent/client/client.go: `Client` with `New` and `Start`, from the id to the goroutines.
use mathlib.Core.List.{append-nil, append_assoc}
use smuggle.Prelude.{ℕ, String, Option, none, some, List, [], ◌∷◌, ◌++◌, map, ◌≡◌, ◌∙◌, sym, ap}
use smuggle.Prelude.Error.{Result, ok, wrap, map_err}
use smuggle.Prelude.Error.{◌>>=◌ as ◌then_try◌}
use smuggle.Prelude.Int.{ℤ}
use smuggle.Prelude.State.{St, return, on_error, ◌>>=◌, ◌>>◌, >>=-ok, on_error-ok}
use smuggle.Ipv4.{Net}
use smuggle.Network.{Network}
use smuggle.Subnet.{Subnet}
use smuggle.Fingerprint.{Fingerprint}
use smuggle.Store.{Store}
use smuggle.Firewall.Interface.{IpTables}
use smuggle.Disk.{FileSystem}
use smuggle.Client.Identity.{generate_id}
use smuggle.Client.Init.{Local, World, init}
use smuggle.Client.Goroutines.{Goroutine, update_handler, heartbeater}

-- What changes of a client, with the goroutines that it has spawned. The rest is the parameters of
-- `start`.
pub record Client (IP : Type 0) : Type 0 where
  pub id : Option String
  pub networks : List Network
  pub subnets : List (Subnet IP)
  pub spawned : List (Goroutine IP)

abbrev pub fresh_client : {IP : Type 0} → Client IP
fresh_client = record { id = none; networks = []; subnets = []; spawned = [] }

-- `New`, with the result of `NewManager`.
unfoldable pub new_client : {M IP : Type 0} → Result M → Result (M × Client IP)
new_client manager =
    map_err (wrap "failed to create network manager: %w") manager then_try λ m. ok (m, fresh_client)

-- `watch_subnets` is `WatchSubnets` of the store, whose channels the goroutine then receives from.
module _ {IP : Type 0} (S : Store IP) (I : IpTables) (N : Net) (H : Local IP) (F : FileSystem)
    (watch_subnets : Network → St (World S I N H) (Unit {0})) where
  pub record Machine : Type 0 where
    pub client : Client IP
    pub disk : F.State
    pub world : World S I N H

  abbrev pub on_client : (Client IP → Client IP) → St Machine (Unit {0})
  on_client f m = (ok tt, record m { client = f m.client })

  abbrev pub on_disk : {A : Type 0} → St F.State A → St Machine A
  on_disk f m = let (r, d) = f m.disk in (r, record m { disk = d })

  abbrev pub in_world : {A : Type 0} → St (World S I N H) A → St Machine A
  in_world f m = let (r, w) = f m.world in (r, record m { world = w })

  abbrev pub spawn : Goroutine IP → Client IP → Client IP
  spawn g c = record c { spawned = c.spawned ++ (g ∷ []) }

  -- A goroutine for each network, until a watch fails.
  unfoldable pub start_subnet_update_handler : List Network → St Machine (Unit {0})
  start_subnet_update_handler [] = return tt
  start_subnet_update_handler (n ∷ rest) = do
    in_world (watch_subnets n)
    on_client (spawn (update_handler n))
    start_subnet_update_handler rest

  abbrev pub start_heartbeaters : Client IP → Client IP
  start_heartbeaters c = record c { spawned = c.spawned ++ map heartbeater c.subnets }

  abbrev pub take_id : String → Client IP → Client IP
  take_id id c = record c { id = some id }

  -- What `Init` appends to the client, all at once when it succeeds.
  abbrev pub take_networks : List (Network × Subnet IP) → Client IP → Client IP
  take_networks all c = record c {
    networks = c.networks ++ map (λ (p : Network × Subnet IP). p.0) all;
    subnets = c.subnets ++ map (λ (p : Network × Subnet IP). p.1) all;
  }

  module _ (data_dir new_id : String) (draws : Network → ℕ → ℕ → ℕ) (fp : Fingerprint IP)
      (now : Network → ℤ) where
    -- `Start` from the id on.
    unfoldable pub start_with : String → St Machine (Unit {0})
    start_with id = do
      on_client (take_id id)
      all ←
          on_error (wrap "failed to initialize client: %w")
            (in_world (init S I N H draws fp now id))
      on_client (take_networks all)
      on_error (wrap "failed to start remote subnet handler: %w")
          (λ m. start_subnet_update_handler m.client.networks m)
      on_client start_heartbeaters

    unfoldable pub start : St Machine (Unit {0})
    start = do
      id ← on_error (wrap "failed to get client ID: %w") (on_disk (generate_id F data_dir new_id))
      start_with id

  abbrev pub started_client : String → List (Network × Subnet IP) → Client IP
  started_client id all =
      let ns = map (λ (p : Network × Subnet IP). p.0) all in
      let xs = map (λ (p : Network × Subnet IP). p.1) all in
      record {
        id = some id;
        networks = ns;
        subnets = xs;
        spawned = map update_handler ns ++ map heartbeater xs;
      }

  handlers-ok :
      (ns : List Network) (m : Machine)
      → (start_subnet_update_handler ns m).0 ≡ ok tt
      → (start_subnet_update_handler ns m).1.client
        ≡ record m.client { spawned = m.client.spawned ++ map update_handler ns }
  unfolding start_subnet_update_handler
  handlers-ok [] m done =
      ap (λ l. record m.client { spawned = l }) (sym (append-nil m.client.spawned))
  handlers-ok (n ∷ rest) m done =
      let (u, e1, done1, at1) =
        >>=-ok (in_world (watch_subnets n))
          (λ _. on_client (spawn (update_handler n)) >> start_subnet_update_handler rest) m done in
      let m1 = (in_world (watch_subnets n) m).1 in
      let m2 = (on_client (spawn (update_handler n)) m1).1 in
      let all = append_assoc m.client.spawned (update_handler n ∷ []) (map update_handler rest) in
      ap (λ r. r.1.client) at1
      ∙ handlers-ok rest m2 done1
      ∙ ap (λ l. record m.client { spawned = l }) all

  -- A new client whose `Start` succeeds has an id, from the disk or new and written to it, keeps the
  -- networks and subnets that it has set up with that id, and has spawned one goroutine for the watch
  -- of each network and then one for the heartbeat of each subnet, in the order of the networks.
  pub start_lem :
      (data_dir new_id : String) (draws : Network → ℕ → ℕ → ℕ) (fp : Fingerprint IP)
      (now : Network → ℤ) (m : Machine)
      → m.client ≡ fresh_client
      → (start data_dir new_id draws fp now m).0 ≡ ok tt
      → (id : String) × (all : List (Network × Subnet IP)) × ((generate_id F data_dir new_id
            m.disk).0
          ≡ ok id)
        × ((init S I N H draws fp now id m.world).0 ≡ ok all)
        × ((start data_dir new_id draws fp now m).1.client ≡ started_client id all)
  unfolding start start_with
  start_lem data_dir new_id draws fp now m fresh done =
      let read = on_disk (generate_id F data_dir new_id) in
      let (id, e1, done1, at1) =
        >>=-ok (on_error (wrap "failed to get client ID: %w") read)
          (start_with data_dir new_id draws fp now) m done in
      let m1 = (read m).1 in
      let m2 = (on_client (take_id id) m1).1 in
      let set_up = in_world (init S I N H draws fp now id) in
      let (all, e2, done2, at2) =
        >>=-ok (on_error (wrap "failed to initialize client: %w") set_up) _ m2 done1 in
      let m3 = (set_up m2).1 in
      let m4 = (on_client (take_networks all) m3).1 in
      let watch = λ (k : Machine). start_subnet_update_handler k.client.networks k in
      let (u, e3, done3, at3) =
        >>=-ok (on_error (wrap "failed to start remote subnet handler: %w") watch)
          (λ _. on_client start_heartbeaters) m4 done2 in
      let watched =
        handlers-ok m4.client.networks m4
          (on_error-ok (wrap "failed to start remote subnet handler: %w") watch m4 e3) in
      (
        id,
        all,
        on_error-ok (wrap "failed to get client ID: %w") read m e1,
        on_error-ok (wrap "failed to initialize client: %w") set_up m2 e2,
        ap (λ r. r.1.client) (at1 ∙ at2 ∙ at3)
            ∙ ap start_heartbeaters watched
            ∙ ap
                (λ c. record (start_heartbeaters (take_networks all (take_id id c))) {
                  spawned =
                      (c.spawned ++ map update_handler (take_networks all (take_id id c)).networks)
                      ++ map heartbeater (take_networks all (take_id id c)).subnets;
                })
                fresh,
      )
