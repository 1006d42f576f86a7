-- ===== src/Tests/Goroutines.antt =====
-- A server that stops, and a client with its goroutines.
use smuggle.Prelude.{ℕ, suc, String, true, false, List, [], ◌∷◌, ◌≡◌, refl, list_eq, list_beq}
use smuggle.Prelude.Error.{ok}
use smuggle.Prelude.Int.{pos}
use smuggle.Prelude.State.{St}
use smuggle.Ipv4.{shl32}
use smuggle.Network.{
  Network, validate, bridge_interface_name, interface_name, canonicalize, canonical_masq,
}
use smuggle.Subnet.{Subnet}
use smuggle.Store.{Store}
use smuggle.Firewall.{
  setup_masq_rules, setup_forward_rules, setup_forward_cidr, network_cidr, subnet_cidr,
  ensure_chain, apply_all, apply_forward, masq_rules, forward_rules, accept_rules, apply_rule,
  ensure_jump_rule_first, delete_if, ensure_isolation,
}
use smuggle.Reaper.{network_reaper}
use smuggle.Reaper.Loop.{Clock, reaper_work, new_server, start_server}
use smuggle.Workers.{
  spawned, starting, looping, ended, waiting, not_called, returned_nil, System, Work, Reach, start,
  later, turn, close, wait, finish, add, begin, event, quit, here, there,
}
use smuggle.Workers.Shutdown.{HaveBegun, HaveEnded, stop_returned_lem}
use smuggle.Workers.Progress.{stop_can_return}
use smuggle.Workers.Late.{stop_returns_early}
use smuggle.Client.Init.{
  Local, World, init, init_listed, init_all, init_network, own_subnet, init_subnet, setup_masq,
  generate_cni_config,
}
use smuggle.Client.Identity.{generate_id, store_new_id}
use smuggle.Client.Start
use smuggle.Client.Start.{fresh_client, started_client, start_lem, start_subnet_update_handler}
use smuggle.Client.Goroutines.{
  Goroutine, Event, update_handler, heartbeater, client_work, AllOwn, ticked, tick, handle_event,
  goroutines-AllOwn,
}
use smuggle.Tests.Memory.{Shelf, memory_store, memory_store-IsLawful, memory_tables}
use smuggle.Tests.Plans.{blue, host, zeros}
use smuggle.Tests.Rules.{texts, bare}
use smuggle.Tests.Entries.{mine, shelf}
use smuggle.Tests.Disks.{disk, blank}

abbrev clock : Clock
clock n = pos 0

abbrev reaper : Work Clock Clock Shelf
reaper = reaper_work memory_store (pos 0)

-- A server whose reaper has come to its loop.
abbrev in_loop : System Clock Shelf
in_loop = record (start_server memory_store (pos 0) clock (new_server memory_store (pos 0) shelf)) {
  workers = (clock, looping) ∷ [];
  group = 1;
}

abbrev stopping : System Clock Shelf
stopping = record in_loop { shutdown_closed = true; stop = waiting }

abbrev stopped : System Clock Shelf
stopped = record stopping {
  workers = (clock, ended) ∷ [];
  group = 0;
  waited = true;
  stop = returned_nil;
}

has_begun : HaveBegun reaper ((clock, looping) ∷ [])
has_begun = (λ e. cc e, tt)

stopped-Reach : Reach reaper in_loop stopped
stopped-Reach =
    later
      (later (later (later start (close refl)) (turn (here [] (quit 1 0 shelf refl refl))))
        (wait refl refl))
      (finish refl refl)

stop_returned_lem_example :
    HaveEnded reaper ((clock, ended) ∷ []) × (stopped.shared ≡ stopped.shared)
stop_returned_lem_example =
    stop_returned_lem reaper {s = in_loop} {t = stopped} {u = stopped} refl has_begun refl refl
      stopped-Reach refl start

stop_can_return_example :
    (t : System Clock Shelf) × Reach reaper stopping t
    × (t.stop ≡ returned_nil)
    × HaveEnded reaper t.workers
stop_can_return_example = stop_can_return reaper stopping refl has_begun refl refl

-- A server that is stopped at once.
abbrev started : System Clock Shelf
started = start_server memory_store (pos 0) clock (new_server memory_store (pos 0) shelf)

stop_returns_early_example :
    (t u : System Clock Shelf) × Reach reaper started t
    × (t.stop ≡ returned_nil)
    × (t.shared ≡ shelf)
    × Reach reaper t u
    × (u.stop ≡ returned_nil)
    × (u.workers ≡ (clock, looping) ∷ [])
    × (u.shared ≡ network_reaper memory_store (pos 0) clock shelf)
stop_returns_early_example = stop_returns_early reaper started clock [] refl refl refl

-- A client with one subnet and a provider that counts.
abbrev counted : Subnet ℕ → St ℕ (Unit {0})
counted x n = (ok tt, suc n)

abbrev mine_only : List (Goroutine ℕ)
mine_only = update_handler blue ∷ heartbeater mine ∷ []

abbrev client : System (Goroutine ℕ) (Shelf × ℕ)
client = record {
  workers = (update_handler blue, spawned) ∷ (heartbeater mine, spawned) ∷ [];
  shutdown_closed = false;
  group = 0;
  waited = false;
  stop = not_called;
  shared = (shelf, 0);
}

-- The heartbeat's goroutine has been counted, has begun, and has had a tick.
abbrev beating : System (Goroutine ℕ) (Shelf × ℕ)
beating = record client {
  workers = (update_handler blue, spawned) ∷ (heartbeater mine, looping) ∷ [];
  group = 1;
  shared =
      handle_event memory_store "a" counted counted (heartbeater mine) (tick (pos 5)) (shelf, 0);
}

abbrev beats : Work (Goroutine ℕ) (Event ℕ) (Shelf × ℕ)
beats = client_work memory_store "a" counted counted

counted_one : Reach beats client (record client {
  workers = (update_handler blue, spawned) ∷ (heartbeater mine, starting) ∷ [];
  group = 1;
})
counted_one = later start (turn (there (update_handler blue, spawned) (here [] (add 0 (shelf, 0)))))

begun_one : Reach beats client (record client {
  workers = (update_handler blue, spawned) ∷ (heartbeater mine, looping) ∷ [];
  group = 1;
})
begun_one =
    later counted_one (turn (there (update_handler blue, spawned) (here [] (begin 1 (shelf, 0)))))

beating-Reach : Reach beats client beating
beating-Reach =
    later begun_one
      (turn (there (update_handler blue, spawned) (here [] (event (tick (pos 5)) 1 (shelf, 0)))))

goroutines-AllOwn_example :
    AllOwn memory_store "a" counted counted memory_store-IsLawful mine_only shelf beating.shared
    × ((handle_event memory_store "a" counted counted
            (heartbeater mine)
            (tick (pos 0))
            beating.shared).0
          "blue" "a"
        ≡ ticked memory_store "a" counted counted memory_store-IsLawful mine beating.shared.0)
goroutines-AllOwn_example =
    goroutines-AllOwn memory_store "a" counted counted memory_store-IsLawful mine_only client
      beating mine (pos 0) refl beating-Reach

-- A machine with an empty disk, whose store lists one network.
abbrev net_store : Store ℕ
net_store = record memory_store { list_networks = λ s. (ok (blue ∷ []), s) }

abbrev local : Local ℕ
local = record { State = ℕ; set_local = λ x s. (ok x, s); set_cni = λ c s. (ok tt, s) }

abbrev world : World net_store memory_tables texts local
world = record { stored = shelf; tables = bare; host = 0 }

abbrev watching : Network → St (World net_store memory_tables texts local) (Unit {0})
watching n w = (ok tt, w)

abbrev machine : Start.Machine net_store memory_tables texts local disk watching
machine = record { client = fresh_client; disk = blank; world = world }

start_ok :
    (Start.start net_store memory_tables texts local disk watching "data" "a"
      (λ n. zeros)
      host
      (λ n. pos 0)
      machine).0
    ≡ ok tt
unfolding Start.start Start.start_with start_subnet_update_handler generate_id store_new_id init
    init_listed init_all ensure_isolation init_network own_subnet init_subnet setup_masq
    generate_cni_config validate canonicalize canonical_masq setup_masq_rules setup_forward_rules
    setup_forward_cidr network_cidr subnet_cidr ensure_chain apply_all apply_forward masq_rules
    forward_rules accept_rules apply_rule ensure_jump_rule_first delete_if list_eq list_beq shl32
    bridge_interface_name interface_name
start_ok = refl

start_lem_example :
    (id : String) × (all : List (Network × Subnet ℕ)) × ((generate_id disk "data" "a" blank).0
      ≡ ok id)
    × ((init net_store memory_tables texts local (λ n. zeros) host (λ n. pos 0) id world).0
        ≡ ok all)
    × ((Start.start net_store memory_tables texts local disk watching "data" "a"
          (λ n. zeros)
          host
          (λ n. pos 0)
          machine).1.client
        ≡ started_client net_store memory_tables texts local disk watching id all)
start_lem_example =
    start_lem net_store memory_tables texts local disk watching "data" "a" (λ n. zeros) host
      (λ n. pos 0) machine refl start_ok
