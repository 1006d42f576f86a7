-- ===== src/Reaper/Loop.antt =====
-- internal/agent/server: `Server` with its one goroutine, the loop of the reaper.
use smuggle.Prelude.{false, [], ◌∷◌}
use smuggle.Prelude.Int.{ℤ}
use smuggle.Network.{Network}
use smuggle.Store.{Store}
use smuggle.Reaper.{network_reaper}
use smuggle.Workers.{Work, System, spawned, not_called}

-- The times that a run of the reaper reads.
abbrev pub Clock : Type 0
Clock = Network → ℤ

module _ {IP : Type 0} (S : Store IP) (threshold : ℤ) where
  -- `startNetworkReaper`: a run before the loop, and one at each tick, for an interval above zero.
  abbrev pub reaper_work : Work Clock Clock S.State
  reaper_work = record {
    first = λ now s. network_reaper S threshold now s;
    handle = λ begun now s. network_reaper S threshold now s;
  }

  -- `New`, and `Start`, which spawns the reaper.
  abbrev pub new_server : S.State → System Clock S.State
  new_server s = record {
    workers = [];
    shutdown_closed = false;
    group = 0;
    waited = false;
    stop = not_called;
    shared = s;
  }

  abbrev pub start_server : Clock → System Clock S.State → System Clock S.State
  start_server now s = record s { workers = (now, spawned) ∷ s.workers }
