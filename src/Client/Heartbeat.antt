-- ===== src/Client/Heartbeat.antt =====
-- internal/agent/client/heartbeat.go: the client writes its subnet to the store at each tick.
use smuggle.Prelude.{◌≡◌, refl, true, false, some, List, [], ◌∷◌}
use smuggle.Prelude.{string_eq, arith, if◌then◌else◌}
use smuggle.Prelude.Error.{Result, ok, err, panic}
use smuggle.Prelude.Int.{ℤ, pos, ◌+ℤ◌, ltb_ℤ}
use smuggle.Firewall.Interface.{is_ok}
use smuggle.Subnet.{Subnet, copy, default_subnet_ttl}
use smuggle.Store.{Store, IsLawful}
use smuggle.Reaper.{reap_subnet}

-- A third of the time to live, and 10 seconds after a failure.
abbrev pub heartbeat_interval : ℤ
heartbeat_interval = pos 28800000000000

-- What the ticker is reset to.
unfoldable pub next_interval : Result (Unit {0}) → ℤ
next_interval (ok u) = heartbeat_interval
next_interval (err e) = pos 10000000000
next_interval (panic p) = heartbeat_interval

module _ {IP : Type 0} (S : Store IP) where
  open S use {State, set_subnet}

  -- The copy with the new time, which nothing reads.
  abbrev pub renewed : ℤ → Subnet IP → Subnet IP
  renewed now cfg = record (copy cfg) { expiration = now +ℤ default_subnet_ttl }

  -- One tick of `startSubnetHeartbeat` at the time `now`.
  unfoldable pub heartbeat : Subnet IP → ℤ → State → ℤ × State
  unfolding next_interval
  heartbeat cfg now s =
      let cfg_copy = renewed now cfg in let (r, t) = set_subnet cfg s in (next_interval r, t)

  -- The ticks of a client at the given times.
  unfoldable pub heartbeats : Subnet IP → List ℤ → State → State
  heartbeats cfg [] s = s
  heartbeats cfg (now ∷ rest) s = heartbeats cfg rest (heartbeat cfg now s).1

  module _ (L : IsLawful S) where
    open L use {subnet}

    pub stored_own :
        (cfg : Subnet IP) (now : ℤ) (s : State)
        → subnet (heartbeat cfg now s).1 cfg.network_name cfg.client_id ≡ (
            if is_ok (set_subnet cfg s).0
            then L.back cfg
            else subnet s cfg.network_name cfg.client_id)
    unfolding heartbeat
    stored_own cfg now s = ground (
      arith,
      L.subnet-set cfg s cfg.network_name cfg.client_id,
      L.same_key_refl cfg.network_name cfg.client_id,
    )

    keeps_own :
        (cfg : Subnet IP) (now : ℤ) (s : State)
        → subnet s cfg.network_name cfg.client_id ≡ some cfg
        → subnet (heartbeat cfg now s).1 cfg.network_name cfg.client_id ≡ some cfg
    keeps_own cfg now s h = ground (
      arith,
      stored_own cfg now s,
      L.back_stored cfg s cfg.network_name cfg.client_id cfg.expired h,
    )

    -- A heartbeat of a client whose write succeeds leaves its entry as what the store reads back of
    -- the subnet that the client has kept, whatever the time and whatever was there before.
    pub heartbeat_restores :
        (cfg : Subnet IP) (now : ℤ) (s : State)
        → (set_subnet cfg s).0 ≡ ok tt
        → subnet (heartbeat cfg now s).1 cfg.network_name cfg.client_id ≡ L.back cfg
    heartbeat_restores cfg now s done = ground (arith, stored_own cfg now s)

    heartbeats_keep :
        (cfg : Subnet IP) (times : List ℤ) (s : State)
        → subnet s cfg.network_name cfg.client_id ≡ some cfg
        → subnet (heartbeats cfg times s) cfg.network_name cfg.client_id ≡ some cfg
    unfolding heartbeats
    heartbeats_keep cfg [] s h = h
    heartbeats_keep cfg (now ∷ rest) s h =
        heartbeats_keep cfg rest (heartbeat cfg now s).1 (keeps_own cfg now s h)

    -- No number of heartbeats moves the expiration that is stored. Once the first time to live is
    -- over, the reaper's step marks the subnet of a client whose heartbeats all succeed as expired.
    pub heartbeats_expire :
        (cfg : Subnet IP) (times : List ℤ) (threshold now : ℤ) (s : State)
        → subnet s cfg.network_name cfg.client_id ≡ some cfg
        → cfg.expired ≡ false
        → ltb_ℤ cfg.expiration now ≡ true
        → let s' = heartbeats cfg times s in
          (subnet s' cfg.network_name cfg.client_id ≡ some cfg)
          × (reap_subnet S threshold now cfg s' ≡ (set_subnet (record cfg { expired = true }) s').1)
    unfolding reap_subnet
    heartbeats_expire cfg times threshold now s h fresh late =
        (heartbeats_keep cfg times s h, rw (fresh, late) refl)
