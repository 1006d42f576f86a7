-- ===== src/Client/Goroutines.antt =====
-- internal/agent/client: the goroutines of a client, which end as those of Workers do: one for the
-- heartbeat of each subnet, and one for what the watch of each network reports.
use smuggle.Prelude.{
  String, if◌then◌else◌, Bool, true, false, ◌&&◌, ◌⊎◌, Bool-cases, Option, List, [], ◌∷◌, map, ◌≡◌,
  refl, ◌∙◌, inl, inr, In,
}
use smuggle.Prelude.Int.{ℤ}
use smuggle.Prelude.State.{St}
use smuggle.Network.{Network}
use smuggle.Subnet.{Subnet}
use smuggle.Store.{Store, IsLawful}
use smuggle.Nvar.Watch.{Message, error_ch, delete_ch, modify_ch}
use smuggle.Client.Heartbeat.{heartbeat, stored_own}
use smuggle.Firewall.Interface.{is_ok}
use smuggle.Client.Remote.{handle_subnet_set, handle_subnet_delete}
use smuggle.Workers.{Work, Phase, spawned, System, Reach}
use smuggle.Workers.Keeps.{AllKeep, Reach-P}

and_right : (a b : Bool) → (a && b) ≡ true → b ≡ true
and_right true b h = h
and_right false b h = cc h

pub data Goroutine (IP : Type 0) : Type 0 where
  update_handler : Network → Goroutine IP
  heartbeater : Subnet IP → Goroutine IP

-- What a select receives: a tick at a time, or a message of the watch.
pub data Event (IP : Type 0) : Type 0 where
  tick : ℤ → Event IP
  received : Message IP → Event IP

-- The state is that of the store and that of the provider, which is called for remote subnets.
module _ {IP H : Type 0} (S : Store IP) (id : String)
    (set_remote delete_remote : Subnet IP → St H (Unit {0})) where
  -- `subnetUpdateHandlerImpl` on a message: an error is logged.
  unfoldable pub handle_message : Message IP → H → H
  handle_message (error_ch e) h = h
  handle_message (modify_ch l) h = handle_subnet_set id set_remote l h
  handle_message (delete_ch l) h = handle_subnet_delete id delete_remote l h

  unfoldable pub handle_event : Goroutine IP → Event IP → S.State × H → S.State × H
  handle_event (update_handler n) (received m) (s, h) = (s, handle_message m h)
  handle_event (update_handler n) (tick now) (s, h) = (s, h)
  handle_event (heartbeater x) (tick now) (s, h) = ((heartbeat S x now s).1, h)
  handle_event (heartbeater x) (received m) (s, h) = (s, h)

  abbrev pub client_work : Work (Goroutine IP) (Event IP) (S.State × H)
  client_work = record { first = λ g s. s; handle = handle_event }

  module _ (L : IsLawful S) where
    open L use {subnet, same_key}

    -- An entry that is as it was, or what the store reads back of a subnet of one of the heartbeats.
    abbrev pub IsOwn : List (Goroutine IP) → S.State → S.State → String → String → Type 0
    IsOwn gs s0 s n i =
        (subnet s n i ≡ subnet s0 n i)
        ⊎ ((x : Subnet IP) × In (heartbeater x) gs
            × (same_key x.network_name x.client_id n i ≡ true)
            × (subnet s n i ≡ L.back x))

    abbrev pub AllOwn : List (Goroutine IP) → S.State → S.State × H → Type 0
    AllOwn gs s0 (s, h) = (n i : String) → IsOwn gs s0 s n i

    heartbeat-AllOwn :
        (gs : List (Goroutine IP)) (s0 : S.State) (x : Subnet IP) (now : ℤ) (s : S.State) (h : H)
        → In (heartbeater x) gs
        → AllOwn gs s0 (s, h)
        → AllOwn gs s0 ((heartbeat S x now s).1, h)
    unfolding heartbeat
    heartbeat-AllOwn gs s0 x now s h at all n i =
        let now_there = L.subnet-set x s n i in
        let key = same_key x.network_name x.client_id n i in
        elim (Bool-cases (is_ok (S.set_subnet x s).0 && key)) [
          | inl new ↦ inr (x, at, and_right _ key new, rw new at now_there)
          | inr old ↦
              let same : subnet (S.set_subnet x s).1 n i ≡ subnet s n i = rw old at now_there in
              elim (all n i) [
                | inl kept ↦ inl (same ∙ kept)
                | inr (y, there, own, is) ↦ inr (y, there, own, same ∙ is)
              ]
        ]

    handle_event-AllOwn :
        (gs : List (Goroutine IP)) (s0 : S.State) (g : Goroutine IP) (e : Event IP)
        (r : S.State × H)
        → In g gs
        → AllOwn gs s0 r
        → AllOwn gs s0 (handle_event g e r)
    unfolding handle_event
    handle_event-AllOwn gs s0 (update_handler n) (received m) (s, h) at all = all
    handle_event-AllOwn gs s0 (update_handler n) (tick now) (s, h) at all = all
    handle_event-AllOwn gs s0 (heartbeater x) (tick now) (s, h) at all =
        heartbeat-AllOwn gs s0 x now s h at all
    handle_event-AllOwn gs s0 (heartbeater x) (received m) (s, h) at all = all

    abbrev pub spawn : List (Goroutine IP) → List (Goroutine IP × Phase)
    spawn = map (λ g. (g, spawned))

    spawn-AllKeep :
        (gs hs : List (Goroutine IP)) (s0 : S.State)
        → ((g : Goroutine IP) → In g hs → In g gs)
        → AllKeep client_work (AllOwn gs s0) (spawn hs)
    spawn-AllKeep gs [] s0 inside = tt
    spawn-AllKeep gs (g ∷ hs) s0 inside = (
      (λ r all. all, λ e r all. handle_event-AllOwn gs s0 g e r (inside g (inl refl)) all),
      spawn-AllKeep gs hs s0 (λ y m. inside y (inr m)),
    )

    -- The entry of a subnet behind a tick.
    abbrev pub ticked : Subnet IP → S.State → Option (Subnet IP)
    ticked x s =
        if is_ok (S.set_subnet x s).0 then L.back x else subnet s x.network_name x.client_id

    tick-ticked :
        (x : Subnet IP) (now : ℤ) (r : S.State × H)
        → subnet (handle_event (heartbeater x) (tick now) r).0 x.network_name x.client_id
          ≡ ticked x r.0
    unfolding handle_event
    tick-ticked x now (s, h) = stored_own S L x now s

    -- From any store, in whatever order the goroutines of a client take their steps and whatever they
    -- receive, while nothing else writes to the store: every entry is as it was when they were
    -- spawned, unless it has the key of a subnet with a heartbeat and is what the store reads back of
    -- that subnet as the client has kept it. A tick makes it that, whatever its time, exactly when its
    -- write succeeds, and otherwise leaves it.
    pub goroutines-AllOwn :
        (gs : List (Goroutine IP)) (s t : System (Goroutine IP) (S.State × H)) (x : Subnet IP)
        (now : ℤ)
        → s.workers ≡ spawn gs
        → Reach client_work s t
        → AllOwn gs s.shared.0 t.shared
          × (subnet (handle_event (heartbeater x) (tick now) t.shared).0 x.network_name x.client_id
              ≡ ticked x t.shared.0)
    goroutines-AllOwn gs s t x now at r =
        let all = spawn-AllKeep gs gs s.shared.0 (λ g m. m) in
        (
          (Reach-P client_work (AllOwn gs s.shared.0) r (rw at all) (λ n i. inl refl)).1,
          tick-ticked x now t.shared,
        )
