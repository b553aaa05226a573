-- ===== src/Wired/Stop.antt =====
-- franzadapter/adapter.go, CreateConsumer, and franzadapter/broker_port.go, bail, in the session that
-- the engine's Subscribe begins.
use llingr_adapter_franz.Prelude.{◌+◌, true, false, if◌then◌else◌, ◌≡◌, refl, arith}
use llingr_adapter_franz.Effects.{Topic}
use llingr_adapter_franz.Effects.Counting.{how_often}
use llingr_adapter_franz.Rebalance.{RebalanceState}
use llingr_adapter_franz.Fetch.{FetchConfig, FetchState}
use llingr_adapter_franz.Fetch.Stopping.{is_shutdown, is_spawn, shutdowns, shutdowns-fetch_next}
use llingr_adapter_franz.Lifecycle.{Lifecycle, Shutdown, release_broker}
use llingr_adapter_franz.Session.{
  Session, Step, polling, allow, allow_on_exit, shared, unsubscribing, releasing, fetch_step,
  release_step, unsubscribe_step, subscribed,
}
use llingr_adapter_franz.Session.LoopEnd.{Steps, here, next}
use llingr_adapter_franz.Session.Counting.{IsFetchOnly, polled, Step-Counts}
use llingr_adapter_franz.Creation.{Setup, World, created, create_consumer}
use llingr_adapter_franz.Wired.Bail.{is_helpless, fetch_next-helpless, created-has_shutdowner}
use llingr_adapter_franz.Wired.Session.{wired_start, wired_config}

release_broker-shutdowns :
    (env : Shutdown) (a : Lifecycle) → how_often is_shutdown (release_broker env a).0 ≡ 0
unfolding release_broker
release_broker-shutdowns env a = ground arith

release_broker-helpless :
    (env : Shutdown) (a : Lifecycle) → how_often is_helpless (release_broker env a).0 ≡ 0
unfolding release_broker
release_broker-helpless env a = ground arith

release_broker-spawns :
    (env : Shutdown) (a : Lifecycle) → how_often is_spawn (release_broker env a).0 ≡ 0
unfolding release_broker
release_broker-spawns env a = ground arith

is_spawn-IsFetchOnly : IsFetchOnly is_spawn
is_spawn-IsFetchOnly = record { allows = refl; releases = release_broker-spawns }

is_shutdown-IsFetchOnly : IsFetchOnly is_shutdown
is_shutdown-IsFetchOnly = record { allows = refl; releases = release_broker-shutdowns }

is_helpless-IsFetchOnly : IsFetchOnly is_helpless
is_helpless-IsFetchOnly = record { allows = refl; releases = release_broker-helpless }

-- The engine has been told to shut down once if the consumer was stopped, and otherwise never; and so
-- has Unsubscribe been called.
record IsHeard (s : Session) : Type 0 where
  pub told : how_often is_shutdown s.trace ≡ (if s.fetch.bailed then 1 else 0)
  pub helped : how_often is_helpless s.trace ≡ 0
  pub spawned : how_often is_spawn s.trace ≡ (if s.fetch.bailed then 1 else 0)
  pub spawned_todo : how_often is_spawn s.todo ≡ 0
  pub told_todo : how_often is_shutdown s.todo ≡ 0
  pub helped_todo : how_often is_helpless s.todo ≡ 0

-- What a step does to the consumer's stop.
step-told :
    {c : FetchConfig} {s t : Session} (st : Step c s t)
    → c.has_shutdowner ≡ true
    → (how_often is_shutdown (polled st) + (if s.fetch.bailed then 1 else 0)
        ≡ (if t.fetch.bailed then 1 else 0))
      × (how_often is_spawn (polled st) ≡ how_often is_shutdown (polled st))
      × (how_often is_helpless (polled st) ≡ 0)
unfolding fetch_step unsubscribe_step release_step
step-told {c} {s} (polling now fetches e) can = ground (
  arith,
  can,
  shutdowns-fetch_next c now s.gate.cancelled fetches s.fetch,
  fetch_next-helpless c now s.gate.cancelled fetches s.fetch can,
)
step-told (allow e) can = ground arith
step-told (allow_on_exit e) can = ground arith
step-told (shared st e) can = ground arith
step-told (unsubscribing env e) can = ground arith
step-told (releasing e rest t m) can = ground arith

Step-IsHeard :
    {c : FetchConfig} {s t : Session} → Step c s t → c.has_shutdowner ≡ true → IsHeard s → IsHeard t
Step-IsHeard st can h =
    let told = Step-Counts is_shutdown is_shutdown-IsFetchOnly st h.told_todo in
    let helped = Step-Counts is_helpless is_helpless-IsFetchOnly st h.helped_todo in
    let spawned = Step-Counts is_spawn is_spawn-IsFetchOnly st h.spawned_todo in
    let stop = step-told st can in
    record {
      told = omega (arith, told.1, stop.0, h.told);
      helped = omega (arith, helped.1, stop.2, h.helped);
      spawned = omega (arith, spawned.1, stop.0, stop.1, h.spawned);
      spawned_todo = spawned.0;
      told_todo = told.0;
      helped_todo = helped.0;
    }

Steps-IsHeard :
    {c : FetchConfig} {s t : Session}
    → Steps c s t
    → c.has_shutdowner ≡ true
    → IsHeard s
    → IsHeard t
Steps-IsHeard here can h = h
Steps-IsHeard (next st steps) can h = Steps-IsHeard steps can (Step-IsHeard st can h)

module _ {ℓ} {U : Type ℓ} where
  wired_start-IsHeard :
      (w : World) (topic : Topic) (a : Setup U) (rebalance : RebalanceState) (fetch : FetchState)
      → fetch.bailed ≡ false
      → IsHeard (wired_start w topic a rebalance fetch)
  unfolding subscribed
  wired_start-IsHeard w topic a rebalance fetch fresh = record {
    told = ground (arith, fresh);
    helped = refl;
    spawned = ground (arith, fresh);
    spawned_todo = refl;
    told_todo = refl;
    helped_todo = refl;
  }

  -- On the adapter of a consumer that CreateConsumer has returned, and that has a logger, a stop is
  -- always heard: in every state that follows the engine's Subscribe, however the loop, Poll, the callbacks and Unsubscribe
  -- interleave and whatever the polls bring, the consumer has been told to shut down exactly once, and
  -- a goroutine that calls Unsubscribe been started exactly once, if it was stopped, and otherwise
  -- never; and the line that it cannot be shut down was never logged. (The consumer was not stopped
  -- when the engine subscribed.)
  pub stop_is_heard_in_session :
      (w : World) (topic : Topic) (a : Setup U) (rebalance : RebalanceState) (fetch : FetchState)
      {s : Session}
      → (create_consumer w topic a).2 ≡ created
      → (logs : (create_consumer w topic a).0.has_logger ≡ true) → fetch.bailed ≡ false
      → Steps (wired_config w topic a logs) (wired_start w topic a rebalance fetch) s
      → (shutdowns s.trace ≡ (if s.fetch.bailed then 1 else 0))
        × (how_often is_spawn s.trace ≡ (if s.fetch.bailed then 1 else 0))
        × (how_often is_helpless s.trace ≡ 0)
  stop_is_heard_in_session w topic a rebalance fetch done logs fresh steps =
      let h =
        Steps-IsHeard steps (created-has_shutdowner w topic a done logs)
          (wired_start-IsHeard w topic a rebalance fetch fresh) in
      (h.told, h.spawned, h.helped)
