-- ===== src/Fetch/Stopping.antt =====
-- franzadapter/broker_port.go, bail: the consumer is stopped at most once.
use llingr_adapter_franz.Prelude.{
  ℕ, Bool, true, false, Option, some, List, [], ◌∷◌, ◌++◌, ◌≡◌, refl, arith,
}
use llingr_adapter_franz.Foreign.{Fetches, Reason, foreign}
use llingr_adapter_franz.Effects.{Effect, emergency_shutdown, spawn_unsubscribe}
use llingr_adapter_franz.PollErrors.{handle_poll_errors}
use llingr_adapter_franz.Effects.Counting.{how_often, how_often-append}
use llingr_adapter_franz.Fetch.Counting.{Ignores, stopping, how_often-fetch_next}
use llingr_adapter_franz.Fetch.{
  FetchConfig, FetchState, fetch_next, bail_if, first_record, got_topic,
}

abbrev pub is_shutdown : Effect → Bool
is_shutdown (emergency_shutdown _) = true
is_shutdown _ = false

-- How often the engine is told to shut down.
abbrev pub shutdowns : List Effect → ℕ
shutdowns = how_often is_shutdown

-- The goroutine that calls Unsubscribe.
abbrev pub is_spawn : Effect → Bool
is_spawn spawn_unsubscribe = true
is_spawn _ = false

is_spawn-Ignores : Ignores is_spawn
is_spawn-Ignores = record { errors = λ topic partition streak err. refl; pauses = λ d. refl }

is_shutdown-Ignores : Ignores is_shutdown
is_shutdown-Ignores = record { errors = λ topic partition streak err. refl; pauses = λ d. refl }

-- One shutdown, if the consumer can be shut down and was stopped between the two states.
abbrev pub told_once : Bool → Bool → Bool → ℕ
told_once true false true = 1
told_once _ _ _ = 0

shutdowns-bail_if :
    (has : Bool) (reason : Option Reason) (bailed : Bool)
    → let (after, effects) = bail_if has reason bailed in
      (shutdowns effects ≡ told_once has bailed after)
      × (how_often is_spawn effects ≡ shutdowns effects)
      × (bailed ≡ true → after ≡ true)
unfolding bail_if
shutdowns-bail_if has reason bailed = ground arith

stopping_once :
    (c : FetchConfig) (now : ℕ) (cancelled : Bool) (fetches : Fetches) (st : FetchState)
    → let (after, effects) = stopping c now cancelled fetches st in
      (shutdowns effects ≡ told_once c.has_shutdowner st.bailed after)
      × (how_often is_spawn effects ≡ shutdowns effects)
      × (st.bailed ≡ true → after ≡ true)
stopping_once c now cancelled fetches st =
    let r = first_record fetches.records in
    let tally = handle_poll_errors c.opts now fetches st.streaks in
    ground (
      arith,
      shutdowns-bail_if c.has_shutdowner tally.bail_reason st.bailed,
      shutdowns-bail_if c.has_shutdowner (some (foreign (got_topic r) c.topic_name)) st.bailed,
    )

pub shutdowns-fetch_next :
    (c : FetchConfig) (now : ℕ) (cancelled : Bool) (fetches : Fetches) (st : FetchState)
    → let (st', effects, _, _) = fetch_next c now cancelled fetches st in
      (shutdowns effects ≡ told_once c.has_shutdowner st.bailed st'.bailed)
      × (how_often is_spawn effects ≡ shutdowns effects)
      × (st.bailed ≡ true → st'.bailed ≡ true)
shutdowns-fetch_next c now cancelled fetches st = ground (
  arith,
  how_often-fetch_next is_shutdown is_shutdown-Ignores refl (λ _. refl) c now cancelled fetches st,
  how_often-fetch_next is_spawn is_spawn-Ignores refl (λ _. refl) c now cancelled fetches st,
  stopping_once c now cancelled fetches st,
)

-- The fetches of a loop, each with the time and whether fetchCtx was done by then.
unfoldable pub fetch_all :
    FetchConfig → List (ℕ × Bool × Fetches) → FetchState → FetchState × List Effect
unfolding fetch_next
fetch_all c [] st = (st, [])
fetch_all c ((now, cancelled, fetches) ∷ rest) st =
    let (st', effects, _, _) = fetch_next c now cancelled fetches st in
    let (last, more) = fetch_all c rest st' in (last, effects ++ more)

fetch_all-bailed :
    (c : FetchConfig) (polls : List (ℕ × Bool × Fetches)) (st : FetchState)
    → st.bailed ≡ true
    → (fetch_all c polls st).0.bailed ≡ true
unfolding fetch_all
fetch_all-bailed c [] st h = h
fetch_all-bailed c ((now, cancelled, fetches) ∷ rest) st h =
    fetch_all-bailed c rest _ ((shutdowns-fetch_next c now cancelled fetches st).2 h)

-- Over any number of fetches, whatever they bring, the engine is told to shut down once if the
-- consumer was stopped in them and can be shut down, and otherwise never: later bails are silent.
pub shutdown_told_once :
    (c : FetchConfig) (polls : List (ℕ × Bool × Fetches)) (st : FetchState)
    → let (st', effects) = fetch_all c polls st in
      shutdowns effects ≡ told_once c.has_shutdowner st.bailed st'.bailed
unfolding fetch_all
shutdown_told_once c [] st = ground arith
shutdown_told_once c ((now, cancelled, fetches) ∷ rest) st =
    let (st', effects, _, _) = fetch_next c now cancelled fetches st in
    ground (
      arith,
      how_often-append is_shutdown effects (fetch_all c rest st').1,
      shutdowns-fetch_next c now cancelled fetches st,
      shutdown_told_once c rest st',
      fetch_all-bailed c rest st',
    )
