-- ===== src/Fetch.antt =====
-- franzadapter/broker_port.go, fetchNext and bail: one poll of the client on the fetch goroutine, and
-- the one-time stop of the consumer.
use llingr_adapter_franz.Prelude.{
  ℕ, ℤ, pos, ltb_ℤ, GoString, string_eq, ◌==◌, Bool, true, false, ◌&&◌, ◌||◌, not, if◌then◌else◌,
  is_some, Option, none, some, List, [], ◌∷◌, ◌++◌,
}
use llingr_adapter_franz.Foreign.{Record, Fetches, Reason, foreign}
use llingr_adapter_franz.Effects.{
  Effect, log, error, stopping_consumer, no_emergency_shutdown, foreign_topic, emergency_shutdown,
  spawn_unsubscribe, poll_records, wait_backoff,
}
use llingr_adapter_franz.Options.{AdapterOptions}
use llingr_adapter_franz.PollErrors.{Streaks, Tally, handle_poll_errors}
pub mod Refusal
pub mod Stopping
pub mod Counting
pub mod Calls
pub mod Sustained

-- What is fixed when the loop runs: topicName, opts, and whether adaptedConsumer implements
-- nexus.EmergencyShutdowner. It stands for an adapter that has a logger: fetchNext, handlePollErrors and
-- bail log with no test for nil, and with a nil logger their first line panics and nothing here follows.
pub record FetchConfig : Type 0 where
  pub topic_name : GoString
  pub opts : AdapterOptions
  pub has_shutdowner : Bool

pub record FetchState : Type 0 where
  pub streaks : Streaks
  pub bailed : Bool  -- bailOnce has run

-- bail, on an adapter that has a logger: the state of bailOnce, and the effects.
unfoldable pub bail : Bool → Reason → Bool → Bool × List Effect
bail has_shutdowner reason true = (true, [])
bail has_shutdowner reason false = (
  true,
  log error (stopping_consumer reason)
      ∷ (if has_shutdowner
          then emergency_shutdown reason ∷ spawn_unsubscribe ∷ []
          else log error no_emergency_shutdown ∷ []),
)

unfoldable pub bail_if : Bool → Option Reason → Bool → Bool × List Effect
unfolding bail
bail_if has_shutdowner none bailed = (bailed, [])
bail_if has_shutdowner (some reason) bailed = bail has_shutdowner reason bailed

-- EachRecord's callback keeps the first record.
abbrev pub first_record : List Record → Option Record
first_record [] = none
first_record (r ∷ _) = some r

abbrev pub is_empty_text : GoString → Bool
is_empty_text [] = true
is_empty_text (_ ∷ _) = false

-- A record of another topic than the configured one.
abbrev pub is_foreign : GoString → Option Record → Bool
is_foreign topic_name none = false
is_foreign topic_name (some r) = not (is_empty_text topic_name) && not (r.topic == topic_name)

abbrev pub got_topic : Option Record → GoString
got_topic none = []
got_topic (some r) = r.topic

-- The pause after a broker error with no record.
unfoldable pub backoff : AdapterOptions → Option Record → Bool → List Effect
backoff opts r saw_err =
    if not (is_some r) && saw_err && ltb_ℤ (pos 0) opts.poll_error_backoff
    then wait_backoff opts.poll_error_backoff ∷ []
    else []

-- fetchNext, given what PollRecords returned and whether fetchCtx is done by then: the record (or
-- nil) and whether the loop must exit.
unfoldable pub fetch_next :
    FetchConfig
    → (now : ℕ) → (cancelled : Bool) → Fetches
    → FetchState
    → FetchState × List Effect × Option Record × Bool
unfolding bail_if backoff
fetch_next c now cancelled fetches st =
    let r = first_record fetches.records in
    let reason = foreign (got_topic r) c.topic_name in
    let (refused, refusal) = bail_if c.has_shutdowner (some reason) st.bailed in
    let tally = handle_poll_errors c.opts now fetches st.streaks in
    let (bailed, bails) = bail_if c.has_shutdowner tally.bail_reason st.bailed in
    if fetches.client_closed || cancelled
    then (st, poll_records ∷ [], none, true)
    else if is_foreign c.topic_name r
    then (
      record st { bailed = refused },
      poll_records ∷ log error (foreign_topic reason) ∷ refusal,
      none,
      true,
    )
    else (
      record { streaks = tally.streaks; bailed = bailed },
      poll_records ∷ tally.effects ++ bails ++ backoff c.opts r tally.saw_err,
      r,
      false,
    )
