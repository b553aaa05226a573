-- ===== src/Wired/Bail.antt =====
-- franzadapter/adapter.go, CreateConsumer, and franzadapter/broker_port.go, fetchNext and bail: the
-- consumer that CreateConsumer has accepted can be stopped.
use llingr_adapter_franz.Prelude.{ℕ, Bool, true, false, Option, some, refl, ◌≡◌, arith}
use llingr_adapter_franz.Foreign.{Fetches, Reason, foreign}
use llingr_adapter_franz.Effects.{Topic, Effect, log, error, no_emergency_shutdown}
use llingr_adapter_franz.PollErrors.{handle_poll_errors}
use llingr_adapter_franz.Effects.Counting.{how_often}
use llingr_adapter_franz.Fetch.Counting.{Ignores, how_often-fetch_next}
use llingr_adapter_franz.Fetch.{
  FetchConfig, FetchState, fetch_next, bail_if, first_record, got_topic,
}
use llingr_adapter_franz.Creation.{Setup, World, created, create_consumer}
use llingr_adapter_franz.Creation.Outcomes.{create_consumer-created}
use llingr_adapter_franz.Wired.{fetch_config_of}

-- The line that says that the consumer cannot be stopped.
abbrev pub is_helpless : Effect → Bool
is_helpless (log error no_emergency_shutdown) = true
is_helpless _ = false

is_helpless-Ignores : Ignores is_helpless
is_helpless-Ignores = record { errors = λ topic partition streak err. refl; pauses = λ d. refl }

bail_if-helpless :
    (reason : Option Reason) (bailed : Bool)
    → how_often is_helpless (bail_if true reason bailed).1 ≡ 0
unfolding bail_if
bail_if-helpless reason bailed = ground arith

pub fetch_next-helpless :
    (c : FetchConfig) (now : ℕ) (cancelled : Bool) (fetches : Fetches) (st : FetchState)
    → c.has_shutdowner ≡ true
    → how_often is_helpless (fetch_next c now cancelled fetches st).1 ≡ 0
fetch_next-helpless c now cancelled fetches st can =
    let r = first_record fetches.records in
    let tally = handle_poll_errors c.opts now fetches st.streaks in
    ground (
      arith,
      how_often-fetch_next is_helpless is_helpless-Ignores refl (λ _. refl) c now cancelled fetches
          st,
      bail_if-helpless tally.bail_reason st.bailed,
      bail_if-helpless (some (foreign (got_topic r) c.topic_name)) st.bailed,
    )

module _ {ℓ} {U : Type ℓ} where
  pub created-has_shutdowner :
      (w : World) (topic : Topic) (a : Setup U)
      → (create_consumer w topic a).2 ≡ created
      → (logs : (create_consumer w topic a).0.has_logger ≡ true)
      → (fetch_config_of w.build (create_consumer w topic a).0 logs).has_shutdowner ≡ true
  unfolding fetch_config_of
  created-has_shutdowner w topic a done logs = ground (arith, create_consumer-created w topic a)
