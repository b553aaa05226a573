-- ===== src/Wired/Hour.antt =====
-- franzadapter/adapter.go, WithOptions and CreateConsumer, and franzadapter/broker_port.go, fetchNext
-- and bail: from the options to the stop of the consumer.
use llingr_adapter_franz.Prelude.{
  ℕ, pos, sub_ℕ, ◌≤ℤ◌, ◌<ℤ◌, ◌≢◌, GoString, string_eq, Bool, true, false, get_or, lookup, List, ◌≡◌,
  arith,
}
use llingr_adapter_franz.Foreign.{Fetches}
use llingr_adapter_franz.Effects.{Topic}
use llingr_adapter_franz.Options.{
  AdapterOptions, AdapterOption, process_adapter_options, max_poll_error_bail_after,
}
use llingr_adapter_franz.Options.Bounds.{InRange, process_adapter_options-InRange}
use llingr_adapter_franz.Fetch.{FetchState, first_record, is_foreign}
use llingr_adapter_franz.Fetch.Stopping.{fetch_all, shutdowns}
use llingr_adapter_franz.Fetch.Sustained.{Fails, Starved, span, sustained_failure_stops}
use llingr_adapter_franz.Creation.{
  Setup, World, created, create_consumer, with_options, open_and_wire, validate_and_wire, wire,
  init_client, set_client,
}
use llingr_adapter_franz.Wired.{fetch_config_of}
use llingr_adapter_franz.Wired.Bail.{created-has_shutdowner}

bail_after-hour :
    (o : AdapterOptions)
    → InRange o
    → o.poll_error_bail_after ≢ pos 0
    → (pos 0 <ℤ o.poll_error_bail_after) × (o.poll_error_bail_after ≤ℤ max_poll_error_bail_after)
bail_after-hour o h on = ground (arith, h.bail_after, on)

module _ {ℓ} {U : Type ℓ} where
  validate_and_wire-keeps :
      (w : World) (created_here : Bool) (a : Setup U)
      → let a' = (validate_and_wire w created_here a).0 in
        (a'.opts ≡ a.opts) × (a'.topic_name ≡ a.topic_name)
  unfolding validate_and_wire wire
  validate_and_wire-keeps w created_here a = ground arith

  pub create_consumer-keeps :
      (w : World) (topic : Topic) (a : Setup U)
      → let a' = (create_consumer w topic a).0 in (a'.opts ≡ a.opts) × (a'.topic_name ≡ topic)
  unfolding create_consumer open_and_wire init_client set_client
  create_consumer-keeps w topic a =
      let fresh = record a { topic_name = topic } in
      let opened = (init_client w fresh).0 in
      ground (arith, validate_and_wire-keeps w false fresh, validate_and_wire-keeps w true opened)

  config-keeps :
      (w : World) (topic : Topic) (options : List AdapterOption) (a : Setup U)
      (logs : (create_consumer w topic (with_options options a)).0.has_logger ≡ true)
      → let c = fetch_config_of w.build (create_consumer w topic (with_options options a)).0 logs in
        (c.opts ≡ process_adapter_options options) × (c.topic_name ≡ topic)
  unfolding fetch_config_of with_options
  config-keeps w topic options a logs = create_consumer-keeps w topic (with_options options a)

  -- From the options to the stop: whatever options WithOptions is given, unless they turn bailing off,
  -- and whatever world CreateConsumer has returned a consumer in that has a logger, that consumer is told to shut down,
  -- exactly once, when a partition fails for an hour: there is a poll with an error of it, and another
  -- at least an hour after the streak began, which is at the first of the two if none was running, and
  -- no poll of these or between them delivers a record of it. (`Err()` is nil only if EachError visits
  -- nothing; in the two polls the client is open and fetchCtx not done, the first one's record is of
  -- the topic, and the consumer was not stopped before.)
  pub hour_of_failure_stops :
      (w : World) (topic : Topic) (options : List AdapterOption) (a : Setup U) (st : FetchState)
      (k : GoString) (first now : ℕ) (fetches fetches' : Fetches)
      (between : List (ℕ × Bool × Fetches))
      → (create_consumer w topic (with_options options a)).2 ≡ created
      → (logs : (create_consumer w topic (with_options options a)).0.has_logger ≡ true)
      → (process_adapter_options options).poll_error_bail_after ≢ pos 0
      → Fails k fetches
      → is_foreign topic (first_record fetches.records) ≡ false
      → Starved k between
      → Fails k fetches'
      → max_poll_error_bail_after ≤ℤ sub_ℕ now (get_or (lookup k st.streaks.since) first)
      → st.bailed ≡ false
      → let c = fetch_config_of w.build (create_consumer w topic (with_options options a)).0 logs in
        let (st', effects) = fetch_all c (span first fetches between now fetches') st in
        (st'.bailed ≡ true) × (shutdowns effects ≡ 1)
  hour_of_failure_stops w topic options a st k first now fetches fetches' between done logs on
        begins ours quiet goes_on late fresh =
      let adapter = with_options options a in
      let c = fetch_config_of w.build (create_consumer w topic adapter).0 logs in
      let (opts, name) = config-keeps w topic options a logs in
      let bounds =
        bail_after-hour (process_adapter_options options) (process_adapter_options-InRange options)
          on in
      sustained_failure_stops c st k first now fetches fetches' between begins
        (ground (arith, name, ours)) quiet goes_on (ground (arith, opts, bounds))
        (ground (arith, opts, bounds)) (ground (arith, opts, bounds, late))
        (created-has_shutdowner w topic adapter done logs) fresh
