-- ===== src/Tests/Wirings.antt =====
-- Tests and instances for the adapter that CreateConsumer leaves.
use llingr_adapter_franz.Prelude.{
  ℕ, ◌+◌, ◌*◌, pos, text, string_eq, true, false, some, List, [], ◌∷◌, lookup, ◌≡◌, ◌≢◌, refl,
  arith,
}
use llingr_adapter_franz.Foreign.{deadline_exceeded}
use llingr_adapter_franz.Decimal.{itoa}
use llingr_adapter_franz.Effects.Counting.{how_often}
use llingr_adapter_franz.Options.{
  AdapterOption, with_poll_error_bail_after, process_adapter_options, default_adapter_options, hour,
}
use llingr_adapter_franz.PollErrors.{partition_key, contains, recovered_keys, is_deadline}
use llingr_adapter_franz.Fetch.Stopping.{fetch_all, shutdowns}
use llingr_adapter_franz.Fetch.Sustained.{span}
use llingr_adapter_franz.Lifecycle.Once.{
  Call, subscribing, unsubscribing, run_calls, is_leave, is_close,
}
use llingr_adapter_franz.Validate.{validate_client}
use llingr_adapter_franz.Creation.{Setup, create_consumer, created, with_options}
use llingr_adapter_franz.Creation.Cleanup.{is_open, is_shut}
use llingr_adapter_franz.Wired.{lifecycle_of, fetch_config_of}
use llingr_adapter_franz.Wired.Life.{opened_client_closed_once}
use llingr_adapter_franz.Wired.Hour.{hour_of_failure_stops}
use llingr_adapter_franz.Tests.Creations.{grouped, fine_world}
use llingr_adapter_franz.Tests.Fetches.{mixed, failing_only, no_streaks}

-- The adapter of a fine world.
abbrev wired : Setup ℕ
wired = (create_consumer fine_world (text "orders") grouped).0

pub fine_world_created : (create_consumer fine_world (text "orders") grouped).2 ≡ created
unfolding create_consumer validate_client
fine_world_created = refl

pub wired_logs : wired.has_logger ≡ true
unfolding create_consumer validate_client
wired_logs = refl

-- The engine unsubscribes, the loop does not stop in time, and the host unsubscribes again.
abbrev calls : List Call
calls =
    subscribing
    ∷ unsubscribing (record { loop_stops = false; leave_error = some deadline_exceeded })
    ∷ subscribing
    ∷ unsubscribing (record { loop_stops = true; leave_error = some deadline_exceeded })
    ∷ []

opened_client_closed_once_example :
    let effects = (create_consumer fine_world (text "orders") grouped).1 in
    let effects' = (run_calls calls (lifecycle_of wired)).1 in
    (how_often is_open effects ≡ 1)
    × (how_often is_shut effects ≡ 0)
    × (how_often is_leave effects' ≡ 1)
    × (how_often is_close effects' ≡ 1)
opened_client_closed_once_example =
    opened_client_closed_once fine_world (text "orders") grouped calls refl fine_world_created
      wired_logs refl

-- Two hours are asked for, and one is the limit.
abbrev asks_for_more : List AdapterOption
asks_for_more = with_poll_error_bail_after (pos (2 * hour)) ∷ []

asked_created :
    (create_consumer fine_world (text "orders") (with_options asks_for_more grouped)).2 ≡ created
unfolding create_consumer validate_client with_options
asked_created = refl

asked_logs :
    (create_consumer fine_world (text "orders") (with_options asks_for_more grouped)).0.has_logger
    ≡ true
unfolding create_consumer validate_client with_options
asked_logs = refl

asked_on : (process_adapter_options asks_for_more).poll_error_bail_after ≢ pos 0
unfolding process_adapter_options default_adapter_options with_poll_error_bail_after
asked_on = ground arith

hour_of_failure_stops_example :
    let asked =
      (create_consumer fine_world (text "orders") (with_options asks_for_more grouped)).0 in
    let (st', effects) =
      fetch_all
        (fetch_config_of fine_world.build asked asked_logs)
        (span 1 mixed ((2, false, mixed) ∷ []) (hour + 1) failing_only)
        no_streaks in
    (st'.bailed ≡ true) × (shutdowns effects ≡ 1)
unfolding lookup contains recovered_keys partition_key itoa is_deadline
hour_of_failure_stops_example =
    hour_of_failure_stops fine_world (text "orders") asks_for_more grouped no_streaks
      (text "orders-1") 1 (hour + 1) mixed failing_only ((2, false, mixed) ∷ []) asked_created
      asked_logs asked_on (refl, refl, refl, (λ h. cc)) refl (refl, (λ h. cc), tt)
      (refl, refl, refl, (λ h. cc)) (omega arith) refl
