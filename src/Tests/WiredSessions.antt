-- ===== src/Tests/WiredSessions.antt =====
-- An adapter from CreateConsumer through a record that is delivered to Unsubscribe.
use llingr_adapter_franz.Prelude.{
  ◌*◌, if◌then◌else◌, text, string_eq, true, some, [], lookup, insert, delete, ◌≡◌, refl,
}
use llingr_adapter_franz.Decimal.{itoa}
use llingr_adapter_franz.Options.{minute, default_adapter_options}
use llingr_adapter_franz.Effects.Counting.{how_often}
use llingr_adapter_franz.Fetch.Stopping.{shutdowns, is_spawn}
use llingr_adapter_franz.Wired.Bail.{is_helpless}
use llingr_adapter_franz.Wired.Stop.{stop_is_heard_in_session}
use llingr_adapter_franz.Rebalance.{process_pending_rebalances}
use llingr_adapter_franz.PollErrors.{
  time_sub, handle_poll_errors, partition_key, err_identity, is_deadline, contains, recovered_keys,
}
use llingr_adapter_franz.Fetch.{FetchConfig, fetch_next}
use llingr_adapter_franz.Lifecycle.{subscribe, unsubscribe}
use llingr_adapter_franz.Validate.{validate_client}
use llingr_adapter_franz.Creation.{create_consumer}
use llingr_adapter_franz.Wired.{lifecycle_of, fetch_config_of}
use llingr_adapter_franz.Wired.Session.{wired_start, wired_config, CanClose, session_closes}
use llingr_adapter_franz.Gate
use llingr_adapter_franz.Gate.{start, call_poll, return_from_poll}
use llingr_adapter_franz.Session.{
  Session, polling, shared, unsubscribing, subscribed, fetch_step, unsubscribe_step,
}
use llingr_adapter_franz.Session.LoopEnd.{Steps, here, next}
use llingr_adapter_franz.Tests.Sessions.{order, one_record, idle, smooth, unwired}
use llingr_adapter_franz.Tests.Wirings.{fine_world_created, wired_logs}
use llingr_adapter_franz.Tests.Creations.{grouped, fine_world}
use llingr_adapter_franz.Tests.Fetches.{failing_only, no_streaks}

abbrev session_config : FetchConfig
session_config = wired_config fine_world (text "orders") grouped wired_logs

-- A record is fetched and delivered.
abbrev Served : Type 0
Served =
    (s : Session) × Steps session_config
      (wired_start fine_world (text "orders") grouped idle no_streaks) s

abbrev served : Served
unfolding create_consumer validate_client lifecycle_of fetch_config_of subscribe subscribed start
    fetch_step fetch_next handle_poll_errors call_poll return_from_poll process_pending_rebalances
    unsubscribe_step unsubscribe
served = (
  _,
  next (polling 0 one_record refl) (
      next (shared (Gate.call refl refl) refl) (
        next (shared (Gate.receive order refl refl) refl)
          (next (shared (Gate.return unwired [] (some order) refl) refl) here))),
)

session_closes_example : CanClose session_config (text "orders") smooth served.0
session_closes_example =
    session_closes fine_world (text "orders") grouped idle no_streaks smooth refl fine_world_created
      wired_logs served.1

-- Partition 1 fails, eleven minutes on it still fails, and then the release begins.
abbrev stopped : Served
unfolding create_consumer validate_client lifecycle_of fetch_config_of subscribe subscribed start
    fetch_step fetch_next unsubscribe_step unsubscribe
stopped = (
  _,
  next (polling 1 failing_only refl)
      (next (polling (11 * minute) failing_only refl) (next (unsubscribing smooth refl) here)),
)

stopped_bailed : stopped.0.fetch.bailed ≡ true
unfolding time_sub stopped handle_poll_errors default_adapter_options partition_key err_identity
    itoa lookup insert delete is_deadline contains recovered_keys
stopped_bailed = refl

stop_is_heard_in_session_example :
    (shutdowns stopped.0.trace ≡ (if stopped.0.fetch.bailed then 1 else 0))
    × (how_often is_spawn stopped.0.trace ≡ (if stopped.0.fetch.bailed then 1 else 0))
    × (how_often is_helpless stopped.0.trace ≡ 0)
stop_is_heard_in_session_example =
    stop_is_heard_in_session fine_world (text "orders") grouped idle no_streaks fine_world_created
      wired_logs refl stopped.1
