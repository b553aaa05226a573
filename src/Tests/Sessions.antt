-- ===== src/Tests/Sessions.antt =====
-- A subscribed adapter that fetches a record, is unsubscribed and closes its client.
use llingr_adapter_franz.Prelude.{
  ◌+◌, ◌≤◌, pos, text, true, false, if◌then◌else◌, none, some, [], ◌∷◌, ◌≡◌, refl,
}
use llingr_adapter_franz.Foreign.{Record, Fetches}
use llingr_adapter_franz.Effects.{
  poll_records, allow_rebalance, cancel_fetch, await_fetch_loop, leave_group, close_client,
}
use llingr_adapter_franz.Options.{default_adapter_options}
use llingr_adapter_franz.Rebalance.{RebalanceState, Wiring, process_pending_rebalances}
use llingr_adapter_franz.PollErrors.{handle_poll_errors}
use llingr_adapter_franz.Fetch.{FetchConfig, FetchState, fetch_next}
use llingr_adapter_franz.Lifecycle.{Lifecycle, Shutdown, unsubscribe}
use llingr_adapter_franz.Effects.Counting.{how_often}
use llingr_adapter_franz.Gate
use llingr_adapter_franz.Gate.{exited, start, call_poll, return_from_poll}
use llingr_adapter_franz.Session.{
  Session, Reach, began, later, polling, allow_on_exit, shared, unsubscribing, releasing,
  subscribed, fetch_step, unsubscribe_step, release_step,
}
use llingr_adapter_franz.Session.Refinement.{Reach-gate}
use llingr_adapter_franz.Session.Traces.{is_allow, quiet}
use llingr_adapter_franz.Session.Closing.{no_call_behind_close, each_poll_released}
use llingr_adapter_franz.Session.Topic.{AreOurs, only_our_records}
use llingr_adapter_franz.Session.Stops.{Run, done, then_on, IsEnding, cancelled_loop_ends}
use llingr_adapter_franz.Session.Completes.{Completes, release-Completes}

abbrev config : FetchConfig
config = record {
  topic_name = text "orders";
  opts = default_adapter_options;
  has_shutdowner = true;
}

abbrev pub order : Record
order = record { topic = text "orders"; partition = pos 0; offset = pos 42; key = [] }

abbrev pub one_record : Fetches
one_record = record { records = order ∷ []; errors = []; has_err = false; client_closed = false }

abbrev no_errors : FetchState
no_errors = record { streaks = record { since = []; logged = []; last_id = [] }; bailed = false }

abbrev pub idle : RebalanceState
idle = record { pending_assigned = []; pending_revoked = [] }

abbrev adapter : Lifecycle
adapter = record {
  has_client = true;
  has_logger = false;
  has_collector = false;
  has_leave = true;
  has_close = true;
  topic_name = text "orders";
  fetch_started = true;
  released = false;
}

abbrev pub smooth : Shutdown
smooth = record { loop_stops = true; leave_error = none }

abbrev Reached : Type 0
Reached = (s : Session) × Reach config s

abbrev fetched_one : Reached
unfolding subscribed start fetch_step fetch_next handle_poll_errors
fetched_one = (_, later (began idle no_errors adapter refl refl) (polling 0 one_record refl))

abbrev cancelled : Reached
unfolding fetched_one unsubscribe_step unsubscribe release_step
cancelled =
    (_, later (later fetched_one.1 (unsubscribing smooth refl)) (releasing cancel_fetch _ refl tt))

abbrev stopped : Reached
unfolding cancelled
stopped = (
  _,
  later
      (later
        (later (later cancelled.1 (shared (Gate.drop_record order refl refl) refl))
          (allow_on_exit refl))
        (shared (Gate.close_records refl) refl))
      (shared (Gate.close_done refl) refl),
)

abbrev closed : Reached
unfolding stopped
closed = (
  _,
  later
      (later (later stopped.1 (releasing await_fetch_loop _ refl (λ _. refl)))
        (releasing leave_group _ refl tt))
      (releasing close_client _ refl tt),
)

closed_calls :
    closed.0.trace
    ≡ poll_records ∷ cancel_fetch ∷ allow_rebalance ∷ await_fetch_loop ∷ leave_group ∷ close_client
      ∷ []
unfolding closed
closed_calls = refl

Reach-gate_example : Gate.Reach closed.0.gate
Reach-gate_example = Reach-gate closed.1

no_call_behind_close_example :
    (quiet false closed.0.trace ≡ true) × (closed.0.closed ≡ true → closed.0.gate.loop ≡ exited)
unfolding closed
no_call_behind_close_example = no_call_behind_close closed.1 refl

each_poll_released_example :
    how_often is_allow closed.0.trace + (if closed.0.gate.registered then 1 else 0)
    ≡ closed.0.holding_polls
each_poll_released_example = each_poll_released closed.1

abbrev pub unwired : Wiring
unwired = record {
  adapted_consumer = none;
  fetch_committed_fn = none;
  assignment_offset_lookup = true;
}

-- Poll takes the record and returns it.
abbrev delivered_one : Reached
unfolding fetched_one call_poll return_from_poll process_pending_rebalances
delivered_one = (
  _,
  later
      (later (later fetched_one.1 (shared (Gate.call refl refl) refl))
        (shared (Gate.receive order refl refl) refl))
      (shared (Gate.return unwired [] (some order) refl) refl),
)

delivered_records : delivered_one.0.gate.returned_so_far ≡ order ∷ []
unfolding delivered_one
delivered_records = refl

only_our_records_example : AreOurs (text "orders") delivered_one.0.gate.returned_so_far
only_our_records_example = only_our_records delivered_one.1

-- The loop drops its record and calls AllowRebalance on its way out.
abbrev Leaving : Type 0
Leaving = (t : Session) × Run config cancelled.0 2 t

abbrev leaving_run : Leaving
unfolding cancelled
leaving_run = (
  _,
  then_on (shared (Gate.drop_record order refl refl) refl) (then_on (allow_on_exit refl) done),
)

cancelled_loop_ends_example : ◌≤◌ 2 7 × IsEnding config leaving_run.0
unfolding leaving_run
cancelled_loop_ends_example = cancelled_loop_ends {s = cancelled.0} refl leaving_run.1

release-Completes_case : Completes config smooth cancelled.0.todo cancelled.0
release-Completes_case = release-Completes smooth cancelled.1
