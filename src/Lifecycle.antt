-- ===== src/Lifecycle.antt =====
-- franzadapter/broker_port.go, Subscribe, Unsubscribe and releaseBroker: the start of the fetch loop
-- and the one-time release of the client, by whoever asks first.
use llingr_adapter_franz.Prelude.{
  Bool, true, false, if◌then◌else◌, Option, none, some, List, [], ◌∷◌, ◌++◌, not, ◌&&◌,
}
use llingr_adapter_franz.Foreign.{GoError}
use llingr_adapter_franz.Effects.{
  Topic, Effect, info, warn, subscribed, fetch_loop_stopped, fetch_loop_did_not_stop, left_group,
  leave_in_flight, leave_failed, closing_client, client_closed, stop_bandwidth, cancel_fetch,
  await_fetch_loop, leave_group, close_client, start_fetch_loop,
}
use llingr_adapter_franz.PollErrors.{is_deadline}
use llingr_adapter_franz.Procedure.{
  Procedure, Ending, returned, ◌⨟◌, skip, perform, when, log_line, log_if,
}
pub mod Release
pub mod Once

-- Which of the adapter's fields are set, and which of its sync.Onces have run.
pub record Lifecycle : Type 0 where
  pub has_client : Bool  -- pollRecordsFn
  pub has_logger : Bool
  pub has_collector : Bool  -- bwCollector
  pub has_leave : Bool  -- leaveGroupFn
  pub has_close : Bool  -- closeFn
  pub topic_name : Topic
  pub fetch_started : Bool  -- fetchStart has run, so that fetchCancel is set
  pub released : Bool  -- unsubscribeOnce has run

-- What the release meets: whether the loop exits in time, and the answer of LeaveGroup.
pub record Shutdown : Type 0 where
  pub loop_stops : Bool
  pub leave_error : Option GoError

unfoldable pub subscribe : Lifecycle → Lifecycle × Procedure
subscribe a =
    let starts = a.has_client && not a.fetch_started in
    (
      if starts then record a { fetch_started = true } else a,
      when starts (perform start_fetch_loop) ⨟ log_line a.has_logger info (subscribed a.topic_name),
    )

-- The report on LeaveGroup's answer.
unfoldable pub report_leave : Bool → Option GoError → Procedure
report_leave has_logger none = log_if has_logger info left_group
report_leave has_logger (some err) =
    if is_deadline err
    then log_line has_logger warn leave_in_flight
    else log_line has_logger warn (leave_failed err)

unfoldable pub stop_loop : Bool → Bool → Procedure
stop_loop has_logger loop_stops =
    perform cancel_fetch
    ⨟ perform await_fetch_loop
    ⨟ (if loop_stops
        then log_if has_logger info fetch_loop_stopped
        else log_line has_logger warn fetch_loop_did_not_stop)

unfoldable pub release_broker : Shutdown → Lifecycle → Procedure
unfolding report_leave stop_loop
release_broker env a =
    when a.has_collector (perform stop_bandwidth)
    ⨟ when a.fetch_started (stop_loop a.has_logger env.loop_stops)
    ⨟ when a.has_leave (perform leave_group ⨟ report_leave a.has_logger env.leave_error)
    ⨟ when a.has_close (
        log_if a.has_logger info closing_client
        ⨟ perform close_client
        ⨟ log_if a.has_logger info client_closed)

-- sync.Once counts a call that panics as done.
unfoldable pub unsubscribe : Shutdown → Lifecycle → Lifecycle × Procedure
unfolding release_broker
unsubscribe env a =
    if a.released then (a, skip) else (record a { released = true }, release_broker env a)
