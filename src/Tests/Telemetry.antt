-- ===== src/Tests/Telemetry.antt =====
-- Telemetry from the first batch to the stop.
use llingr_adapter_franz.Prelude.{
  pos, text, int_eq, true, false, ◌+◌, ◌%◌, insert, lookup, none, some, [], ◌≡◌, refl, arith,
}
use llingr_adapter_franz.Bandwidth.{
  BrokerMetadata, FetchBatchMetrics, record_fetch_batch, new_bandwidth_collector, emit, int64_mod,
}
use llingr_adapter_franz.Bandwidth.Port.{
  Telemetry, Reach, set_up, later, batch, callback_set, tick, loop_quits, stop_begins, stop_returns,
  on_fetch_batch_read, set_bandwidth_callback, tick_step, stats_interval, no_telemetry,
  with_bandwidth_interval,
}
use llingr_adapter_franz.Bandwidth.Port.Stopping.{
  no_packet_behind_stop, Stops, stop_ends, here, next, Steps,
}
use llingr_adapter_franz.Bandwidth.Port.Ledger.{balance, recorded_in, steps_conserve}
use llingr_adapter_franz.Bandwidth.Totals.{received}

abbrev minute : Telemetry
unfolding no_telemetry new_bandwidth_collector
minute = record no_telemetry {
  collector = some (new_bandwidth_collector (pos 60) (pos 0) (text "g") (text "orders"));
}

configured :
    with_bandwidth_interval none (pos 60) (pos 0) (text "g") no_telemetry
    ≡ some (record no_telemetry {
      collector = some (new_bandwidth_collector (pos 60) (pos 0) (text "g") []);
    })
unfolding with_bandwidth_interval no_telemetry
configured = refl

abbrev broker_1 : BrokerMetadata
broker_1 = record { node_id = pos 1; host = text "b1"; port = pos 9092; rack = none }

abbrev metrics : FetchBatchMetrics
metrics = record {
  num_records = 10;
  uncompressed_bytes = 1000;
  compressed_bytes = 400;
  compression_type = 1;
}

abbrev Reached : Type 0
Reached = (t : Telemetry) × Reach t

abbrev ticked : Reached
unfolding minute set_bandwidth_callback on_fetch_batch_read
ticked = (
  _,
  later
      (later (later (set_up minute refl refl refl refl) (callback_set true))
        (batch broker_1 (pos 0) metrics))
      (tick 7 (λ n. n) (omega arith)),
)

told_minute : stats_interval (pos 5) ticked.0 ≡ pos 60
unfolding ticked stats_interval tick_step emit record_fetch_batch
told_minute = refl

abbrev stopped : Reached
unfolding ticked tick_step emit
stopped = (
  _,
  later (later (later ticked.1 stop_begins) (loop_quits (omega arith) refl))
      (stop_returns refl refl),
)

-- A batch that arrives late.
abbrev late_batch : Telemetry
late_batch = on_fetch_batch_read broker_1 (pos 0) metrics stopped.0

no_packet_behind_stop_example : late_batch.packets ≡ stopped.0.packets
unfolding stopped
no_packet_behind_stop_example =
    no_packet_behind_stop stopped.1 refl (batch broker_1 (pos 0) metrics)

stop_ends_case : Stops (record (ticked.0) { quit = true })
stop_ends_case = stop_ends ticked.0

-- A batch, a tick without a callback, another batch, a tick with one.
abbrev from_minute : (t : Telemetry) × Steps minute t
unfolding minute set_bandwidth_callback on_fetch_batch_read tick_step
from_minute = (
  _,
  next (callback_set false) (
      next (batch broker_1 (pos 0) metrics) (
        next (tick 7 (λ n. n) (omega arith)) (
          next (callback_set true)
            (next (batch broker_1 (pos 0) metrics) (next (tick 8 (λ n. n) (omega arith)) here))))),
)

told_twice_the_batch : balance received (pos 0) from_minute.0 ≡ 2000
unfolding from_minute tick_step emit record_fetch_batch insert lookup
told_twice_the_batch = refl

steps_conserve_example :
    balance received (pos 0) from_minute.0 % int64_mod
    ≡ (balance received (pos 0) minute + recorded_in received (pos 0) from_minute.1) % int64_mod
unfolding minute
steps_conserve_example = steps_conserve received (pos 0) from_minute.1 tt
