-- ===== src/Tests/Clients.antt =====
-- Tests and instances for the release of the client and for the bandwidth telemetry.
use llingr_adapter_franz.Prelude.{
  ◌≤◌, pos, text, string_eq, int_eq, true, false, ◌&&◌, none, some, List, [], ◌∷◌, lookup, insert,
  ◌≡◌, refl,
}
use llingr_adapter_franz.Foreign.{deadline_exceeded}
use llingr_adapter_franz.Effects.{
  stop_bandwidth, cancel_fetch, await_fetch_loop, leave_group, close_client,
}
use llingr_adapter_franz.Decimal.{itoa}
use llingr_adapter_franz.Procedure.{returned, panicked, is_returned}
use llingr_adapter_franz.Lifecycle.{Lifecycle, Shutdown, release_broker}
use llingr_adapter_franz.Lifecycle.Release.{calls, closes, release_calls, release_without_logger}
use llingr_adapter_franz.Effects.Counting.{how_often}
use llingr_adapter_franz.Lifecycle.Once.{
  Call, subscribing, unsubscribing, run_calls, is_start, is_leave, is_close, at_most_once,
}
use llingr_adapter_franz.Bandwidth.{
  BrokerMetadata, FetchBatchMetrics, BandwidthCollector, compression_name,
}
use llingr_adapter_franz.Bandwidth.Totals.{received, compressed, count_of}
use llingr_adapter_franz.Bandwidth.Conservation.{Event, fetch_batch_read, tick, run}
use llingr_adapter_franz.Bandwidth.Brokers.{seen, update_brokers, lookup-update_brokers}

abbrev subscribed_adapter : Lifecycle
subscribed_adapter = record {
  has_client = true;
  has_logger = true;
  has_collector = true;
  has_leave = true;
  has_close = true;
  topic_name = text "orders";
  fetch_started = true;
  released = false;
}

-- SetClient was called, and CreateConsumer was not.
abbrev bare_client : Lifecycle
bare_client = record subscribed_adapter {
  has_logger = false;
  has_collector = false;
  fetch_started = false;
}

abbrev wedged : Shutdown
wedged = record { loop_stops = false; leave_error = some deadline_exceeded }

release_calls_example :
    ((release_broker wedged subscribed_adapter).1 ≡ returned)
    × (calls (release_broker wedged subscribed_adapter).0
        ≡ stop_bandwidth ∷ cancel_fetch ∷ await_fetch_loop ∷ leave_group ∷ close_client ∷ [])
release_calls_example = release_calls wedged subscribed_adapter refl

release_without_logger_example :
    ((release_broker wedged bare_client).1 ≡ panicked)
    × (closes (release_broker wedged bare_client).0
        ≡ (true && is_returned (release_broker wedged bare_client).1))
release_without_logger_example = release_without_logger wedged bare_client refl

abbrev many_calls : List Call
many_calls = subscribing ∷ unsubscribing wedged ∷ unsubscribing wedged ∷ subscribing ∷ []

at_most_once_case :
    (how_often is_start (run_calls many_calls subscribed_adapter).1 ≤ 0)
    × (how_often is_leave (run_calls many_calls subscribed_adapter).1 ≤ 1)
    × (how_often is_close (run_calls many_calls subscribed_adapter).1 ≤ 1)
at_most_once_case = at_most_once many_calls subscribed_adapter

abbrev broker_1 : BrokerMetadata
broker_1 = record { node_id = pos 1; host = text "b1"; port = pos 9092; rack = none }

abbrev batch : FetchBatchMetrics
batch = record {
  num_records = 10;
  uncompressed_bytes = 1000;
  compressed_bytes = 400;
  compression_type = 1;
}

abbrev collector : BandwidthCollector
collector = record {
  partitions = [];
  brokers = [];
  has_callback = true;
  interval = pos 60_000_000_000;
  group_id = text "g";
  topic_name = text "orders";
}

abbrev traffic : List Event
traffic =
    fetch_batch_read broker_1 (pos 0) batch
    ∷ tick 1 (text "id-1")
    ∷ fetch_batch_read broker_1 (pos 1) batch
    ∷ fetch_batch_read broker_1 (pos 0) batch
    ∷ []

reported_and_held :
    ((run received (pos 0) traffic collector).1 ≡ 1000)
    × (count_of compressed (pos 0) (run received (pos 0) traffic collector).0 ≡ 400)
unfolding run lookup insert
reported_and_held = (refl, refl)

unknown_code : compression_name 7 ≡ text "unknown(7)"
unfolding compression_name itoa
unknown_code = refl

lookup-update_brokers_case :
    lookup (pos 1) (update_brokers (broker_1 ∷ broker_1 ∷ []) [])
    ≡ seen (pos 1) (broker_1 ∷ broker_1 ∷ []) (lookup (pos 1) [])
lookup-update_brokers_case = lookup-update_brokers (pos 1) (broker_1 ∷ broker_1 ∷ []) []
