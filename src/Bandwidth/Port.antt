-- ===== src/Bandwidth/Port.antt =====
-- franzadapter/bandwidth.go and WithBandwidthInterval of franzadapter/adapter.go: the adapter's telemetry,
-- with the goroutines that emit packets and the stop that waits for them.
use llingr_adapter_franz.Prelude.{
  ℕ, suc, ◌+◌, ◌-◌, ◌<◌, ℤ, GoString, Bool, true, false, Option, none, some, List, [], ◌∷◌, ◌++◌,
  ◌≡◌,
}
use llingr_adapter_franz.Foreign.{GoError}
use llingr_adapter_franz.Bandwidth.{
  BrokerMetadata, FetchBatchMetrics, BandwidthCollector, BandwidthMetrics, new_bandwidth_collector,
  record_fetch_batch, record_broker_read, record_broker_write, emit,
}
use llingr_adapter_franz.Bandwidth.Uuid.{generate_uuid}
pub mod Stopping
pub mod Ledger

-- What stands behind bwCollector; nil without WithBandwidthInterval.
pub record Telemetry : Type 0 where
  pub collector : Option BandwidthCollector
  pub loops : ℕ  -- running emitLoops, which the WaitGroup counts
  pub quit : Bool  -- the channel is closed
  pub stopped : Bool  -- stop has returned, and the callback has not been set since
  pub packets : List BandwidthMetrics  -- those that the callback got, the last one last

unfoldable pub no_telemetry : Telemetry
no_telemetry = record { collector = none; loops = 0; quit = false; stopped = false; packets = [] }

-- A new collector comes with a goroutine count and a channel of its own.
-- `invalid` is the answer of nexus.ValidateBandwidthInterval, and `none` the panic on it.
unfoldable pub with_bandwidth_interval :
    (invalid : Option GoError) (default_interval d : ℤ) (group_id : GoString)
    → Telemetry
    → Option Telemetry
unfolding new_bandwidth_collector
with_bandwidth_interval (some err) default_interval d group_id t = none
with_bandwidth_interval none default_interval d group_id t = some (record {
  collector = some (new_bandwidth_collector default_interval d group_id []);
  loops = 0;
  quit = false;
  stopped = false;
  packets = t.packets;
})

-- SetBandwidthCallback, with start; the callback may be nil.
unfoldable pub set_bandwidth_callback : (has_callback : Bool) → Telemetry → Telemetry
set_bandwidth_callback has_callback t = elim t.collector [
  | none ↦ t
  | some c ↦ record t {
    collector = some (record c { has_callback = has_callback });
    loops = suc t.loops;
    stopped = false;
  }
]

unfoldable pub stats_interval : (default_interval : ℤ) → Telemetry → ℤ
stats_interval default_interval t = elim t.collector [
  | none ↦ default_interval
  | some c ↦ c.interval
]

abbrev pub on_collector : (BandwidthCollector → BandwidthCollector) → Telemetry → Telemetry
on_collector f t = elim t.collector [ none ↦ t | some c ↦ record t { collector = some (f c) } ]

unfoldable pub on_fetch_batch_read :
    BrokerMetadata → (partition : ℤ) → FetchBatchMetrics → Telemetry → Telemetry
on_fetch_batch_read meta partition m = on_collector (record_fetch_batch meta partition m)

unfoldable pub on_broker_read : BrokerMetadata → Telemetry → Telemetry
on_broker_read meta = on_collector (record_broker_read meta)

unfoldable pub on_broker_write : BrokerMetadata → Telemetry → Telemetry
on_broker_write meta = on_collector (record_broker_write meta)

abbrev pub given : Option BandwidthMetrics → List BandwidthMetrics
given none = []
given (some packet) = packet ∷ []

-- A tick of an emitLoop.
unfoldable pub tick_step : (now : ℕ) (random : ℕ → ℕ) → Telemetry → Telemetry
tick_step now random t = elim t.collector [
  | none ↦ t
  | some c ↦
      let (c', packet) = emit now (generate_uuid random) c in
      record t { collector = some c'; packets = t.packets ++ given packet }
]

-- The steps of the hooks, of the emitLoops, and of start and stop. An emitLoop that finds both its
-- ticker and `quit` ready takes either.
pub data Step (t : Telemetry) : Telemetry → Type 0 where
  batch :
      (meta : BrokerMetadata) (partition : ℤ) (m : FetchBatchMetrics)
      → Step t (on_fetch_batch_read meta partition m t)
  read : (meta : BrokerMetadata) → Step t (on_broker_read meta t)
  write : (meta : BrokerMetadata) → Step t (on_broker_write meta t)
  callback_set : (has_callback : Bool) → Step t (set_bandwidth_callback has_callback t)
  tick : (now : ℕ) (random : ℕ → ℕ) → 0 < t.loops → Step t (tick_step now random t)
  loop_quits : 0 < t.loops → t.quit ≡ true → Step t (record t { loops = t.loops - 1 })
  stop_begins : Step t (record t { quit = true })
  stop_returns : t.loops ≡ 0 → t.quit ≡ true → Step t (record t { stopped = true })

pub data Reach : Telemetry → Type 0 where
  set_up :
      (t : Telemetry) → t.loops ≡ 0 → t.quit ≡ false → t.stopped ≡ false → t.packets ≡ [] → Reach t
  later : {s t : Telemetry} → Reach s → Step s t → Reach t
