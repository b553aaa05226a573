-- ===== src/Bandwidth/Port/Ledger.antt =====
-- franzadapter/bandwidth.go: what the packets report against what the hooks recorded, whatever the
-- emitLoops, the callback and stop do.
use llingr_adapter_franz.Prelude.{
  ℕ, ◌+◌, ◌%◌, ℤ, int_eq, ◌==◌, if◌then◌else◌, Bool, Option, none, some, List, [], ◌∷◌, ◌++◌, IsMap,
  ◌≡◌, refl, arith,
}
use llingr_adapter_franz.Bandwidth.{
  BrokerMetadata, FetchBatchMetrics, BandwidthCollector, BandwidthMetrics, int64_mod,
  record_fetch_batch, record_broker_read, record_broker_write, emit,
}
use llingr_adapter_franz.Bandwidth.Totals.{
  Counter, amount, count_of, reported, count_of-record_fetch_batch, reset_all-IsMap,
  record_fetch_batch-IsMap,
}
use llingr_adapter_franz.Bandwidth.Conservation.{emit-count}
use llingr_adapter_franz.Bandwidth.Uuid.{generate_uuid}
use llingr_adapter_franz.Bandwidth.Port.{
  Telemetry, set_bandwidth_callback, on_fetch_batch_read, on_broker_read, on_broker_write,
  tick_step, on_collector, Step, batch, read, write, callback_set, tick, loop_quits, stop_begins,
  stop_returns, given,
}
use llingr_adapter_franz.Bandwidth.Port.Stopping.{Steps, here, next}

-- What the packets report of one counter of one partition.
abbrev pub reported_in : Counter → ℤ → List BandwidthMetrics → ℕ
reported_in k p [] = 0
reported_in k p (packet ∷ packets) = reported k p (some packet) + reported_in k p packets

-- What the collector, if there is one, still holds of it.
abbrev pub held_in : Counter → ℤ → Option BandwidthCollector → ℕ
held_in k p none = 0
held_in k p (some c) = count_of k p c

abbrev pub balance : Counter → ℤ → Telemetry → ℕ
balance k p t = reported_in k p t.packets + held_in k p t.collector

abbrev pub recorded_of : Counter → ℤ → ℤ → FetchBatchMetrics → Option BandwidthCollector → ℕ
recorded_of k p q m none = 0
recorded_of k p q m (some _) = if q == p then amount k m else 0

-- What a step records: a fetch batch of the partition, if there is a collector.
abbrev pub recorded_by : Counter → ℤ → {s t : Telemetry} → Step s t → ℕ
recorded_by k p {s} (batch meta q m) = recorded_of k p q m s.collector
recorded_by k p _ = 0

abbrev pub recorded_in : Counter → ℤ → {s t : Telemetry} → Steps s t → ℕ
recorded_in k p here = 0
recorded_in k p (next st steps) = recorded_by k p st + recorded_in k p steps

-- The collector's partitions are a map.
abbrev pub KeepsMap : Option BandwidthCollector → Type 0
KeepsMap none = Unit {0}
KeepsMap (some c) = IsMap c.partitions

reported_in-append :
    (k : Counter) (p : ℤ) (xs ys : List BandwidthMetrics)
    → reported_in k p (xs ++ ys) ≡ reported_in k p xs + reported_in k p ys
reported_in-append k p [] ys = omega arith
reported_in-append k p (x ∷ xs) ys = omega (arith, reported_in-append k p xs ys)

reported_in-given :
    (k : Counter) (p : ℤ) (o : Option BandwidthMetrics) → reported_in k p (given o) ≡ reported k p o
reported_in-given k p none = refl
reported_in-given k p (some packet) = omega arith

module _ (k : Counter) (p : ℤ) (s : Telemetry) where
  batch-balance :
      (meta : BrokerMetadata) (q : ℤ) (m : FetchBatchMetrics) (o : Option BandwidthCollector)
      → s.collector ≡ o
      → balance k p (on_fetch_batch_read meta q m s) % int64_mod
        ≡ (balance k p s + recorded_of k p q m o) % int64_mod
  unfolding on_fetch_batch_read
  batch-balance meta q m none e = ground (arith, e)
  batch-balance meta q m (some c) e = ground (arith, e, count_of-record_fetch_batch k p meta q m c)

  read-balance : (meta : BrokerMetadata) → balance k p (on_broker_read meta s) ≡ balance k p s
  unfolding on_broker_read record_broker_read
  read-balance meta = ground arith

  write-balance : (meta : BrokerMetadata) → balance k p (on_broker_write meta s) ≡ balance k p s
  unfolding on_broker_write record_broker_write
  write-balance meta = ground arith

  set-balance :
      (has_callback : Bool) → balance k p (set_bandwidth_callback has_callback s) ≡ balance k p s
  unfolding set_bandwidth_callback
  set-balance has_callback = ground arith

  tick-balance :
      (now : ℕ) (random : ℕ → ℕ) (o : Option BandwidthCollector)
      → s.collector ≡ o
      → KeepsMap o
      → balance k p (tick_step now random s) ≡ balance k p s
  unfolding tick_step
  tick-balance now random none e h = ground (arith, e)
  tick-balance now random (some c) e h =
      let packet = (emit now (generate_uuid random) c).1 in
      ground (
        arith,
        e,
        emit-count k p now (generate_uuid random) c h,
        reported_in-append k p s.packets (given packet),
        reported_in-given k p packet,
      )

-- A step that sets a collector which keeps the map keeps it, whether or not there is one.
module _ (s : Telemetry) where
  on_collector-KeepsMap :
      (f : BandwidthCollector → BandwidthCollector) (o : Option BandwidthCollector)
      → s.collector ≡ o
      → ((c : BandwidthCollector) → IsMap c.partitions → IsMap (f c).partitions)
      → KeepsMap o
      → KeepsMap (on_collector f s).collector
  on_collector-KeepsMap f none e keeps h = ground (arith, e)
  on_collector-KeepsMap f (some c) e keeps h = ground (arith, e, keeps c h)

  set-KeepsMap :
      (has_callback : Bool) (o : Option BandwidthCollector)
      → s.collector ≡ o
      → KeepsMap o
      → KeepsMap (set_bandwidth_callback has_callback s).collector
  unfolding set_bandwidth_callback
  set-KeepsMap has_callback none e h = ground (arith, e)
  set-KeepsMap has_callback (some c) e h = ground (arith, e)

  tick-KeepsMap :
      (now : ℕ) (random : ℕ → ℕ) (o : Option BandwidthCollector)
      → s.collector ≡ o
      → KeepsMap o
      → KeepsMap (tick_step now random s).collector
  unfolding tick_step emit
  tick-KeepsMap now random none e h = ground (arith, e)
  tick-KeepsMap now random (some c) e h = ground (arith, e, reset_all-IsMap c.partitions h)

Step-KeepsMap : {s t : Telemetry} → Step s t → KeepsMap s.collector → KeepsMap t.collector
unfolding on_fetch_batch_read on_broker_read on_broker_write record_broker_read record_broker_write
Step-KeepsMap {s} (batch meta q m) h =
    on_collector-KeepsMap s (record_fetch_batch meta q m) s.collector refl
      (record_fetch_batch-IsMap meta q m) h
Step-KeepsMap {s} (read meta) h =
    on_collector-KeepsMap s (record_broker_read meta) s.collector refl (λ c m. m) h
Step-KeepsMap {s} (write meta) h =
    on_collector-KeepsMap s (record_broker_write meta) s.collector refl (λ c m. m) h
Step-KeepsMap {s} (callback_set has_callback) h = set-KeepsMap s has_callback s.collector refl h
Step-KeepsMap {s} (tick now random runs) h = tick-KeepsMap s now random s.collector refl h
Step-KeepsMap (loop_quits runs closed) h = h
Step-KeepsMap stop_begins h = h
Step-KeepsMap (stop_returns ended closed) h = h

Step-balance :
    (k : Counter) (p : ℤ) {s t : Telemetry} (st : Step s t)
    → KeepsMap s.collector
    → balance k p t % int64_mod ≡ (balance k p s + recorded_by k p st) % int64_mod
Step-balance k p {s} (batch meta q m) h = batch-balance k p s meta q m s.collector refl
Step-balance k p {s} (read meta) h = omega (arith, read-balance k p s meta)
Step-balance k p {s} (write meta) h = omega (arith, write-balance k p s meta)
Step-balance k p {s} (callback_set has_callback) h = omega (arith, set-balance k p s has_callback)
Step-balance k p {s} (tick now random runs) h =
    omega (arith, tick-balance k p s now random s.collector refl h)
Step-balance k p (loop_quits runs closed) h = omega arith
Step-balance k p stop_begins h = omega arith
Step-balance k p (stop_returns ended closed) h = omega arith

-- Telemetry conserves bytes: over any steps of the hooks, of start with a callback or with nil, of
-- any number of emitLoops and of stop, for each counter of each partition, what the packets have
-- reported plus what the collector still holds is what these were before plus what the fetch batches
-- have recorded, modulo 2^64; nothing is lost or reported twice. (The collector's partitions are a
-- map.)
pub steps_conserve :
    (k : Counter) (p : ℤ) {s t : Telemetry} (steps : Steps s t)
    → KeepsMap s.collector
    → balance k p t % int64_mod ≡ (balance k p s + recorded_in k p steps) % int64_mod
steps_conserve k p here h = omega arith
steps_conserve k p (next st steps) h =
    omega (arith, Step-balance k p st h, steps_conserve k p steps (Step-KeepsMap st h))
