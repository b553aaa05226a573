-- ===== src/Bandwidth/Conservation.antt =====
-- franzadapter/bandwidth.go: no byte is lost or counted twice between the hooks and the packets.
use llingr_adapter_franz.Prelude.{
  ℕ, ◌+◌, ◌%◌, ℤ, GoString, int_eq, ◌==◌, if◌then◌else◌, Option, none, List, [], ◌∷◌, IsMap, ◌≡◌,
  arith,
}
use llingr_adapter_franz.Bandwidth.{
  BrokerMetadata, FetchBatchMetrics, BandwidthCollector, BandwidthMetrics, int64_mod,
  record_fetch_batch, record_broker_read, record_broker_write, emit,
}
use llingr_adapter_franz.Bandwidth.Totals.{
  Counter, amount, count_of, reported, count_of-record_fetch_batch, record_fetch_batch-IsMap,
  lookup-reset_all, reset_all-IsMap, reported_of-snapshot,
}

pub emit-count :
    (k : Counter) (p : ℤ) (now : ℕ) (uuid : GoString) (c : BandwidthCollector)
    → IsMap c.partitions
    → let (c', packet) = emit now uuid c in reported k p packet + count_of k p c' ≡ count_of k p c
unfolding emit
emit-count k p now uuid c h =
    ground (arith, lookup-reset_all p c.partitions, reported_of-snapshot k p now c.partitions h)

-- What the client's hooks and the timer do, in the order in which they get the lock.
pub data Event : Type 0 where
  fetch_batch_read : BrokerMetadata → (partition : ℤ) → FetchBatchMetrics → Event
  broker_read broker_write : BrokerMetadata → Event
  tick : (now : ℕ) (uuid : GoString) → Event

unfoldable pub step : Event → BandwidthCollector → BandwidthCollector × Option BandwidthMetrics
unfolding record_fetch_batch record_broker_read record_broker_write emit
step (fetch_batch_read meta p m) c = (record_fetch_batch meta p m c, none)
step (broker_read meta) c = (record_broker_read meta c, none)
step (broker_write meta) c = (record_broker_write meta c, none)
step (tick now uuid) c = emit now uuid c

abbrev recorded : Counter → ℤ → Event → ℕ
recorded k p (fetch_batch_read meta q m) = if q == p then amount k m else 0
recorded k p (broker_read meta) = 0
recorded k p (broker_write meta) = 0
recorded k p (tick now uuid) = 0

-- What a sequence of events records for one counter of one partition.
abbrev pub all_recorded : Counter → ℤ → List Event → ℕ
all_recorded k p [] = 0
all_recorded k p (e ∷ events) = recorded k p e + all_recorded k p events

-- The collector after a sequence of events, and what its packets report.
unfoldable pub run : Counter → ℤ → List Event → BandwidthCollector → BandwidthCollector × ℕ
unfolding step
run k p [] c = (c, 0)
run k p (e ∷ events) c =
    let (c', packet) = step e c in
    let (last, total) = run k p events c' in (last, reported k p packet + total)

pub step-count :
    (k : Counter) (p : ℤ) (e : Event) (c : BandwidthCollector)
    → IsMap c.partitions
    → let (c', packet) = step e c in
      (reported k p packet + count_of k p c') % int64_mod
      ≡ (count_of k p c + recorded k p e) % int64_mod
unfolding step
step-count k p (fetch_batch_read meta q m) c h =
    omega (arith, count_of-record_fetch_batch k p meta q m c)
step-count k p (broker_read meta) c h = unfold record_broker_read in omega arith
step-count k p (broker_write meta) c h = unfold record_broker_write in omega arith
step-count k p (tick now uuid) c h = omega (arith, emit-count k p now uuid c h)

pub step-IsMap :
    (e : Event) (c : BandwidthCollector) → IsMap c.partitions → IsMap (step e c).0.partitions
unfolding step
step-IsMap (fetch_batch_read meta p m) c h = record_fetch_batch-IsMap meta p m c h
step-IsMap (broker_read meta) c h = h
step-IsMap (broker_write meta) c h = h
step-IsMap (tick now uuid) c h = unfold emit in ground (arith, reset_all-IsMap c.partitions h)

pub run_conserves :
    (k : Counter) (p : ℤ) (events : List Event) (c : BandwidthCollector)
    → IsMap c.partitions
    → let (c', total) = run k p events c in
      (total + count_of k p c') % int64_mod ≡ (count_of k p c + all_recorded k p events) % int64_mod
unfolding run
run_conserves k p [] c h = omega arith
run_conserves k p (e ∷ events) c h =
    let c' = (step e c).0 in
    omega (arith, step-count k p e c h, run_conserves k p events c' (step-IsMap e c h))
