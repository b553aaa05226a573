-- ===== src/Bandwidth/Totals.antt =====
-- franzadapter/bandwidth.go: one counter of one partition, under each operation.
use llingr_adapter_franz.Prelude.{
  ℕ, ◌+◌, ◌%◌, ℤ, int_eq, beq_ℤ_iff, ◌==◌, if◌then◌else◌, Option, none, some, get_or, List, [], ◌∷◌,
  Map, IsMap, insert-IsMap, lookup, lookup-insert, ◌≡◌, refl, arith,
}
use llingr_adapter_franz.Bandwidth.{
  BrokerMetadata, FetchBatchMetrics, PartitionAccumulator, new_accumulator, BandwidthCollector,
  PartitionBandwidth, BandwidthMetrics, int64_mod, accumulate, record_fetch_batch, snapshot, reset,
  reset_all,
}

pub data Counter : Type 0 where
  received transmitted messages compressed uncompressed : Counter

abbrev pub held : Counter → PartitionAccumulator → ℕ
held received acc = acc.received_bytes
held transmitted acc = acc.transmitted_bytes
held messages acc = acc.received_message_count
held compressed acc = acc.compressed_bytes
held uncompressed acc = acc.uncompressed_bytes

abbrev pub sent : Counter → PartitionBandwidth → ℕ
sent received p = p.received_bytes
sent transmitted p = p.transmitted_bytes
sent messages p = p.received_message_count
sent compressed p = p.compressed_bytes
sent uncompressed p = p.uncompressed_bytes

-- What a fetch batch adds to each counter: the received bytes are the decompressed ones.
abbrev pub amount : Counter → FetchBatchMetrics → ℕ
amount received m = m.uncompressed_bytes
amount transmitted m = 0
amount messages m = m.num_records
amount compressed m = m.compressed_bytes
amount uncompressed m = m.uncompressed_bytes

abbrev pub held_by : Counter → Option PartitionAccumulator → ℕ
held_by k none = 0
held_by k (some acc) = held k acc

abbrev pub count_of : Counter → ℤ → BandwidthCollector → ℕ
count_of k p c = held_by k (lookup p c.partitions)

-- What a list of partition bandwidths reports of one partition.
abbrev pub reported_of : Counter → ℤ → List PartitionBandwidth → ℕ
reported_of k p [] = 0
reported_of k p (b ∷ bs) =
    let rest = reported_of k p bs in if b.id == p then sent k b + rest else rest

abbrev pub reported : Counter → ℤ → Option BandwidthMetrics → ℕ
reported k p none = 0
reported k p (some packet) = reported_of k p packet.partitions

held-accumulate :
    (k : Counter) (meta : BrokerMetadata) (m : FetchBatchMetrics) (acc : PartitionAccumulator)
    → held k (accumulate meta m acc) % int64_mod ≡ (held k acc + amount k m) % int64_mod
unfolding accumulate
held-accumulate k meta m acc = ground arith

pub count_of-record_fetch_batch :
    (k : Counter) (p : ℤ) (meta : BrokerMetadata) (q : ℤ) (m : FetchBatchMetrics)
    (c : BandwidthCollector)
    → count_of k p (record_fetch_batch meta q m c) % int64_mod
      ≡ (count_of k p c + (if q == p then amount k m else 0)) % int64_mod
unfolding record_fetch_batch
count_of-record_fetch_batch k p meta q m c = ground (
  arith,
  beq_ℤ_iff q p,
  lookup-insert q p (accumulate meta m (get_or (lookup q c.partitions) new_accumulator))
      c.partitions,
  held-accumulate k meta m (get_or (lookup q c.partitions) new_accumulator),
)

pub lookup-reset_all :
    (p : ℤ) (m : Map ℤ PartitionAccumulator)
    → lookup p (reset_all m) ≡ elim (lookup p m) [ none ↦ none | some acc ↦ some (reset acc) ]
unfolding reset_all lookup
lookup-reset_all p [] = refl
lookup-reset_all p ((q, acc) ∷ m) = ground (arith, lookup-reset_all p m)

pub reset_all-IsMap : (m : Map ℤ PartitionAccumulator) → IsMap m → IsMap (reset_all m)
unfolding reset_all
reset_all-IsMap [] h = tt
reset_all-IsMap ((q, acc) ∷ m) h =
    (ground (arith, lookup-reset_all q m, h.0), reset_all-IsMap m h.1)

reported_of-absent :
    (k : Counter) (p : ℤ) (now : ℕ) (m : Map ℤ PartitionAccumulator)
    → lookup p m ≡ none
    → reported_of k p (snapshot now m) ≡ 0
unfolding lookup snapshot
reported_of-absent k p now [] h = refl
reported_of-absent k p now ((q, acc) ∷ m) h = ground (arith, reported_of-absent k p now m)

pub reported_of-snapshot :
    (k : Counter) (p : ℤ) (now : ℕ) (m : Map ℤ PartitionAccumulator)
    → IsMap m
    → reported_of k p (snapshot now m) ≡ held_by k (lookup p m)
unfolding lookup snapshot
reported_of-snapshot k p now [] h = refl
reported_of-snapshot k p now ((q, acc) ∷ m) h =
    ground
      (arith, beq_ℤ_iff q p, reported_of-snapshot k p now m h.1, reported_of-absent k p now m, h.0)

pub record_fetch_batch-IsMap :
    (meta : BrokerMetadata) (q : ℤ) (m : FetchBatchMetrics) (c : BandwidthCollector)
    → IsMap c.partitions
    → IsMap (record_fetch_batch meta q m c).partitions
unfolding record_fetch_batch
record_fetch_batch-IsMap meta q m c h =
    insert-IsMap q (accumulate meta m (get_or (lookup q c.partitions) new_accumulator)) c.partitions
      h
