-- ===== src/Bandwidth.antt =====
-- franzadapter/bandwidth.go: the per-partition byte counters, the broker table and the packets. An
-- `int64` counter is its bit pattern below 2^64, and a sum wraps.
use llingr_adapter_franz.Prelude.{
  ℕ, zero, suc, ◌+◌, ◌%◌, ◌^◌, ltb, leb_ℤ, beq_ℤ, ℤ, pos, GoString, text, int_eq, Bool, true, false,
  ◌||◌, not, is_some, if◌then◌else◌, Option, none, some, get_or, List, [], ◌∷◌, ◌++◌, Map, lookup,
  insert,
}
use llingr_adapter_franz.Decimal.{itoa}
pub mod Totals
pub mod Conservation
pub mod Brokers
pub mod Uuid
pub mod Port

abbrev pub int64_mod : ℕ
int64_mod = 2 ^ 64

abbrev pub add64 : ℕ → ℕ → ℕ
add64 a b = (a + b) % int64_mod

-- compressionName over the table compressionNames; a code is a uint8.
unfoldable pub compression_name : ℕ → GoString
compression_name zero = text "none"
compression_name (suc zero) = text "gzip"
compression_name (suc (suc zero)) = text "snappy"
compression_name (suc (suc (suc zero))) = text "lz4"
compression_name (suc (suc (suc (suc zero)))) = text "zstd"
compression_name (suc (suc (suc (suc (suc n))))) =
    text "unknown(" ++ itoa (pos (suc (suc (suc (suc (suc n)))))) ++ text ")"

-- kgo.BrokerMetadata
pub record BrokerMetadata : Type 0 where
  pub node_id : ℤ  -- int32
  pub host : GoString
  pub port : ℤ  -- int32
  pub rack : Option GoString

-- nexus.BrokerInfo
pub record BrokerInfo : Type 0 where
  pub id : GoString
  pub host : GoString
  pub port : GoString
  pub rack : GoString

-- kgo.FetchBatchMetrics; the counts are not negative.
pub record FetchBatchMetrics : Type 0 where
  pub num_records : ℕ
  pub uncompressed_bytes : ℕ
  pub compressed_bytes : ℕ
  pub compression_type : ℕ  -- uint8

pub record PartitionAccumulator : Type 0 where
  pub received_bytes : ℕ
  pub transmitted_bytes : ℕ
  pub received_message_count : ℕ
  pub compressed_bytes : ℕ
  pub uncompressed_bytes : ℕ
  pub compression : GoString
  pub leader : GoString

abbrev pub new_accumulator : PartitionAccumulator
new_accumulator = record {
  received_bytes = 0;
  transmitted_bytes = 0;
  received_message_count = 0;
  compressed_bytes = 0;
  uncompressed_bytes = 0;
  compression = [];
  leader = [];
}

-- bandwidthCollector, without the plumbing of its timer.
pub record BandwidthCollector : Type 0 where
  pub partitions : Map ℤ PartitionAccumulator
  pub brokers : Map ℤ BrokerInfo
  pub has_callback : Bool
  pub interval : ℤ
  pub group_id : GoString
  pub topic_name : GoString

unfoldable pub new_bandwidth_collector :
    (default_interval interval : ℤ) (group_id topic_name : GoString) → BandwidthCollector
new_bandwidth_collector default_interval interval group_id topic_name = record {
  partitions = [];
  brokers = [];
  has_callback = false;
  interval = if beq_ℤ interval (pos 0) then default_interval else interval;
  group_id = group_id;
  topic_name = topic_name;
}

unfoldable pub broker_info : BrokerMetadata → BrokerInfo
broker_info meta = record {
  id = itoa meta.node_id;
  host = meta.host;
  port = itoa meta.port;
  rack = get_or meta.rack [];
}

-- A broker with a negative id, a seed, is written once; any other whenever it is seen.
unfoldable pub update_broker : BrokerMetadata → Map ℤ BrokerInfo → Map ℤ BrokerInfo
unfolding broker_info
update_broker meta brokers =
    if not (is_some (lookup meta.node_id brokers)) || leb_ℤ (pos 0) meta.node_id
    then insert meta.node_id (broker_info meta) brokers
    else brokers

unfoldable pub accumulate :
    BrokerMetadata → FetchBatchMetrics → PartitionAccumulator → PartitionAccumulator
unfolding compression_name
accumulate meta m acc = record acc {
  leader = itoa meta.node_id;
  received_bytes = add64 acc.received_bytes m.uncompressed_bytes;
  received_message_count = add64 acc.received_message_count m.num_records;
  compressed_bytes = add64 acc.compressed_bytes m.compressed_bytes;
  uncompressed_bytes = add64 acc.uncompressed_bytes m.uncompressed_bytes;
  compression =
      if ltb 0 m.compression_type then compression_name m.compression_type else acc.compression;
}

unfoldable pub get_or_create_partition : BandwidthCollector → ℤ → PartitionAccumulator
get_or_create_partition c partition = get_or (lookup partition c.partitions) new_accumulator

-- The accumulator that getOrCreatePartition returns is shared, so it is written back.
unfoldable pub record_fetch_batch :
    BrokerMetadata → ℤ → FetchBatchMetrics → BandwidthCollector → BandwidthCollector
unfolding update_broker accumulate get_or_create_partition
record_fetch_batch meta partition m c = record c {
  brokers = update_broker meta c.brokers;
  partitions =
      insert partition (accumulate meta m (get_or_create_partition c partition)) c.partitions;
}

unfoldable pub record_broker_read : BrokerMetadata → BandwidthCollector → BandwidthCollector
unfolding update_broker
record_broker_read meta c = record c { brokers = update_broker meta c.brokers }

unfoldable pub record_broker_write : BrokerMetadata → BandwidthCollector → BandwidthCollector
unfolding update_broker
record_broker_write meta c = record c { brokers = update_broker meta c.brokers }

-- nexus.PartitionBandwidth
pub record PartitionBandwidth : Type 0 where
  pub ts : ℕ
  pub id : ℤ
  pub leader : GoString
  pub received_bytes : ℕ
  pub transmitted_bytes : ℕ
  pub received_message_count : ℕ
  pub compressed_bytes : ℕ
  pub uncompressed_bytes : ℕ
  pub compression : GoString

-- nexus.BandwidthMetrics
pub record BandwidthMetrics : Type 0 where
  pub ts : ℕ
  pub stats_interval_duration : ℤ
  pub bandwidth_metrics_id : GoString
  pub topic_name : GoString
  pub consumer_group : GoString
  pub brokers : List BrokerInfo
  pub partitions : List PartitionBandwidth

-- The loop of emit, in its two results: the snapshots, and the accumulators reset.
unfoldable pub snapshot : ℕ → Map ℤ PartitionAccumulator → List PartitionBandwidth
snapshot now [] = []
snapshot now ((id, acc) ∷ partitions) =
    record {
      ts = now;
      id = id;
      leader = acc.leader;
      received_bytes = acc.received_bytes;
      transmitted_bytes = acc.transmitted_bytes;
      received_message_count = acc.received_message_count;
      compressed_bytes = acc.compressed_bytes;
      uncompressed_bytes = acc.uncompressed_bytes;
      compression = acc.compression;
    }
    ∷ snapshot now partitions

unfoldable pub reset : PartitionAccumulator → PartitionAccumulator
reset acc = record acc {
  received_bytes = 0;
  transmitted_bytes = 0;
  received_message_count = 0;
  compressed_bytes = 0;
  uncompressed_bytes = 0;
}

unfoldable pub reset_all : Map ℤ PartitionAccumulator → Map ℤ PartitionAccumulator
unfolding reset
reset_all [] = []
reset_all ((id, acc) ∷ partitions) = (id, reset acc) ∷ reset_all partitions

unfoldable pub broker_list : Map ℤ BrokerInfo → List BrokerInfo
broker_list [] = []
broker_list ((_, b) ∷ brokers) = b ∷ broker_list brokers

-- emit: the packet that the callback gets, if there is a callback.
unfoldable pub emit :
    (now : ℕ) (uuid : GoString) → BandwidthCollector → BandwidthCollector × Option BandwidthMetrics
unfolding snapshot reset_all broker_list
emit now uuid c =
    if c.has_callback
    then (
      record c { partitions = reset_all c.partitions },
      some (record {
        ts = now;
        stats_interval_duration = c.interval;
        bandwidth_metrics_id = uuid;
        topic_name = c.topic_name;
        consumer_group = c.group_id;
        brokers = broker_list c.brokers;
        partitions = snapshot now c.partitions;
      }),
    )
    else (c, none)
