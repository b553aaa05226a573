-- ===== src/Effects.antt =====
-- What the adapter does to the world outside it, in the order in which it does it: calls of the
-- engine (nexus), of the client (franz-go) and lines handed to the logger.
use llingr_adapter_franz.Prelude.{Bool, ℕ, ℤ, GoString, List, Map}
use llingr_adapter_franz.Foreign.{GoError, Record, Reason}
pub mod Counting

abbrev pub Topic : Type 0
Topic = GoString

-- map[string][]int32
abbrev pub PartitionMap : Type 0
PartitionMap = Map Topic (List ℤ)

-- nexus.RebalanceType
pub data RebalanceType : Type 0 where
  assign revoke : RebalanceType

-- nexus.RebalanceInfo
pub record RebalanceInfo : Type 0 where
  pub rebalance_type : RebalanceType
  pub topic_name : Topic
  pub partition : ℤ
  pub committed_offset : ℤ

pub data Severity : Type 0 where
  debug info warn error : Severity

-- currentSessionTimeoutDescription: the duration that the client reports, or why there is none.
pub data SessionTimeout : Type 0 where
  client_not_initialised timeout_unknown : SessionTimeout
  timeout_set : ℤ → SessionTimeout

-- One constructor for each line of the source that logs, with what it formats.
pub data LogLine : Type 0 where
  subscribed : Topic → LogLine
  fetch_loop_stopped fetch_loop_did_not_stop : LogLine
  left_group leave_in_flight : LogLine
  leave_failed : GoError → LogLine
  closing_client client_closed : LogLine
  poll_error : (topic : Topic) (partition streak : ℤ) (err : GoError) → LogLine
  stopping_consumer : (reason : Reason) → LogLine
  no_emergency_shutdown : LogLine
  foreign_topic : (reason : Reason) → LogLine
  revoke_failed : GoError → LogLine
  partitions_assigned partitions_revoked : PartitionMap → LogLine
  lookup_failed : GoError → LogLine
  commit_failed : GoError → LogLine
  membership_lost : (session_timeout : SessionTimeout) → LogLine
  committed : (count : ℕ) → LogLine

-- A line of the standard `log` package, which the validation and the balancers print to.
pub data Notice : Type 0 where
  using_balancer : (name : GoString) (cooperative : Bool) → Notice
  using_fallback : (name : GoString) (cooperative : Bool) (skipped : GoString) → Notice
  isolation_defaults isolation_uncommitted : Notice
  session_timeout_low rebalance_timeout_low : (timeout : ℤ) → Notice

pub data Effect : Type 0 where
  log : Severity → LogLine → Effect
  trigger_rebalance : RebalanceType → List RebalanceInfo → Effect
  fetch_committed : List Topic → Effect
  poll_records allow_rebalance signal_dispatched : Effect
  commit_records : List Record → Effect
  start_fetch_loop : Effect
  wait_backoff : ℤ → Effect
  emergency_shutdown : Reason → Effect
  spawn_unsubscribe : Effect
  stop_bandwidth cancel_fetch await_fetch_loop leave_group close_client : Effect
  print : Notice → Effect
  open_client ping_broker stop_client build_consumer : Effect
