-- ===== src/Foreign.antt =====
-- What the adapter reads of the types of franz-go, nexus and Go's `error`: fields and observations
-- only, no behaviour. The calls themselves are parameters of the modules that make them.
use llingr_adapter_franz.Prelude.{ℤ, GoString, Bool, List}

-- kgo.Record, as far as the adapter reads it.
pub record Record : Type 0 where
  pub topic : GoString
  pub partition : ℤ  -- int32
  pub offset : ℤ  -- int64
  pub key : GoString  -- []byte

-- An `error` as its chain of `%w` wrappings: the adapter asks for a deadline or a Kafka error code
-- in the chain, and for the text.
pub data GoError : Type 0 where
  kafka : (code : ℤ) (message : GoString) → GoError  -- *kerr.Error
  deadline_exceeded : GoError  -- context.DeadlineExceeded
  message : GoString → GoError
  wrapped : (prefix : GoString) → GoError → GoError

-- The errors that the adapter makes to stop the consumer.
pub data Reason : Type 0 where
  failing : (topic : GoString) (partition : ℤ) (bail_after : ℤ) (err : GoError) → Reason  -- "partition %s[%d] failing to fetch for %s: %w"
  foreign : (got configured : GoString) → Reason  -- "record from topic %q on a consumer ..."

-- An entry that `Fetches.EachError` visits.
pub record FetchError : Type 0 where
  pub topic : GoString
  pub partition : ℤ  -- int32
  pub err : GoError

-- The observations that the adapter makes of one kgo.Fetches: `EachRecord`, `EachError`, `Err()`
-- against nil, and `IsClientClosed()`.
pub record Fetches : Type 0 where
  pub records : List Record
  pub errors : List FetchError
  pub has_err : Bool
  pub client_closed : Bool

pub data LogLevel : Type 0 where
  log_level_none log_level_error log_level_warn log_level_info log_level_debug : LogLevel
