-- ===== src/Wired.antt =====
-- franzadapter/adapter.go and franzadapter/broker_port.go together: the adapter that CreateConsumer
-- leaves, as Subscribe, Unsubscribe and the fetch loop find it.
use llingr_adapter_franz.Prelude.{Bool, true, false, ◌≡◌}
use llingr_adapter_franz.Fetch.{FetchConfig}
use llingr_adapter_franz.Lifecycle.{Lifecycle}
use llingr_adapter_franz.Creation.{Setup, Build}
use llingr_adapter_franz.Creation.Outcomes.{can_bail}
pub mod Life
pub mod Bail
pub mod Hour
pub mod Session
pub mod Stop

module _ {ℓ} {U : Type ℓ} where
  -- The fields that SetClient and CreateConsumer have set; no sync.Once has run.
  unfoldable pub lifecycle_of : Setup U → Lifecycle
  lifecycle_of a = record {
    has_client = a.has_client;
    has_logger = a.has_logger;
    has_collector = a.has_collector;
    has_leave = a.has_client;
    has_close = a.has_close;
    topic_name = a.topic_name;
    fetch_started = false;
    released = false;
  }

  -- adaptedConsumer is what Build has returned. FetchConfig is that of an adapter that has a logger, so
  -- that one is asked for here.
  unfoldable pub fetch_config_of :
      (consumer : Build) (a : Setup U) → a.has_logger ≡ true → FetchConfig
  fetch_config_of consumer a logs = record {
    topic_name = a.topic_name;
    opts = a.opts;
    has_shutdowner = can_bail consumer;
  }
