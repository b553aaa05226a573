-- ===== src/Creation.antt =====
-- franzadapter/adapter.go: the constructors, the options of the client, initClient, SetClient and
-- CreateConsumer, with the errors and the panics that end them. What an option of the user is, is left
-- open; what the client, the broker and the builder answer is a World.
use llingr_adapter_franz.Prelude.{
  ℤ, Bool, true, false, if◌then◌else◌, not, ◌&&◌, ◌||◌, GoString, text, Option, none, some, List,
  [], ◌∷◌, ◌++◌,
}
use llingr_adapter_franz.Foreign.{GoError, wrapped, LogLevel}
use llingr_adapter_franz.Effects.{
  Topic, Effect, close_client, open_client, ping_broker, stop_client, build_consumer,
}
use llingr_adapter_franz.Fetch.{is_empty_text}
use llingr_adapter_franz.Options.{
  AdapterOptions, AdapterOption, default_adapter_options, process_adapter_options,
}
use llingr_adapter_franz.Procedure.{Procedure, Ending, returned, panicked}
use llingr_adapter_franz.Validate.{ClientConfig, validate_client}
pub mod Required
pub mod Cleanup
pub mod Outcomes

-- The options that the adapter passes to kgo.NewClient; `user` are the caller's.
pub data KgoOpt {ℓ} (U : Type ℓ) : Type ℓ where
  seed_brokers : List GoString → KgoOpt U
  consumer_group : GoString → KgoOpt U
  consume_topics : Topic → KgoOpt U
  cooperative_sticky : KgoOpt U
  with_logger : LogLevel → KgoOpt U  -- the log bridge
  user : U → KgoOpt U
  disable_auto_commit block_rebalance_on_poll : KgoOpt U
  on_partitions_assigned on_partitions_revoked on_partitions_lost : KgoOpt U
  with_hooks : KgoOpt U

-- What the adapter holds before and after CreateConsumer.
pub record Setup {ℓ} (U : Type ℓ) : Type ℓ where
  pub has_client : Bool
  pub has_close : Bool  -- closeFn, set with the other function fields
  pub has_consumer : Bool  -- adaptedConsumer
  pub has_logger : Bool
  pub has_client_log : Bool
  pub client_log_attached : Bool
  pub topic_name : Topic
  pub group_id : GoString
  pub brokers : List GoString
  pub user_opts : List U
  pub opts : AdapterOptions
  pub has_collector : Bool

pub data CreationError : Type 0 where
  create_failed : GoError → CreationError  -- "failed to create kgo client: %w"
  connect_failed : GoError → CreationError  -- "failed to connect to broker: %w"
  no_client_configured : CreationError
  no_emergency_shutdowner : CreationError

pub data Outcome : Type 0 where
  created : Outcome
  refused : CreationError → Outcome
  panics : Outcome

-- What builder.Build does: panic, or return a consumer.
pub data Build : Type 0 where
  build_panics : Build
  built : (has_shutdowner has_logger : Bool) → Build

pub record World : Type 0 where
  pub new_client : Option GoError  -- kgo.NewClient
  pub ping : Option GoError
  pub config : ClientConfig  -- what the client reports of its options
  pub build : Build

module _ {ℓ} {U : Type ℓ} where
  unfoldable pub new_custom : Setup U
  unfolding default_adapter_options
  new_custom = record {
    has_client = false;
    has_close = false;
    has_consumer = false;
    has_logger = false;
    has_client_log = false;
    client_log_attached = false;
    topic_name = [];
    group_id = [];
    brokers = [];
    user_opts = [];
    opts = default_adapter_options;
    has_collector = false;
  }

  -- `none` for the panic on an empty group.
  unfoldable pub new_with_options : GoString → List GoString → List U → Option (Setup U)
  unfolding new_custom
  new_with_options group_id brokers opts =
      if is_empty_text group_id
      then none
      else some (record new_custom { group_id = group_id; brokers = brokers; user_opts = opts })

  unfoldable pub with_options : List AdapterOption → Setup U → Setup U
  with_options options a = record a { opts = process_adapter_options options }

  unfoldable pub set_client : Setup U → Setup U
  set_client a = record a { has_client = true; has_close = true }

  unfoldable pub required_opts : List (KgoOpt U)
  required_opts =
      disable_auto_commit ∷ block_rebalance_on_poll ∷ on_partitions_assigned ∷ on_partitions_revoked
      ∷ on_partitions_lost ∷ []

  abbrev pub users : List U → List (KgoOpt U)
  users [] = []
  users (u ∷ us) = user u ∷ users us

  -- clientOpts of initClient.
  unfoldable pub client_opts : Setup U → List (KgoOpt U)
  unfolding required_opts
  client_opts a =
      seed_brokers a.brokers
      ∷ consumer_group a.group_id
      ∷ consume_topics a.topic_name
      ∷ cooperative_sticky
      ∷ with_logger a.opts.client_log_level
      ∷ (users a.user_opts ++ (required_opts ++ (if a.has_collector then with_hooks ∷ [] else [])))

  unfoldable pub init_client : World → Setup U → Setup U × List Effect × Option CreationError
  unfolding set_client
  init_client w a =
      let bridged = record a { has_client_log = true; client_log_attached = false } in
      elim w.new_client [
        | some err ↦ (bridged, [], some (create_failed err))
        | none ↦ elim w.ping [
          | some err ↦
              (bridged, open_client ∷ ping_broker ∷ stop_client ∷ [], some (connect_failed err))
          | none ↦ (set_client bridged, open_client ∷ ping_broker ∷ [], none)
        ]
      ]

  -- closeOnPanic, where this call opened the client; a second panic is swallowed.
  unfoldable pub close_if : Bool → Setup U → List Effect
  close_if created_here a = if created_here && a.has_close then close_client ∷ [] else []

  -- The part behind builder.Build.
  unfoldable pub wire : Bool → Setup U → Build → Setup U × List Effect × Outcome
  unfolding close_if
  wire created_here a build_panics = (a, build_consumer ∷ close_if created_here a, panics)
  wire created_here a (built false has_logger) =
      (a, build_consumer ∷ close_if created_here a, refused no_emergency_shutdowner)
  wire created_here a (built true has_logger) = (
    record a {
      has_consumer = true;
      has_logger = has_logger;
      client_log_attached = a.client_log_attached || a.has_client_log && has_logger;
    },
    build_consumer ∷ [],
    created,
  )

  -- The part behind the creation of the client.
  unfoldable pub validate_and_wire : World → Bool → Setup U → Setup U × List Effect × Outcome
  unfolding wire
  validate_and_wire w created_here a =
      let (notices, ending) = validate_client w.config in
      let (a', effects, outcome) = wire created_here a w.build in
      elim ending [
        | panicked ↦ (a, notices ++ close_if created_here a, panics)
        | returned ↦ (a', notices ++ effects, outcome)
      ]

  -- The branch that creates the client first.
  unfoldable pub open_and_wire : World → Setup U → Setup U × List Effect × Outcome
  unfolding init_client validate_and_wire
  open_and_wire w a =
      let (opened, effects, failure) = init_client w a in
      let (wired, later, outcome) = validate_and_wire w true opened in
      elim failure [
        | some err ↦ (opened, effects, refused err)
        | none ↦ (wired, effects ++ later, outcome)
      ]

  unfoldable pub create_consumer : World → Topic → Setup U → Setup U × List Effect × Outcome
  unfolding open_and_wire validate_and_wire
  create_consumer w topic before =
      let a = record before { topic_name = topic } in
      if not a.has_client && not (is_empty_text a.group_id)
      then open_and_wire w a
      else if a.has_client
      then validate_and_wire w false a
      else (a, [], refused no_client_configured)
