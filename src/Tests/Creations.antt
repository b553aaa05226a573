-- ===== src/Tests/Creations.antt =====
-- Tests and instances for the creation of a client and a consumer.
use llingr_adapter_franz.Prelude.{
  ℕ, ◌*◌, ◌≢◌, arith, ◌≤◌, pos, text, Bool, true, false, if◌then◌else◌, none, [], ◌∷◌, ◌≡◌, ◌↔◌,
  refl,
}
use llingr_adapter_franz.Effects.{open_client, ping_broker, build_consumer, close_client}
use llingr_adapter_franz.Options.{second, default_adapter_options}
use llingr_adapter_franz.Procedure.{returned}
use llingr_adapter_franz.Effects.Counting.{how_often}
use llingr_adapter_franz.Validate.{unset, bool, int8, duration, ClientConfig, validate_client}
use llingr_adapter_franz.Creation.{
  KgoOpt, user, disable_auto_commit, block_rebalance_on_poll, Setup, World, built, build_panics,
  created, create_consumer, client_opts,
}
use llingr_adapter_franz.Creation.Cleanup.{is_open, is_shut, is_created, create_consumer-closes}
use llingr_adapter_franz.Creation.Outcomes.{
  is_connected, can_bail, create_consumer-created, create_consumer-again,
}
use llingr_adapter_franz.Creation.Required.{configure, KeepsRequired, client_opts-validated}

abbrev quiet_client : ClientConfig
quiet_client = record {
  disable_auto_commit = bool true;
  block_rebalance_on_poll = bool true;
  balancers = unset;
  fetch_isolation_level = int8 (pos 1);
  session_timeout = duration (pos (25 * second));
  rebalance_timeout = unset;
}

abbrev pub grouped : Setup ℕ
grouped = record {
  has_client = false;
  has_close = false;
  has_consumer = false;
  has_logger = false;
  has_client_log = false;
  client_log_attached = false;
  topic_name = [];
  group_id = text "g";
  brokers = text "b1:9092" ∷ [];
  user_opts = 7 ∷ [];
  opts = default_adapter_options;
  has_collector = true;
}

abbrev pub fine_world : World
fine_world = record {
  new_client = none;
  ping = none;
  config = quiet_client;
  build = built true true;
}

-- The builder panics.
abbrev broken_world : World
broken_world = record fine_world { build = build_panics }

broken_build :
    (create_consumer broken_world (text "orders") grouped).1
    ≡ open_client ∷ ping_broker ∷ build_consumer ∷ close_client ∷ []
unfolding create_consumer validate_client
broken_build = refl

create_consumer-closes_example :
    let effects = (create_consumer broken_world (text "orders") grouped).1 in
    let outcome = (create_consumer broken_world (text "orders") grouped).2 in
    (how_often is_open effects ≤ 1)
    × (how_often is_shut effects ≡ (if is_created outcome then 0 else how_often is_open effects))
    × (false ≡ true → how_often is_shut effects ≡ 0)
create_consumer-closes_example = create_consumer-closes broken_world (text "orders") grouped refl

create_consumer-created_example :
    let a' = (create_consumer fine_world (text "orders") grouped).0 in
    let outcome = (create_consumer fine_world (text "orders") grouped).2 in
    ((outcome ≡ created) ↔ (
      (is_connected fine_world grouped ≡ true)
      × (bool true ≡ bool true)
      × (bool true ≡ bool true)
      × (can_bail (built true true) ≡ true)))
    × (a'.has_consumer ≡ (if is_created outcome then true else false))
create_consumer-created_example = create_consumer-created fine_world (text "orders") grouped

broken_is_not_created : (create_consumer broken_world (text "orders") grouped).2 ≢ created
unfolding create_consumer validate_client
broken_is_not_created = ground arith

create_consumer-again_example :
    let failed = (create_consumer broken_world (text "orders") grouped).0 in
    let effects = (create_consumer broken_world (text "orders") grouped).1 in
    let effects' = (create_consumer fine_world (text "orders") failed).1 in
    let outcome' = (create_consumer fine_world (text "orders") failed).2 in
    (how_often is_open effects ≡ 1)
    × (how_often is_shut effects ≡ 1)
    × (how_often is_open effects' ≡ 0)
    × (outcome' ≡ created)
create_consumer-again_example =
    create_consumer-again broken_world fine_world (text "orders") grouped refl refl refl refl refl
      broken_is_not_created refl refl refl

-- A configuration is the two switches; every option of the user turns both off.
abbrev apply_opt : KgoOpt ℕ → Bool × Bool → Bool × Bool
apply_opt disable_auto_commit (commit, poll) = (true, poll)
apply_opt block_rebalance_on_poll (commit, poll) = (commit, true)
apply_opt (user _) _ = (false, false)
apply_opt _ c = c

abbrev report_switches : Bool × Bool → ClientConfig
report_switches (commit, poll) = record quiet_client {
  disable_auto_commit = bool commit;
  block_rebalance_on_poll = bool poll;
}

switches-KeepsRequired : KeepsRequired apply_opt report_switches
switches-KeepsRequired = record {
  sets_commit = λ (commit, poll). refl;
  sets_poll = λ (commit, poll). refl;
  keeps_commit = λ o c h. ground arith;
  keeps_poll = λ o c h. ground arith;
}

client_opts-validated_example :
    (validate_client (report_switches (configure apply_opt (client_opts grouped) (false, false)))).1
    ≡ returned
client_opts-validated_example =
    client_opts-validated apply_opt report_switches switches-KeepsRequired grouped (false, false)
