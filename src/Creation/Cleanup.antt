-- ===== src/Creation/Cleanup.antt =====
-- franzadapter/adapter.go, CreateConsumer: what becomes of the client on each path.
use llingr_adapter_franz.Prelude.{
  ◌≤◌, Bool, true, false, if◌then◌else◌, not, ◌&&◌, List, ◌≡◌, arith,
}
use llingr_adapter_franz.Effects.{Topic, Effect, open_client, stop_client, close_client}
use llingr_adapter_franz.Procedure.{Procedure, ◌⨟◌}
use llingr_adapter_franz.Effects.Counting.{how_often, how_often-append}
use llingr_adapter_franz.Validate.{
  ClientConfig, validate_client, OptValue, ensure_auto_commit_disabled,
  ensure_block_rebalance_on_poll, log_balancer_protocol, warn_if_read_uncommitted,
  warn_if_session_timeout_too_low, warn_if_rebalance_timeout_too_low,
}
use llingr_adapter_franz.Creation.{
  Setup, World, Outcome, created, create_consumer, validate_and_wire, open_and_wire, init_client,
  set_client, wire, close_if,
}

abbrev pub is_open : Effect → Bool
is_open open_client = true
is_open _ = false

-- client.Close and closeFn.
abbrev pub is_shut : Effect → Bool
is_shut stop_client = true
is_shut close_client = true
is_shut _ = false

abbrev pub is_created : Outcome → Bool
is_created created = true
is_created _ = false

-- Nothing is opened and nothing closed.
abbrev Harmless : List Effect → Type 0
Harmless effects = (how_often is_open effects ≡ 0) × (how_often is_shut effects ≡ 0)

seq-Harmless : (p q : Procedure) → Harmless p.0 → Harmless q.0 → Harmless (p ⨟ q).0
seq-Harmless p q h k =
    ground (arith, how_often-append is_open p.0 q.0, how_often-append is_shut p.0 q.0)

commit-Harmless : (v : OptValue) → Harmless (ensure_auto_commit_disabled v).0
unfolding ensure_auto_commit_disabled
commit-Harmless v = ground arith

poll-Harmless : (v : OptValue) → Harmless (ensure_block_rebalance_on_poll v).0
unfolding ensure_block_rebalance_on_poll
poll-Harmless v = ground arith

balancer-Harmless : (v : OptValue) → Harmless (log_balancer_protocol v).0
unfolding log_balancer_protocol
balancer-Harmless v = ground arith

isolation-Harmless : (v : OptValue) → Harmless (warn_if_read_uncommitted v).0
unfolding warn_if_read_uncommitted
isolation-Harmless v = ground arith

session-Harmless : (v : OptValue) → Harmless (warn_if_session_timeout_too_low v).0
unfolding warn_if_session_timeout_too_low
session-Harmless v = ground arith

rebalance-Harmless : (v : OptValue) → Harmless (warn_if_rebalance_timeout_too_low v).0
unfolding warn_if_rebalance_timeout_too_low
rebalance-Harmless v = ground arith

validate_client-Harmless : (c : ClientConfig) → Harmless (validate_client c).0
unfolding validate_client
validate_client-Harmless c =
    seq-Harmless (ensure_auto_commit_disabled c.disable_auto_commit) _
      (commit-Harmless c.disable_auto_commit)
      (seq-Harmless (ensure_block_rebalance_on_poll c.block_rebalance_on_poll) _
        (poll-Harmless c.block_rebalance_on_poll)
        (seq-Harmless (log_balancer_protocol c.balancers) _ (balancer-Harmless c.balancers) (
          seq-Harmless (warn_if_read_uncommitted c.fetch_isolation_level) _
            (isolation-Harmless c.fetch_isolation_level)
            (seq-Harmless (warn_if_session_timeout_too_low c.session_timeout) _
              (session-Harmless c.session_timeout) (rebalance-Harmless c.rebalance_timeout)))))

module _ {ℓ} {U : Type ℓ} where
  pub wire_closes :
      (w : World) (created_here : Bool) (a : Setup U)
      → a.has_close ≡ true
      → let (a', effects, outcome) = validate_and_wire w created_here a in
        (how_often is_open effects ≡ 0)
        × (how_often is_shut effects ≡ (if created_here && not (is_created outcome) then 1 else 0))
        × (a'.has_client ≡ a.has_client)
  unfolding validate_and_wire wire close_if
  wire_closes w created_here a h =
      let notices = (validate_client w.config).0 in
      ground (
        arith,
        validate_client-Harmless w.config,
        how_often-append is_shut notices (wire created_here a w.build).1,
        how_often-append is_open notices (wire created_here a w.build).1,
        how_often-append is_shut notices (close_if created_here a),
        how_often-append is_open notices (close_if created_here a),
      )

  -- Whatever NewClient, the ping, the validation and the builder do: CreateConsumer opens at most
  -- one client, and where it does not return a consumer (an error or a panic) it has closed as many
  -- clients as it opened; where it returns one it has closed none, and a client that was there
  -- before is never closed.
  pub create_consumer-closes :
      (w : World) (topic : Topic) (a : Setup U)
      → a.has_client ≡ a.has_close
      → let (_, effects, outcome) = create_consumer w topic a in
        (how_often is_open effects ≤ 1)
        × (how_often is_shut effects
            ≡ (if is_created outcome then 0 else how_often is_open effects))
        × (a.has_client ≡ true → how_often is_shut effects ≡ 0)
  unfolding create_consumer open_and_wire init_client set_client
  create_consumer-closes w topic a h =
      let fresh = record a { topic_name = topic } in
      let opened = (init_client w fresh).0 in
      ground (arith, wire_closes w false fresh, wire_closes w true opened)
