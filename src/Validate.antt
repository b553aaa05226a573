-- ===== src/Validate.antt =====
-- franzadapter/validate/client.go: what Client panics on and what it prints, from the values that the
-- client reports of its options.
use llingr_adapter_franz.Prelude.{
  ℤ, pos, ltb_ℤ, ◌*◌, Bool, true, false, List, [], ◌∷◌, GoString, ◌==◌, int_eq,
}
use llingr_adapter_franz.Effects.{
  Notice, using_balancer, isolation_defaults, isolation_uncommitted, session_timeout_low,
  rebalance_timeout_low, print,
}
use llingr_adapter_franz.Options.{second}
use llingr_adapter_franz.Procedure.{Procedure, ◌⨟◌, skip, perform, panic, when}
pub mod Startup

-- What the adapter reads of a kgo.GroupBalancer here.
pub record BalancerInfo : Type 0 where
  pub protocol_name : GoString
  pub is_cooperative : Bool

-- What Client.OptValue returns: an `any`, by the dynamic types that the code asks for.
pub data OptValue : Type 0 where
  unset : OptValue  -- nil
  bool : Bool → OptValue
  int8 : ℤ → OptValue
  duration : ℤ → OptValue
  group_balancers : List BalancerInfo → OptValue
  other : OptValue

-- The client, as its answers to OptValue.
pub record ClientConfig : Type 0 where
  pub disable_auto_commit : OptValue
  pub block_rebalance_on_poll : OptValue
  pub balancers : OptValue
  pub fetch_isolation_level : OptValue
  pub session_timeout : OptValue
  pub rebalance_timeout : OptValue

unfoldable pub ensure_auto_commit_disabled : OptValue → Procedure
ensure_auto_commit_disabled (bool true) = skip
ensure_auto_commit_disabled _ = panic

unfoldable pub ensure_block_rebalance_on_poll : OptValue → Procedure
ensure_block_rebalance_on_poll (bool true) = skip
ensure_block_rebalance_on_poll _ = panic

unfoldable pub log_balancer_protocol : OptValue → Procedure
log_balancer_protocol (group_balancers (primary ∷ [])) =
    perform (print (using_balancer primary.protocol_name primary.is_cooperative))
log_balancer_protocol _ = skip

unfoldable pub warn_if_read_uncommitted : OptValue → Procedure
warn_if_read_uncommitted unset = perform (print isolation_defaults)
warn_if_read_uncommitted (int8 level) =
    when (level == pos 0) (perform (print isolation_uncommitted))
warn_if_read_uncommitted _ = skip

abbrev pub min_session_timeout : ℤ
min_session_timeout = pos (25 * second)

unfoldable pub warn_if_session_timeout_too_low : OptValue → Procedure
warn_if_session_timeout_too_low (duration timeout) =
    when (ltb_ℤ timeout min_session_timeout) (perform (print (session_timeout_low timeout)))
warn_if_session_timeout_too_low _ = skip

abbrev pub min_rebalance_timeout : ℤ
min_rebalance_timeout = pos (30 * second)

unfoldable pub warn_if_rebalance_timeout_too_low : OptValue → Procedure
warn_if_rebalance_timeout_too_low (duration timeout) =
    when (ltb_ℤ timeout min_rebalance_timeout) (perform (print (rebalance_timeout_low timeout)))
warn_if_rebalance_timeout_too_low _ = skip

-- validate.Client
unfoldable pub validate_client : ClientConfig → Procedure
unfolding ensure_auto_commit_disabled ensure_block_rebalance_on_poll log_balancer_protocol
    warn_if_read_uncommitted warn_if_session_timeout_too_low warn_if_rebalance_timeout_too_low
validate_client c =
    ensure_auto_commit_disabled c.disable_auto_commit
    ⨟ ensure_block_rebalance_on_poll c.block_rebalance_on_poll
    ⨟ log_balancer_protocol c.balancers
    ⨟ warn_if_read_uncommitted c.fetch_isolation_level
    ⨟ warn_if_session_timeout_too_low c.session_timeout
    ⨟ warn_if_rebalance_timeout_too_low c.rebalance_timeout
