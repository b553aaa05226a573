-- ===== src/Validate/Startup.antt =====
-- franzadapter/validate/client.go: which clients are let through, and which of them without a word.
use llingr_adapter_franz.Prelude.{ℤ, pos, ◌≤ℤ◌, true, [], ◌∷◌, ◌≡◌, ◌≢◌, ◌↔◌, arith}
use llingr_adapter_franz.Procedure.{Procedure, returned, panicked, ◌⨟◌, skip}
use llingr_adapter_franz.Validate.{
  OptValue, bool, int8, unset, duration, group_balancers, ClientConfig, validate_client,
  min_session_timeout, min_rebalance_timeout, ensure_auto_commit_disabled,
  ensure_block_rebalance_on_poll, log_balancer_protocol, warn_if_read_uncommitted,
  warn_if_session_timeout_too_low, warn_if_rebalance_timeout_too_low,
}

-- The timeout is left at its default or at least as long as recommended.
abbrev pub IsLong : ℤ → OptValue → Type 0
IsLong least (duration t) = least ≤ℤ t
IsLong least _ = Unit {0}

-- The isolation level is set, and not to ReadUncommitted.
abbrev pub IsIsolated : OptValue → Type 0
IsIsolated unset = ⊥
IsIsolated (int8 level) = level ≢ pos 0
IsIsolated _ = Unit {0}

-- Not one balancer alone.
abbrev pub IsNegotiated : OptValue → Type 0
IsNegotiated (group_balancers (b ∷ [])) = ⊥
IsNegotiated _ = Unit {0}

seq-returned : (p q : Procedure) → ((p ⨟ q).1 ≡ returned) ↔ ((p.1 ≡ returned) × (q.1 ≡ returned))
seq-returned p q = ground arith

seq-skip : (p q : Procedure) → (p ⨟ q ≡ skip) ↔ ((p ≡ skip) × (q ≡ skip))
seq-skip ([], returned) (ys, d) = ground arith
seq-skip (x ∷ xs, returned) (ys, d) = ground arith
seq-skip (xs, panicked) (ys, d) = ground arith

auto_commit_cases :
    (v : OptValue) → ((ensure_auto_commit_disabled v).1 ≡ returned) ↔ (v ≡ bool true)
unfolding ensure_auto_commit_disabled
auto_commit_cases v = ground arith

session_cases :
    (v : OptValue) → (warn_if_session_timeout_too_low v ≡ skip) ↔ IsLong min_session_timeout v
unfolding warn_if_session_timeout_too_low
session_cases v = ground arith

isolation_cases : (v : OptValue) → (warn_if_read_uncommitted v ≡ skip) ↔ IsIsolated v
unfolding warn_if_read_uncommitted
isolation_cases v = ground arith

balancer_cases : (v : OptValue) → (log_balancer_protocol v ≡ skip) ↔ IsNegotiated v
unfolding log_balancer_protocol
balancer_cases v = ground arith

rebalance_cases :
    (v : OptValue) → (warn_if_rebalance_timeout_too_low v ≡ skip) ↔ IsLong min_rebalance_timeout v
unfolding warn_if_rebalance_timeout_too_low
rebalance_cases v = ground arith

poll_cases : (v : OptValue) → (ensure_block_rebalance_on_poll v ≡ skip) ↔ (v ≡ bool true)
unfolding ensure_block_rebalance_on_poll
poll_cases v = ground arith

commit_cases : (v : OptValue) → (ensure_auto_commit_disabled v ≡ skip) ↔ (v ≡ bool true)
unfolding ensure_auto_commit_disabled
commit_cases v = ground arith

warnings-returned :
    (v w x y : OptValue)
    → (log_balancer_protocol v
        ⨟ warn_if_read_uncommitted w
        ⨟ warn_if_session_timeout_too_low x
        ⨟ warn_if_rebalance_timeout_too_low y).1
      ≡ returned
unfolding log_balancer_protocol warn_if_read_uncommitted warn_if_session_timeout_too_low
    warn_if_rebalance_timeout_too_low
warnings-returned v w x y = ground arith

-- validate.Client returns exactly for a client that reports `true` both for DisableAutoCommit and for
-- BlockRebalanceOnPoll; for every other one, also where an option is not set or has another type, it
-- panics and has printed nothing.
pub validate_client-returned :
    (c : ClientConfig)
    → (((validate_client c).1 ≡ returned)
        ↔ ((c.disable_auto_commit ≡ bool true) × (c.block_rebalance_on_poll ≡ bool true)))
      × ((validate_client c).1 ≡ panicked → (validate_client c).0 ≡ [])
unfolding validate_client ensure_auto_commit_disabled ensure_block_rebalance_on_poll
validate_client-returned c = ground (
  arith,
  warnings-returned c.balancers c.fetch_isolation_level c.session_timeout c.rebalance_timeout,
)

-- validate.Client returns without printing a line exactly for a client with both required options
-- that has not one balancer alone, whose isolation level is set and not ReadUncommitted, and whose
-- session timeout is unset or at least 25 s and rebalance timeout unset or at least 30 s.
pub validate_client-skip :
    (c : ClientConfig)
    → (validate_client c ≡ skip) ↔ (
        (c.disable_auto_commit ≡ bool true)
        × (c.block_rebalance_on_poll ≡ bool true)
        × IsNegotiated c.balancers
        × IsIsolated c.fetch_isolation_level
        × IsLong min_session_timeout c.session_timeout
        × IsLong min_rebalance_timeout c.rebalance_timeout)
unfolding validate_client
validate_client-skip c = ground (
  arith,
  commit_cases c.disable_auto_commit,
  poll_cases c.block_rebalance_on_poll,
  balancer_cases c.balancers,
  isolation_cases c.fetch_isolation_level,
  session_cases c.session_timeout,
  rebalance_cases c.rebalance_timeout,
  seq-skip (ensure_auto_commit_disabled c.disable_auto_commit) _,
  seq-skip (ensure_block_rebalance_on_poll c.block_rebalance_on_poll) _,
  seq-skip (log_balancer_protocol c.balancers) _,
  seq-skip (warn_if_read_uncommitted c.fetch_isolation_level) _,
  seq-skip (warn_if_session_timeout_too_low c.session_timeout)
      (warn_if_rebalance_timeout_too_low c.rebalance_timeout),
)
