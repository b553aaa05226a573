-- ===== src/Lifecycle/Release.antt =====
-- franzadapter/broker_port.go, releaseBroker: which calls it makes, in which order, on every branch.
use llingr_adapter_franz.Prelude.{
  Bool, true, false, if◌then◌else◌, List, [], ◌∷◌, ◌≡◌, arith, ◌&&◌, ◌||◌, is_some, not,
}
use llingr_adapter_franz.Effects.{
  Effect, log, stop_bandwidth, cancel_fetch, await_fetch_loop, leave_group, close_client,
}
use llingr_adapter_franz.Procedure.{returned, panicked, is_returned}
use llingr_adapter_franz.Lifecycle.{Lifecycle, Shutdown, release_broker}

-- The effects that are no log lines.
abbrev pub calls : List Effect → List Effect
calls [] = []
calls (log _ _ ∷ effects) = calls effects
calls (e ∷ effects) = e ∷ calls effects

abbrev pub only : Bool → Effect → List Effect → List Effect
only true e effects = e ∷ effects
only false e effects = effects

-- With a logger the release always returns and makes, in this order, the calls for what the adapter
-- has: stop the bandwidth telemetry, cancel the fetch loop and wait for it, leave the group, close
-- the client. A loop that does not stop in time and a leave that fails or is late change none of it.
pub release_calls :
    (env : Shutdown) (a : Lifecycle)
    → a.has_logger ≡ true
    → let (effects, ending) = release_broker env a in
      (ending ≡ returned)
      × (calls effects
          ≡ only a.has_collector stop_bandwidth (
              only a.fetch_started cancel_fetch (
                only a.fetch_started await_fetch_loop
                  (only a.has_leave leave_group (only a.has_close close_client [])))))
unfolding release_broker
release_calls env a h = ground arith

abbrev pub closes : List Effect → Bool
closes [] = false
closes (close_client ∷ effects) = true
closes (_ ∷ effects) = closes effects

-- With no logger the release panics exactly if the fetch loop was started and does not stop in time,
-- or LeaveGroup answers with an error: the lines that report these are not guarded by the test for nil
-- that guards the others. The client is closed exactly if there is one and the release returns.
pub release_without_logger :
    (env : Shutdown) (a : Lifecycle)
    → a.has_logger ≡ false
    → let (effects, ending) = release_broker env a in
      (ending ≡ (
        if a.fetch_started && not env.loop_stops || a.has_leave && is_some env.leave_error
        then panicked
        else returned))
      × (closes effects ≡ (a.has_close && is_returned ending))
unfolding release_broker
release_without_logger env a h = ground arith
