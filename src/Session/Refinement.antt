-- ===== src/Session/Refinement.antt =====
-- franzadapter/broker_port.go: the session implements the gate protocol, so that what holds of every
-- interleaving there holds of the adapter.
use llingr_adapter_franz.Prelude.{Bool, true, false, Option, none, some, List, ◌≡◌}
use llingr_adapter_franz.Foreign.{Record}
use llingr_adapter_franz.Effects.{Effect, cancel_fetch}
use llingr_adapter_franz.Fetch.{FetchConfig, fetch_next}
use llingr_adapter_franz.Gate
use llingr_adapter_franz.Gate.{System, fetching, after_signal}
use llingr_adapter_franz.Gate.Progress.{Steps, here, next}
use llingr_adapter_franz.Session.{
  Session, after_fetch, fetch_step, release_step, unsubscribe_step, Step, polling, allow,
  allow_on_exit, shared, unsubscribing, releasing, Reach, began, later, subscribed,
}

after_fetch-Steps :
    (r : Option Record) (exit : Bool) (g : System)
    → g.loop ≡ fetching
    → Steps g (after_fetch r exit g)
unfolding after_fetch
after_fetch-Steps r true g e = next (Gate.fetch_exit e) here
after_fetch-Steps none false g e = here
after_fetch-Steps (some r) false g e = next (Gate.fetch_record r e) here

release_step-Steps :
    (e : Effect) (rest : List Effect) (s : Session) → Steps s.gate (release_step e rest s).gate
unfolding release_step
release_step-Steps cancel_fetch rest s = next Gate.cancel here
release_step-Steps _ rest s = here

Step-Steps : {c : FetchConfig} {s t : Session} → Step c s t → Steps s.gate t.gate
unfolding fetch_step unsubscribe_step
Step-Steps {c} {s} (polling now fetches e) =
    let (_, _, r, exit) = fetch_next c now s.gate.cancelled fetches s.fetch in
    after_fetch-Steps r exit s.gate e
Step-Steps (allow e) = next (Gate.allow e) here
Step-Steps (allow_on_exit e) = next (Gate.allow_on_exit e) here
Step-Steps (shared st h) = next st here
Step-Steps (unsubscribing env h) = here
Step-Steps {s = s} (releasing e rest t h) = release_step-Steps e rest s

Steps-Reach : {g h : System} → Gate.Reach g → Steps g h → Gate.Reach h
Steps-Reach r here = r
Steps-Reach r (next st steps) = Steps-Reach (Gate.later r st) steps

-- The session refines the gate protocol: whatever the polls bring, whatever the engine, the broker and
-- Unsubscribe do, and however they interleave, the fetch loop and Poll are in a state that the
-- protocol reaches.
pub Reach-gate : {c : FetchConfig} {s : Session} → Reach c s → Gate.Reach s.gate
unfolding subscribed
Reach-gate (began rebalance fetch lifecycle started fresh) = Gate.started rebalance
Reach-gate (later r st) = Steps-Reach (Reach-gate r) (Step-Steps st)
