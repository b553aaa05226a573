-- ===== src/Session/Order.antt =====
-- franzadapter/broker_port.go, releaseBroker: the fetch loop is cancelled before it is waited for.
use llingr_adapter_franz.Prelude.{Bool, true, ◌&&◌, Option, List, [], ◌∷◌, ◌≡◌, refl, arith}
use llingr_adapter_franz.Foreign.{Record}
use llingr_adapter_franz.Effects.{Effect, cancel_fetch, await_fetch_loop}
use llingr_adapter_franz.Fetch.{FetchConfig, fetch_next}
use llingr_adapter_franz.Lifecycle.{Lifecycle, Shutdown, unsubscribe, release_broker}
use llingr_adapter_franz.Gate.{System}
use llingr_adapter_franz.Session.{
  Session, after_fetch, fetch_step, release_step, unsubscribe_step, Step, polling, allow,
  allow_on_exit, shared, unsubscribing, releasing, Reach, began, later, subscribed,
}
use llingr_adapter_franz.Session.Stops.{shared_runs_down}

-- The wait for the loop stands behind its cancellation; the flag tells that it is cancelled.
abbrev pub cancels_first : Bool → List Effect → Bool
cancels_first cancelled [] = true
cancels_first cancelled (cancel_fetch ∷ effects) = cancels_first true effects
cancels_first cancelled (await_fetch_loop ∷ effects) = cancelled && cancels_first cancelled effects
cancels_first cancelled (_ ∷ effects) = cancels_first cancelled effects

cancels_first_mono :
    (cancelled : Bool) (effects : List Effect)
    → cancels_first cancelled effects ≡ true
    → cancels_first true effects ≡ true
cancels_first_mono cancelled [] h = refl
cancels_first_mono cancelled (e ∷ effects) h = ground (arith, cancels_first_mono cancelled effects)

release_broker-cancels :
    (env : Shutdown) (a : Lifecycle) (cancelled : Bool)
    → cancels_first cancelled (release_broker env a).0 ≡ true
unfolding release_broker
release_broker-cancels env a cancelled = ground arith

abbrev pub IsOrdered : Session → Type 0
IsOrdered s = cancels_first s.gate.cancelled s.todo ≡ true

pub releasing-IsOrdered :
    (e : Effect) (rest : List Effect) (s : Session)
    → s.todo ≡ e ∷ rest
    → IsOrdered s
    → IsOrdered (release_step e rest s)
unfolding release_step
releasing-IsOrdered e rest s t h = ground arith

unsubscribing-IsOrdered : (env : Shutdown) (s : Session) → IsOrdered (unsubscribe_step env s)
unfolding unsubscribe_step unsubscribe
unsubscribing-IsOrdered env s =
    ground (arith, release_broker-cancels env s.lifecycle s.gate.cancelled)

after_fetch-cancelled :
    (r : Option Record) (exit : Bool) (g : System) → (after_fetch r exit g).cancelled ≡ g.cancelled
unfolding after_fetch
after_fetch-cancelled r exit g = ground arith

pub Step-IsOrdered : {c : FetchConfig} {s t : Session} → Step c s t → IsOrdered s → IsOrdered t
unfolding fetch_step
Step-IsOrdered {c} {s} (polling now fetches e) h =
    let (_, _, r, exit) = fetch_next c now s.gate.cancelled fetches s.fetch in
    rw (after_fetch-cancelled r exit s.gate) h
Step-IsOrdered (allow e) h = h
Step-IsOrdered (allow_on_exit e) h = h
Step-IsOrdered {s = s} (shared {g} st e) h =
    ground (arith, shared_runs_down st e, cancels_first_mono s.gate.cancelled s.todo)
Step-IsOrdered {s = s} (unsubscribing env e) h = unsubscribing-IsOrdered env s
Step-IsOrdered {s = s} (releasing e rest t m) h = releasing-IsOrdered e rest s t h

pub Reach-IsOrdered : {c : FetchConfig} {s : Session} → Reach c s → IsOrdered s
unfolding subscribed
Reach-IsOrdered (began rebalance fetch lifecycle started fresh) = refl
Reach-IsOrdered (later r st) = Step-IsOrdered st (Reach-IsOrdered r)
