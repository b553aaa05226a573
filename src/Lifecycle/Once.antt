-- ===== src/Lifecycle/Once.antt =====
-- franzadapter/broker_port.go: any sequence of Subscribe and Unsubscribe, by the engine, by bail or by
-- the host.
use llingr_adapter_franz.Prelude.{ℕ, ◌+◌, ◌≤◌, Bool, true, false, List, [], ◌∷◌, ◌++◌, ◌≡◌, arith}
use llingr_adapter_franz.Effects.{Effect, leave_group, close_client, start_fetch_loop}
use llingr_adapter_franz.Effects.Counting.{how_often, how_often-append}
use llingr_adapter_franz.Lifecycle.{Lifecycle, Shutdown, subscribe, unsubscribe}

pub data Call : Type 0 where
  subscribing : Call
  unsubscribing : Shutdown → Call

unfoldable pub run_calls : List Call → Lifecycle → Lifecycle × List Effect
run_calls [] a = (a, [])
run_calls (subscribing ∷ calls) a =
    let (a', p) = subscribe a in let (last, effects) = run_calls calls a' in (last, p.0 ++ effects)
run_calls (unsubscribing env ∷ calls) a =
    let (a', p) = unsubscribe env a in
    let (last, effects) = run_calls calls a' in (last, p.0 ++ effects)

abbrev pub is_start : Effect → Bool
is_start start_fetch_loop = true
is_start _ = false

abbrev pub is_leave : Effect → Bool
is_leave leave_group = true
is_leave _ = false

abbrev pub is_close : Effect → Bool
is_close close_client = true
is_close _ = false

abbrev pub once_if_not : Bool → ℕ
once_if_not true = 0
once_if_not false = 1

subscribe-counts :
    (a : Lifecycle)
    → let (a', p) = subscribe a in
      (how_often is_start p.0 + once_if_not a'.fetch_started ≤ once_if_not a.fetch_started)
      × (how_often is_leave p.0 ≡ 0)
      × (how_often is_close p.0 ≡ 0)
      × (a'.released ≡ a.released)
unfolding subscribe
subscribe-counts a = ground arith

unsubscribe-counts :
    (env : Shutdown) (a : Lifecycle)
    → let (a', p) = unsubscribe env a in
      (how_often is_start p.0 ≡ 0)
      × (how_often is_leave p.0 + once_if_not a'.released ≤ once_if_not a.released)
      × (how_often is_close p.0 + once_if_not a'.released ≤ once_if_not a.released)
      × (a'.fetch_started ≡ a.fetch_started)
unfolding unsubscribe
unsubscribe-counts env a = ground arith

-- Over any sequence of Subscribe and Unsubscribe calls, whatever the loop and the broker do, the fetch
-- loop is started at most once, the group is left at most once and the client is closed at most
-- once; and not again where it had been done before.
pub at_most_once :
    (calls : List Call) (a : Lifecycle)
    → let effects = (run_calls calls a).1 in
      (how_often is_start effects ≤ once_if_not a.fetch_started)
      × (how_often is_leave effects ≤ once_if_not a.released)
      × (how_often is_close effects ≤ once_if_not a.released)
unfolding run_calls
at_most_once [] a = ground arith
at_most_once (subscribing ∷ calls) a =
    let (a', p) = subscribe a in
    let effects = (run_calls calls a').1 in
    ground (
      arith,
      subscribe-counts a,
      at_most_once calls a',
      how_often-append is_start p.0 effects,
      how_often-append is_leave p.0 effects,
      how_often-append is_close p.0 effects,
    )
at_most_once (unsubscribing env ∷ calls) a =
    let (a', p) = unsubscribe env a in
    let effects = (run_calls calls a').1 in
    ground (
      arith,
      unsubscribe-counts env a,
      at_most_once calls a',
      how_often-append is_start p.0 effects,
      how_often-append is_leave p.0 effects,
      how_often-append is_close p.0 effects,
    )
