-- ===== src/Session/Invariant.antt =====
-- franzadapter/broker_port.go: what holds between the loop's calls of the client and releaseBroker's.
use llingr_adapter_franz.Prelude.{
  ℕ, ◌+◌, true, false, if◌then◌else◌, List, [], ◌∷◌, ◌++◌, ◌≡◌, arith,
}
use llingr_adapter_franz.Foreign.{Fetches}
use llingr_adapter_franz.Effects.{Effect, allow_rebalance}
use llingr_adapter_franz.Rebalance.{RebalanceState}
use llingr_adapter_franz.Fetch.{FetchConfig, FetchState, fetch_next}
use llingr_adapter_franz.Fetch.Calls.{fetch_next-polls, behind_first}
use llingr_adapter_franz.Lifecycle.{Lifecycle, Shutdown, unsubscribe, release_broker}
use llingr_adapter_franz.Effects.Counting.{how_often, how_often-append}
use llingr_adapter_franz.Lifecycle.Release.{closes}
use llingr_adapter_franz.Gate
use llingr_adapter_franz.Gate.{
  System, after_signal, call_poll, return_from_poll, start, fetching, allowing, leaving,
  closing_records, exited,
}
use llingr_adapter_franz.Gate.Invariant
use llingr_adapter_franz.Session.{
  Session, after_fetch, fetch_step, release_step, unsubscribe_step, MayGoOn, is_shared, Step, Reach,
  polling, allow, allow_on_exit, shared, unsubscribing, releasing, began, later, subscribed,
}
use llingr_adapter_franz.Session.Refinement.{Reach-gate}
use llingr_adapter_franz.Session.Traces.{
  is_allow, is_loop_call, quiet, closes_late, quiet-append, closes-append, quiet_if_not_closed,
  silent_closes, silent_allows,
}

release_broker-todo :
    (env : Shutdown) (a : Lifecycle)
    → a.fetch_started ≡ true
    → let effects = (release_broker env a).0 in
      (closes_late false effects ≡ true) × (how_often is_loop_call effects ≡ 0)
unfolding release_broker
release_broker-todo env a h = ground arith

-- What a shared step leaves alone.
pub shared_keeps :
    {g h : System} (st : Gate.Step g h)
    → is_shared st ≡ true
    → (h.registered ≡ g.registered) × (g.loop ≡ exited → h.loop ≡ exited) × (h.fetched ≡ g.fetched)
unfolding after_signal call_poll return_from_poll
shared_keeps (Gate.fetch_record r e) h = cc
shared_keeps (Gate.fetch_nothing e) h = cc
shared_keeps (Gate.fetch_exit e) h = cc
shared_keeps Gate.cancel h = ground arith
shared_keeps (Gate.drop_record r e c) h = ground arith
shared_keeps (Gate.stop_waiting e c) h = ground arith
shared_keeps (Gate.allow e) h = cc
shared_keeps (Gate.allow_on_exit e) h = cc
shared_keeps (Gate.close_records e) h = ground arith
shared_keeps (Gate.close_done e) h = ground arith
shared_keeps (Gate.dispatch r o e) h = ground arith
shared_keeps (Gate.call o e) h = ground arith
shared_keeps (Gate.signal o e) h = ground arith
shared_keeps (Gate.signal_closed o e) h = ground arith
shared_keeps (Gate.receive r o e) h = ground arith
shared_keeps (Gate.receive_closing o e) h = ground arith
shared_keeps (Gate.receive_closed o e) h = ground arith
shared_keeps (Gate.time_out o) h = ground arith
shared_keeps (Gate.return w ms o e) h = ground arith
shared_keeps (Gate.assigned m) h = ground arith

pub record Inv (s : Session) : Type 0 where
  pub started : s.lifecycle.fetch_started ≡ true
  pub fresh : s.lifecycle.released ≡ false → (s.todo ≡ []) × (s.awaited ≡ false)
  pub late : closes_late s.awaited s.todo ≡ true
  pub todo_calls : how_often is_loop_call s.todo ≡ 0
  pub awaited_exited : s.awaited ≡ true → s.loop_stops ≡ true → s.gate.loop ≡ exited
  pub closed_awaited : s.closed ≡ true → s.awaited ≡ true
  pub trace_closed : closes s.trace ≡ s.closed
  pub trace_quiet : s.loop_stops ≡ true → quiet false s.trace ≡ true
  pub balance : how_often is_allow s.trace + (if s.gate.registered then 1 else 0) ≡ s.holding_polls

module _ (s : Session) (h : Inv s) (g : Gate.Invariant.Inv s.gate) where
  open h use {
    started, fresh, late, todo_calls, awaited_exited, closed_awaited, trace_closed, trace_quiet,
    balance,
  }

  polling-Inv :
      (c : FetchConfig) (now : ℕ) (fetches : Fetches)
      → s.gate.loop ≡ fetching
      → Inv (fetch_step c now fetches s)
  unfolding fetch_step after_fetch
  polling-Inv c now fetches e =
      let (_, effects, r, exit) = fetch_next c now s.gate.cancelled fetches s.fetch in
      let rest = behind_first effects in
      ground (
        arith,
        fetch_next-polls c now s.gate.cancelled fetches s.fetch,
        silent_closes rest,
        silent_allows rest,
        quiet_if_not_closed rest,
        g.held,
        how_often-append is_allow s.trace effects,
        closes-append s.trace effects,
        quiet-append false s.trace effects,
      )

  allow-Inv :
      s.gate.loop ≡ allowing
      → Inv (record s {
        gate = record (s.gate) { loop = fetching; registered = false };
        trace = s.trace ++ allow_rebalance ∷ [];
      })
  allow-Inv e =
      let call = allow_rebalance ∷ [] in
      ground (
        arith,
        g.held,
        how_often-append is_allow s.trace call,
        closes-append s.trace call,
        quiet-append false s.trace call,
      )

  allow_on_exit-Inv :
      s.gate.loop ≡ leaving
      → Inv (record s {
        gate = record (s.gate) { loop = closing_records; registered = false };
        trace = s.trace ++ allow_rebalance ∷ [];
      })
  allow_on_exit-Inv e =
      let call = allow_rebalance ∷ [] in
      ground (
        arith,
        g.held,
        how_often-append is_allow s.trace call,
        closes-append s.trace call,
        quiet-append false s.trace call,
      )

  shared-Inv :
      {k : System} (st : Gate.Step s.gate k) → is_shared st ≡ true → Inv (record s { gate = k })
  shared-Inv st e = ground (arith, shared_keeps st e)

  unsubscribing-Inv : (env : Shutdown) → s.todo ≡ [] → Inv (unsubscribe_step env s)
  unfolding unsubscribe_step unsubscribe
  unsubscribing-Inv env e =
      ground (arith, release_broker-todo env s.lifecycle, quiet_if_not_closed s.trace)

  releasing-Inv :
      (e : Effect) (rest : List Effect)
      → s.todo ≡ e ∷ rest
      → MayGoOn e s
      → Inv (release_step e rest s)
  unfolding release_step
  releasing-Inv e rest t m =
      let call = e ∷ [] in
      ground (
        arith,
        how_often-append is_allow s.trace call,
        closes-append s.trace call,
        quiet-append false s.trace call,
      )

subscribed-Inv :
    (rebalance : RebalanceState) (fetch : FetchState) (lifecycle : Lifecycle)
    → lifecycle.fetch_started ≡ true
    → Inv (subscribed rebalance fetch lifecycle)
unfolding subscribed
subscribed-Inv rebalance fetch lifecycle h = unfold start in ground arith

Step-Inv :
    {c : FetchConfig} {s t : Session} → Step c s t → Gate.Invariant.Inv s.gate → Inv s → Inv t
Step-Inv {c} {s} (polling now fetches e) g h = polling-Inv s h g c now fetches e
Step-Inv {s = s} (allow e) g h = allow-Inv s h g e
Step-Inv {s = s} (allow_on_exit e) g h = allow_on_exit-Inv s h g e
Step-Inv {s = s} (shared st e) g h = shared-Inv s h g st e
Step-Inv {s = s} (unsubscribing env e) g h = unsubscribing-Inv s h g env e
Step-Inv {s = s} (releasing e rest t m) g h = releasing-Inv s h g e rest t m

pub Reach-Inv : {c : FetchConfig} {s : Session} → Reach c s → Inv s
Reach-Inv (began rebalance fetch lifecycle started fresh) =
    subscribed-Inv rebalance fetch lifecycle started
Reach-Inv (later r st) = Step-Inv st (Gate.Invariant.Reach-Inv (Reach-gate r)) (Reach-Inv r)
