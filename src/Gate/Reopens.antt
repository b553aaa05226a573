-- ===== src/Gate/Reopens.antt =====
-- franzadapter/broker_port.go: no record is stuck between the fetch loop and Poll, and the loop always
-- gets back to the client.
use llingr_adapter_franz.Prelude.{
  Bool, true, false, Option, none, some, List, [], append-nil, ◌≡◌, refl, ◌∙◌, arith,
}
use llingr_adapter_franz.Foreign.{GoError, Record}
use llingr_adapter_franz.Effects.{PartitionMap, RebalanceType, assign, RebalanceInfo}
use llingr_adapter_franz.Rebalance.{
  RebalanceState, Wiring, trigger_assign, assign_infos, lookup_assignment_offsets,
  process_pending_rebalances,
}
use llingr_adapter_franz.Gate.{
  LoopPc, fetching, sending, waiting, allowing, PollPc, outside, signalling, receiving, processing,
  System, call_poll, return_from_poll, call, receive, return, Reach, later,
}
use llingr_adapter_franz.Gate.Invariant.{Inv, is_running, Reach-Inv}
use llingr_adapter_franz.Gate.Progress.{Steps, here, next}
use llingr_adapter_franz.Gate.Onward.{
  AllAnswered, Reopens, onward, allowing-Reopens, signalling-Reopens, dispatching-Reopens,
  awaiting-Reopens, call-takes_stash, call-receives,
}

-- The engine accepts every assign.
abbrev pub IsAccepting : Wiring → Type 0
IsAccepting w =
    (trigger : RebalanceType → List RebalanceInfo → Option GoError) × (w.adapted_consumer
      ≡ some trigger)
    × ((infos : List RebalanceInfo) → trigger assign infos ≡ none)

module _ (w : Wiring) (accepting : IsAccepting w) where
  assign_accepted : (m : PartitionMap) → (trigger_assign w m).1 ≡ none
  unfolding trigger_assign
  assign_accepted m =
      ground (arith, accepting.1, accepting.2 (assign_infos (lookup_assignment_offsets w m).1 m))

  process_accepted : (s : RebalanceState) → (process_pending_rebalances w [] s).2 ≡ none
  unfolding process_pending_rebalances
  process_accepted s = ground (arith, assign_accepted s.pending_assigned)

  return_delivers :
      (s : System) (r : Record)
      → let t = return_from_poll w [] (some r) s in
        (t.poller ≡ outside)
        × (t.in_dispatch ≡ some r)
        × (t.poll.record_awaiting_dispatch ≡ true)
        × (t.loop ≡ s.loop)
        × (t.fetched ≡ s.fetched)
  unfolding return_from_poll
  return_delivers s r = ground (arith, process_accepted s.poll.rebalance)

  return_empty :
      (s : System)
      → let t = return_from_poll w [] none s in
        (t.poller ≡ outside)
        × (t.in_dispatch ≡ none)
        × (t.poll.record_awaiting_dispatch ≡ s.poll.record_awaiting_dispatch)
        × (t.poll.pending_record ≡ s.poll.pending_record)
        × (t.loop ≡ s.loop)
        × (t.fetched ≡ s.fetched)
  unfolding return_from_poll
  return_empty s = ground (arith, process_accepted s.poll.rebalance)

  processing-Reopens :
      (s : System) (r : Record) → s.poller ≡ processing (some r) → s.loop ≡ waiting → Reopens w s
  processing-Reopens s r p e =
      let (o, d, a, kept, same) = return_delivers s r in
      onward (return w [] (some r) p) refl same
        (dispatching-Reopens w (return_from_poll w [] (some r) s) r o d a (kept ∙ e))

  -- Poll has stashed the record, and is called again.
  stashed-Reopens :
      (s : System) (r : Record)
      → s.poller ≡ outside
      → s.in_dispatch ≡ none
      → s.poll.record_awaiting_dispatch ≡ false
      → s.poll.pending_record ≡ some r
      → s.loop ≡ waiting
      → Reopens w s
  stashed-Reopens s r p d a stash e =
      let (at, kept, same) = call-takes_stash s p d r a stash in
      onward (call p d) tt same (processing-Reopens (call_poll s) r at (kept ∙ e))

  -- The engine is between two calls, with a record to dispatch, or to signal, or stashed.
  idle-Reopens :
      (s : System) (x : Option Record) (a : Bool) (y : Option Record)
      → Inv s
      → s.poller ≡ outside
      → s.loop ≡ waiting
      → s.in_dispatch ≡ x
      → s.poll.record_awaiting_dispatch ≡ a
      → s.poll.pending_record ≡ y
      → Reopens w s
  idle-Reopens s (some r) a y h p e d f g =
      dispatching-Reopens w s r p d (ground (arith, h.dispatching, d)) e
  idle-Reopens s none true y h p e d f g = awaiting-Reopens s p d w f e
  idle-Reopens s none false (some r) h p e d f g = stashed-Reopens s r p d f g e
  idle-Reopens s none false none h p e d f g = absurd (ground (arith, h.alternates, p, e, f, g))

  -- The states in which the loop waits for the signal.
  waiting-Reopens :
      (s : System) (q : PollPc) → Inv s → s.loop ≡ waiting → s.poller ≡ q → Reopens w s
  waiting-Reopens s signalling h e p = signalling-Reopens w s p e
  waiting-Reopens s (processing (some r)) h e p = processing-Reopens s r p e
  waiting-Reopens s (processing none) h e p = absurd (ground (arith, h.alternates, h.inside, e, p))
  waiting-Reopens s receiving h e p = absurd (ground (arith, h.alternates, h.inside, e, p))
  waiting-Reopens s outside h e p =
      idle-Reopens s s.in_dispatch s.poll.record_awaiting_dispatch s.poll.pending_record h p e refl
        refl refl

  receiving-Reopens :
      (s : System) (r : Record) → s.poller ≡ receiving → s.loop ≡ sending r → Reopens w s
  receiving-Reopens s r p e = onward (receive r p e) tt refl (processing-Reopens _ r refl refl)

  called-Reopens :
      (s : System) (r : Record)
      → s.poller ≡ outside
      → s.in_dispatch ≡ none
      → s.poll.record_awaiting_dispatch ≡ false
      → s.poll.pending_record ≡ none
      → s.loop ≡ sending r
      → Reopens w s
  called-Reopens s r p d a n e =
      let (at, kept, same) = call-receives s p d a n in
      onward (call p d) tt same (receiving-Reopens (call_poll s) r at (kept ∙ e))

  sending-Reopens :
      (s : System) (r : Record) (q : PollPc)
      → Inv s
      → s.loop ≡ sending r
      → s.poller ≡ q
      → Reopens w s
  sending-Reopens s r receiving h e p = receiving-Reopens s r p e
  sending-Reopens s r signalling h e p = absurd (ground (arith, h.alternates, e, p))
  sending-Reopens s r (processing (some x)) h e p = absurd (ground (arith, h.alternates, e, p))
  sending-Reopens s r (processing none) h e p =
      let (o, d, a, n, kept, same) = return_empty s in
      onward (return w [] none p) refl same (
        called-Reopens (return_from_poll w [] none s) r o d (a ∙ ground (arith, h.inside, p))
          (n ∙ ground (arith, h.inside, p)) (kept ∙ e))
  sending-Reopens s r outside h e p =
      called-Reopens s r p (ground (arith, h.dispatching, h.alternates, e, p))
        (ground (arith, h.alternates, e, p)) (ground (arith, h.alternates, e, p)) e

  running-Reopens :
      (s : System) (l : LoopPc) → Inv s → s.loop ≡ l → is_running l ≡ true → Reopens w s
  running-Reopens s fetching h e runs = (s, here, tt, e, refl)
  running-Reopens s (sending r) h e runs = sending-Reopens s r s.poller h e refl
  running-Reopens s waiting h e runs = waiting-Reopens s s.poller h e refl
  running-Reopens s allowing h e runs = allowing-Reopens w s e
  running-Reopens s _ h e runs = absurd (ground (arith, runs))

Steps-Reach : {s t : System} → Reach s → Steps s t → Reach t
Steps-Reach r here = r
Steps-Reach r (next st steps) = Steps-Reach (later r st) steps

-- At the client the loop has given everything away.
fetching_delivered :
    (s : System)
    → Inv s
    → s.loop ≡ fetching
    → (s.registered ≡ false) × (s.returned_so_far ≡ s.fetched) × (s.dispatched ≡ s.fetched)
fetching_delivered s h e =
    ground (arith, h, append-nil s.dispatched, append-nil s.returned_so_far, append-nil s.handed)

-- No record is stuck, and the gate always opens again: with an engine that accepts every assign, from
-- every reachable state in which the loop has not begun to leave, there are steps, in each of which
-- Poll gets the answers of that engine, to a state in which the loop is back at the client, the
-- registration is released, so that a rebalance can start, and every record that fetchNext had passed
-- on before, and no other, has been returned by Poll and dispatched.
pub gate_reopens :
    (w : Wiring)
    → IsAccepting w
    → {s : System} → Reach s
    → is_running s.loop ≡ true
    → (t : System) × (steps : Steps s t) × AllAnswered w steps
      × (t.loop ≡ fetching)
      × (t.registered ≡ false)
      × (t.returned_so_far ≡ s.fetched)
      × (t.dispatched ≡ s.fetched)
gate_reopens w accepting {s} r runs =
    let (t, steps, answered, at, kept) =
      running-Reopens w accepting s s.loop (Reach-Inv r) refl runs in
    let (open_again, returned, dispatched) =
      fetching_delivered t (Reach-Inv (Steps-Reach r steps)) at in
    (t, steps, answered, at, open_again, returned ∙ kept, dispatched ∙ kept)
