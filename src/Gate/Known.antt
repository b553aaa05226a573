-- ===== src/Gate/Known.antt =====
-- franzadapter/broker_port.go and franzadapter/rebalance.go: the engine knows of a partition before it gets a
-- record of it.
use llingr_adapter_franz.Prelude.{
  All, All-append, string_eq, none, some, List, [], ◌∷◌, ◌++◌, append-nil, IsMap, ◌≡◌, refl, sym,
  ap, ◌∙◌, arith, Option, ◌⊎◌, inl, inr, subst,
}
use llingr_adapter_franz.Foreign.{Record, GoError}
use llingr_adapter_franz.Effects.{Topic, PartitionMap}
use llingr_adapter_franz.Rebalance.{Wiring, process_pending_rebalances}
use llingr_adapter_franz.Rebalance.Queues.{queued}
use llingr_adapter_franz.Rebalance.Pending.{told-process_pending_rebalances}
use llingr_adapter_franz.Rebalance.Callbacks
use llingr_adapter_franz.Rebalance.Callbacks.{
  Event, Outcome, run, AllWellFormed, all_arrived, all_accepted, run_conserved, run-IsMap,
  AllWellFormed-split, all_arrived-append, all_accepted-append,
}
use llingr_adapter_franz.Poll.{PollState, finish_poll}
use llingr_adapter_franz.Poll.Handover.{returned}
use llingr_adapter_franz.Gate.{
  System, start, return_from_poll, Step, fetch_record, fetch_nothing, fetch_exit, cancel,
  drop_record, stop_waiting, allow, allow_on_exit, close_records, close_done, dispatch, call,
  signal, signal_closed, receive, receive_closing, receive_closed, time_out, return, assigned,
  Reach, started, later, processing,
}
use llingr_adapter_franz.Gate.Invariant.{in_hand}
use llingr_adapter_franz.Gate.Queue.{event, events, initial, returned_by, step_adds, queue-run}
use llingr_adapter_franz.Gate.Announced.{
  All-imp, IsAnnounced, IsKnown, accepted_so_far, accepted-later, later-IsKnown, in_hand-IsAssigned,
}

error-cases : (e : Option GoError) → (e ≡ none) ⊎ ((err : GoError) × (e ≡ some err))
error-cases none = inl refl
error-cases (some err) = inr (err, refl)

-- Poll returns a record only if the engine has accepted all that was queued.
finish_poll-accepted :
    (w : Wiring) (ms : List PartitionMap) (in_hand : Option Record) (p : PollState)
    → (returned (finish_poll w ms in_hand p).2 ≡ [])
      ⊎ ((x : Record) × (in_hand ≡ some x)
          × (returned (finish_poll w ms in_hand p).2 ≡ x ∷ [])
          × ((process_pending_rebalances w ms p.rebalance).2 ≡ none))
unfolding finish_poll
finish_poll-accepted w ms none p = inl (ground arith)
finish_poll-accepted w ms (some x) p =
    elim (error-cases (process_pending_rebalances w ms p.rebalance).2) [
      | inl e ↦ inr (x, refl, ground (arith, e), e)
      | inr (err, e) ↦ inl (ground (arith, e))
    ]

module _ {s : System} (r : Reach s) (w : Wiring) (ms : List PartitionMap) (in_hand : Option Record)
    (e : s.poller ≡ processing in_hand)
    (wf : AllWellFormed (events (later r (return w ms in_hand e))))
    (h : IsMap (initial r).pending_assigned) where
  -- When Poll returns a record, the engine has accepted all that was queued.
  return-accepted :
      (t : Topic)
      → (process_pending_rebalances w ms s.poll.rebalance).2 ≡ none
      → accepted_so_far (later r (return w ms in_hand e)) t
        ≡ queued t (initial r) ++ all_arrived t (events r)
  unfolding run Callbacks.step
  return-accepted t ok =
      let st : Step s (return_from_poll w ms in_hand s) = return w ms in_hand e in
      let (front, back) = AllWellFormed-split (events r) (event st) wf in
      let same = queue-run r in
      let IsMap_now : IsMap s.poll.rebalance.pending_assigned =
        rw same (run-IsMap (events r) (initial r) front h) in
      ground (
        arith,
        ok,
        same,
        accepted-later r st t,
        run_conserved t (events r) (initial r) front h,
        told-process_pending_rebalances w ms s.poll.rebalance t back.0.0.1 IsMap_now,
        append-nil (queued t s.poll.rebalance),
      )

  return-IsKnown :
      IsAnnounced r
      → All
          (IsKnown (later r (return w ms in_hand e)))
          (returned (finish_poll w ms in_hand s.poll).2)
  return-IsKnown announced = elim (finish_poll-accepted w ms in_hand s.poll) [
    | inl none_back ↦ rw none_back tt
    | inr (x, held, back, ok) ↦ rw back (
      rw (return-accepted x.topic ok) (in_hand-IsAssigned r x announced (e ∙ ap processing held)),
      tt,
    )
  ]

step-IsKnown :
    {s t : System} (r : Reach s) (st : Step s t)
    → AllWellFormed (events (later r st))
    → IsMap (initial r).pending_assigned
    → IsAnnounced r
    → All (IsKnown (later r st)) (returned_by st)
step-IsKnown r (return w ms in_hand e) wf h announced =
    return-IsKnown r w ms in_hand e wf h announced
step-IsKnown r (fetch_record x e) wf h announced = tt
step-IsKnown r (fetch_nothing e) wf h announced = tt
step-IsKnown r (fetch_exit e) wf h announced = tt
step-IsKnown r cancel wf h announced = tt
step-IsKnown r (drop_record x e c) wf h announced = tt
step-IsKnown r (stop_waiting e c) wf h announced = tt
step-IsKnown r (allow e) wf h announced = tt
step-IsKnown r (allow_on_exit e) wf h announced = tt
step-IsKnown r (close_records e) wf h announced = tt
step-IsKnown r (close_done e) wf h announced = tt
step-IsKnown r (dispatch x o e) wf h announced = tt
step-IsKnown r (call o e) wf h announced = tt
step-IsKnown r (signal o e) wf h announced = tt
step-IsKnown r (signal_closed o e) wf h announced = tt
step-IsKnown r (receive x o e) wf h announced = tt
step-IsKnown r (receive_closing o e) wf h announced = tt
step-IsKnown r (receive_closed o e) wf h announced = tt
step-IsKnown r (time_out o) wf h announced = tt
step-IsKnown r (assigned m) wf h announced = tt

-- The engine knows of a partition before it gets a record of it: if franz-go calls OnAssigned for a
-- partition before it returns a record of it, then in every reachable state, whatever the engine
-- answers and however the callbacks, the fetch loop and Poll interleave, each record that Poll has
-- returned is of a partition whose assign the engine has accepted. (An engine is wired throughout, and
-- each map lists a topic once.)
pub assign_before_record :
    {s : System} (r : Reach s)
    → AllWellFormed (events r)
    → IsMap (initial r).pending_assigned
    → IsAnnounced r
    → All (IsKnown r) s.returned_so_far
unfolding start
assign_before_record (started rebalance) wf h announced = tt
assign_before_record (later {s} r st) wf h announced =
    let before = (AllWellFormed-split (events r) (event st) wf).0 in
    subst (All (IsKnown (later r st))) (sym (step_adds st).1) (
      All-append (IsKnown (later r st)) s.returned_so_far (returned_by st)
        (All-imp (IsKnown r) (IsKnown (later r st)) s.returned_so_far (later-IsKnown r st)
          (assign_before_record r before h announced.0))
        (step-IsKnown r st wf h announced.0))
