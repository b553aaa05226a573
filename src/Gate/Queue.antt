-- ===== src/Gate/Queue.antt =====
-- franzadapter/broker_port.go and franzadapter/rebalance.go: the assign queue while Poll and the fetch loop
-- run, as a run of the callbacks and processings of Rebalance.
use llingr_adapter_franz.Prelude.{List, [], ◌∷◌, ◌++◌, append-nil, ◌≡◌, refl, ap, sym, ◌∙◌, arith}
use llingr_adapter_franz.Foreign.{Record}
use llingr_adapter_franz.Rebalance.{RebalanceState}
use llingr_adapter_franz.Rebalance.Callbacks
use llingr_adapter_franz.Rebalance.Callbacks.{Event, Outcome, run, AllWellFormed}
use llingr_adapter_franz.Poll.{finish_poll}
use llingr_adapter_franz.Poll.Handover.{returned}
use llingr_adapter_franz.Gate.{
  System, start, after_signal, call_poll, return_from_poll, Step, fetch_record, fetch_nothing,
  fetch_exit, cancel, drop_record, stop_waiting, allow, allow_on_exit, close_records, close_done,
  dispatch, call, signal, signal_closed, receive, receive_closing, receive_closed, time_out, return,
  assigned, Reach, started, later,
}

-- What a step does to the queue: OnAssigned adds to it, and Poll processes it before it returns.
abbrev pub event : {s t : System} → Step s t → List Event
event (assigned m) = Callbacks.assigned m ∷ []
event (return w ms in_hand e) = Callbacks.processed w ms ∷ []
event (fetch_record r e) = []
event (fetch_nothing e) = []
event (fetch_exit e) = []
event cancel = []
event (drop_record r e c) = []
event (stop_waiting e c) = []
event (allow e) = []
event (allow_on_exit e) = []
event (close_records e) = []
event (close_done e) = []
event (dispatch r o e) = []
event (call o e) = []
event (signal o e) = []
event (signal_closed o e) = []
event (receive r o e) = []
event (receive_closing o e) = []
event (receive_closed o e) = []
event (time_out o) = []

-- Those of a run, in order.
abbrev pub events : {s : System} → Reach s → List Event
events (started rebalance) = []
events (later r st) = events r ++ event st

abbrev pub initial : {s : System} → Reach s → RebalanceState
initial (started rebalance) = rebalance
initial (later r st) = initial r

pub run-append :
    (xs ys : List Event) (s : RebalanceState)
    → ((run (xs ++ ys) s).0 ≡ (run ys (run xs s).0).0)
      × ((run (xs ++ ys) s).1 ≡ (run xs s).1 ++ (run ys (run xs s).0).1)
unfolding run
run-append [] ys s = (refl, refl)
run-append (x ∷ xs) ys s =
    let (s', out) = Callbacks.step x s in
    let (state, outs) = run-append xs ys s' in (state, ap (λ l. out ∷ l) outs)

-- The record that PollRecords returns in a step.
abbrev pub fetched_by : {s t : System} → Step s t → List Record
fetched_by (fetch_record x e) = x ∷ []
fetched_by _ = []

-- What Poll returns in a step.
abbrev pub returned_by : {s t : System} → Step s t → List Record
returned_by {s} (return w ms in_hand e) = returned (finish_poll w ms in_hand s.poll).2
returned_by _ = []

-- What a step adds to the records, and does to the queue.
pub step_adds :
    {s t : System} (st : Step s t)
    → (t.fetched ≡ s.fetched ++ fetched_by st)
      × (t.returned_so_far ≡ s.returned_so_far ++ returned_by st)
      × (t.poll.rebalance ≡ (run (event st) s.poll.rebalance).0)
unfolding run Callbacks.step
step_adds {s} (fetch_record x e) =
    ground (arith, append-nil s.fetched, append-nil s.returned_so_far)
step_adds {s} (fetch_nothing e) = ground (arith, append-nil s.fetched, append-nil s.returned_so_far)
step_adds {s} (fetch_exit e) = ground (arith, append-nil s.fetched, append-nil s.returned_so_far)
step_adds {s} cancel = ground (arith, append-nil s.fetched, append-nil s.returned_so_far)
step_adds {s} (drop_record r e c) =
    ground (arith, append-nil s.fetched, append-nil s.returned_so_far)
step_adds {s} (stop_waiting e c) =
    ground (arith, append-nil s.fetched, append-nil s.returned_so_far)
step_adds {s} (allow e) = ground (arith, append-nil s.fetched, append-nil s.returned_so_far)
step_adds {s} (allow_on_exit e) = ground (arith, append-nil s.fetched, append-nil s.returned_so_far)
step_adds {s} (close_records e) = ground (arith, append-nil s.fetched, append-nil s.returned_so_far)
step_adds {s} (close_done e) = ground (arith, append-nil s.fetched, append-nil s.returned_so_far)
step_adds {s} (dispatch r o e) = ground (arith, append-nil s.fetched, append-nil s.returned_so_far)
step_adds {s} (call o e) =
    unfold call_poll in ground (arith, append-nil s.fetched, append-nil s.returned_so_far)
step_adds {s} (signal o e) =
    unfold after_signal in ground (arith, append-nil s.fetched, append-nil s.returned_so_far)
step_adds {s} (signal_closed o e) =
    unfold after_signal in ground (arith, append-nil s.fetched, append-nil s.returned_so_far)
step_adds {s} (receive r o e) = ground (arith, append-nil s.fetched, append-nil s.returned_so_far)
step_adds {s} (receive_closing o e) =
    ground (arith, append-nil s.fetched, append-nil s.returned_so_far)
step_adds {s} (receive_closed o e) =
    ground (arith, append-nil s.fetched, append-nil s.returned_so_far)
step_adds {s} (time_out o) = ground (arith, append-nil s.fetched, append-nil s.returned_so_far)
step_adds {s} (return w ms in_hand e) =
    unfold return_from_poll in ground (arith, append-nil s.fetched, append-nil s.returned_so_far)
step_adds {s} (assigned m) = ground (arith, append-nil s.fetched, append-nil s.returned_so_far)

-- The queue is the one that the run of the callbacks and processings leaves.
pub queue-run : {s : System} (r : Reach s) → s.poll.rebalance ≡ (run (events r) (initial r)).0
unfolding run start
queue-run (started rebalance) = refl
queue-run (later r st) =
    (step_adds st).2
    ∙ ap (λ q. (run (event st) q).0) (queue-run r)
    ∙ sym (run-append (events r) (event st) (initial r)).0
