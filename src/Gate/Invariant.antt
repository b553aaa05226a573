-- ===== src/Gate/Invariant.antt =====
-- franzadapter/broker_port.go: what holds between the fetch loop and Poll after every step.
use llingr_adapter_franz.Prelude.{
  Bool, true, false, ◌||◌, is_some, Option, none, some, List, [], ◌∷◌, ◌++◌, append-nil, length,
  ◌≤◌, ◌≡◌, arith,
}
use llingr_adapter_franz.Foreign.{Record}
use llingr_adapter_franz.Effects.{PartitionMap}
use llingr_adapter_franz.Rebalance.{RebalanceState, Wiring}
use llingr_adapter_franz.Poll.{PollState}
use llingr_adapter_franz.Poll.Handover.{listed}
use llingr_adapter_franz.Gate.{
  LoopPc, fetching, sending, waiting, allowing, leaving, closing_records, closing_done, exited,
  PollPc, outside, signalling, receiving, processing, System, start, after_signal, call_poll,
  return_from_poll, Step, fetch_record, fetch_nothing, fetch_exit, cancel, drop_record,
  stop_waiting, allow, allow_on_exit, close_records, close_done, dispatch, call, signal,
  signal_closed, receive, receive_closing, receive_closed, time_out, return, assigned, Reach,
  started, later,
}

-- Poll holds a record, or has returned one whose dispatch it has not signalled.
abbrev pub in_flight : PollPc → PollState → Bool
in_flight (processing (some _)) p = true
in_flight signalling p = true
in_flight _ p = p.record_awaiting_dispatch || is_some p.pending_record

-- The record that was taken from the channel and has not been returned.
abbrev pub in_hand : PollPc → PollState → List Record
in_hand (processing (some r)) p = r ∷ []
in_hand _ p = listed p.pending_record

-- The record that the loop is about to send.
abbrev pub in_channel : LoopPc → List Record
in_channel (sending r) = r ∷ []
in_channel _ = []

-- The loop holds franz-go's poller registration.
abbrev pub is_held : LoopPc → Bool
is_held fetching = false
is_held closing_records = false
is_held closing_done = false
is_held exited = false
is_held _ = true

abbrev pub is_running : LoopPc → Bool
is_running leaving = false
is_running closing_records = false
is_running closing_done = false
is_running exited = false
is_running _ = true

-- While the loop runs, a record is in flight exactly while it waits for the dispatch signal.
abbrev pub Alternates : LoopPc → Bool → Bool → Type 0
Alternates waiting cancelled flying = flying ≡ true
Alternates fetching cancelled flying = flying ≡ false
Alternates (sending _) cancelled flying = flying ≡ false
Alternates allowing cancelled flying = flying ≡ false
Alternates _ cancelled flying = cancelled ≡ false → flying ≡ false

-- Inside Poll nothing is awaited or stashed but what the goroutine has in hand.
abbrev pub IsInside : PollPc → PollState → Type 0
IsInside outside p = p.record_awaiting_dispatch ≡ true → p.pending_record ≡ none
IsInside _ p = (p.record_awaiting_dispatch ≡ false) × (p.pending_record ≡ none)

abbrev pub IsDispatching : Option Record → PollPc → PollState → Type 0
IsDispatching none poller p = Unit {0}
IsDispatching (some _) poller p = (poller ≡ outside) × (p.record_awaiting_dispatch ≡ true)

pub record Inv (s : System) : Type 0 where
  pub alternates : Alternates s.loop s.cancelled (in_flight s.poller s.poll)
  pub inside : IsInside s.poller s.poll
  pub dispatching : IsDispatching s.in_dispatch s.poller s.poll
  pub held : s.registered ≡ is_held s.loop
  pub dispatched_all : s.returned_so_far ≡ s.dispatched ++ listed s.in_dispatch
  pub returned_all : s.handed ≡ s.returned_so_far ++ in_hand s.poller s.poll
  pub handed_all : s.fetched ≡ s.handed ++ in_channel s.loop ++ s.dropped
  pub dropped_none : is_running s.loop ≡ true → s.dropped ≡ []
  pub dropped_cancelled : s.cancelled ≡ false → s.dropped ≡ []
  pub dropped_few : length s.dropped ≤ 1

start-Inv : (rebalance : RebalanceState) → Inv (start rebalance)
unfolding start
start-Inv rebalance = ground arith

module _ (s : System) (h : Inv s) where
  open h use {
    alternates, inside, dispatching, held, dispatched_all, returned_all, handed_all, dropped_none,
  }

  fetch_record-Inv :
      (r : Record)
      → s.loop ≡ fetching
      → Inv (record s { loop = sending r; registered = true; fetched = s.fetched ++ r ∷ [] })
  fetch_record-Inv r e = ground (arith, append-nil s.handed, append-nil (s.handed ++ r ∷ []))

  drop_record-Inv :
      (r : Record)
      → s.loop ≡ sending r
      → s.cancelled ≡ true
      → Inv (record s { loop = leaving; dropped = s.dropped ++ r ∷ [] })
  drop_record-Inv r e c = ground (arith, append-nil s.handed, append-nil (s.handed ++ r ∷ []))

  dispatch-Inv :
      (r : Record)
      → s.poller ≡ outside
      → s.in_dispatch ≡ some r
      → Inv (record s { in_dispatch = none; dispatched = s.dispatched ++ r ∷ [] })
  dispatch-Inv r o e = ground (arith, append-nil (s.dispatched ++ r ∷ []))

  call-Inv : s.poller ≡ outside → s.in_dispatch ≡ none → Inv (call_poll s)
  unfolding call_poll
  call-Inv o e = ground arith

  signal-Inv :
      s.poller ≡ signalling → s.loop ≡ waiting → Inv (after_signal (record s { loop = allowing }))
  unfolding after_signal
  signal-Inv o e = ground arith

  signal_closed-Inv : s.poller ≡ signalling → s.loop ≡ exited → Inv (after_signal s)
  unfolding after_signal
  signal_closed-Inv o e = ground arith

  receive-Inv :
      (r : Record)
      → s.poller ≡ receiving
      → s.loop ≡ sending r
      → Inv (record s { loop = waiting; poller = processing (some r); handed = s.handed ++ r ∷ [] })
  receive-Inv r o e = ground (arith, append-nil (s.handed ++ r ∷ []), append-nil s.returned_so_far)

  return-Inv :
      (w : Wiring) (ms : List PartitionMap) (o : Option Record)
      → s.poller ≡ processing o
      → Inv (return_from_poll w ms o s)
  unfolding return_from_poll
  return-Inv w ms none e = ground (arith, append-nil s.dispatched)
  return-Inv w ms (some r) e =
      ground (arith, append-nil s.dispatched, append-nil (s.returned_so_far ++ r ∷ []))

Step-Inv : {s t : System} → Step s t → Inv s → Inv t
Step-Inv {s} (fetch_record r e) h = fetch_record-Inv s h r e
Step-Inv (fetch_nothing e) h = h
Step-Inv (fetch_exit e) h = ground arith
Step-Inv cancel h = ground arith
Step-Inv {s} (drop_record r e c) h = drop_record-Inv s h r e c
Step-Inv (stop_waiting e c) h = ground arith
Step-Inv (allow e) h = ground arith
Step-Inv (allow_on_exit e) h = ground arith
Step-Inv (close_records e) h = ground arith
Step-Inv (close_done e) h = ground arith
Step-Inv {s} (dispatch r o e) h = dispatch-Inv s h r o e
Step-Inv {s} (call o e) h = call-Inv s h o e
Step-Inv {s} (signal o e) h = signal-Inv s h o e
Step-Inv {s} (signal_closed o e) h = signal_closed-Inv s h o e
Step-Inv {s} (receive r o e) h = receive-Inv s h r o e
Step-Inv (receive_closing o e) h = ground arith
Step-Inv (receive_closed o e) h = ground arith
Step-Inv (time_out o) h = ground arith
Step-Inv {s} (return w ms o e) h = return-Inv s h w ms o e
Step-Inv (assigned m) h = ground arith

pub Reach-Inv : {s : System} → Reach s → Inv s
Reach-Inv (started rebalance) = start-Inv rebalance
Reach-Inv (later r st) = Step-Inv st (Reach-Inv r)
