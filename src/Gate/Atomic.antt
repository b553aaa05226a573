-- ===== src/Gate/Atomic.antt =====
-- franzadapter/broker_port.go, Poll among the other goroutines: one call, however its sections are
-- interleaved with the fetch loop, the callbacks and a cancellation, against Poll as one function.
use llingr_adapter_franz.Prelude.{
  Bool, true, false, Option, none, some, List, [], ◌++◌, append-nil, ◌≡◌, arith,
}
use llingr_adapter_franz.Foreign.{Record}
use llingr_adapter_franz.Effects.{PartitionMap}
use llingr_adapter_franz.Rebalance.{Wiring}
use llingr_adapter_franz.Poll.{Received, got, loop_exited, timed_out, poll}
use llingr_adapter_franz.Poll.Handover.{returned, taken}
use llingr_adapter_franz.Gate.InCall.{poll_after, InCall, brought, At, after_signal-At, InCall-At}
use llingr_adapter_franz.Gate.{
  LoopPc, allowing, closing_done, exited, outside, receiving, processing, System, return_from_poll,
  record_of, Step, fetch_record, fetch_nothing, fetch_exit, cancel, drop_record, stop_waiting,
  allow, allow_on_exit, close_records, close_done, dispatch, call, signal, signal_closed, receive,
  receive_closing, receive_closed, time_out, return, assigned,
}

abbrev pub has_exited : Received → Bool
has_exited loop_exited = true
has_exited _ = false

abbrev pub has_closed : LoopPc → Bool
has_closed closing_done = true
has_closed exited = true
has_closed _ = false

-- What the channel gave to a call that has this record in hand.
abbrev given : Option Record → Received
given none = timed_out
given (some r) = got r

-- The answers of the engine and the broker in the step that ends the call. It asks neither if the loop
-- has exited.
abbrev pub wiring_of : {s t : System} → Step s t → Wiring
wiring_of (return w meanwhile in_hand e) = w
wiring_of _ = record {
  adapted_consumer = none;
  fetch_committed_fn = none;
  assignment_offset_lookup = false;
}

-- The assigns that are queued while it processes the others.
abbrev pub meanwhile_of : {s t : System} → Step s t → List PartitionMap
meanwhile_of (return w meanwhile in_hand e) = meanwhile
meanwhile_of _ = []

-- What the channel gave to the call.
abbrev pub received_of : {s t : System} → Step s t → Received
received_of (return w meanwhile in_hand e) = given in_hand
received_of _ = loop_exited

-- The state is the one that Poll as a function leaves.
pub record IsOnePoll (s0 : System) (before : List PartitionMap) (w : Wiring)
    (meanwhile : List PartitionMap) (received : Received) (t : System) : Type 0 where
  pub state : t.poll ≡ (poll true w meanwhile received (poll_after before s0.poll)).0
  pub delivery :
      t.in_dispatch ≡ record_of (poll true w meanwhile received (poll_after before s0.poll)).2
  pub records :
      t.returned_so_far
      ≡ s0.returned_so_far
        ++ returned (poll true w meanwhile received (poll_after before s0.poll)).2
  pub channel : t.handed ≡ s0.handed ++ taken s0.poll received
  pub closed : has_exited received ≡ true → has_closed t.loop ≡ true

return-IsOnePoll :
    (s0 s : System) (ms : List PartitionMap) (h : At s0 ms s) (w : Wiring)
    (meanwhile : List PartitionMap) (in_hand : Option Record)
    → s.poller ≡ processing in_hand
    → IsOnePoll s0 ms w meanwhile (given in_hand) (return_from_poll w meanwhile in_hand s)
unfolding return_from_poll poll
return-IsOnePoll s0 s ms h w meanwhile in_hand e = record {
  state = ground (arith, h.inside);
  delivery = ground (arith, h.inside);
  records = ground (arith, h.inside, h.same);
  channel = ground (arith, h.inside, append-nil s0.handed);
  closed = ground arith;
}

closed-IsOnePoll :
    (s0 s : System) (ms : List PartitionMap) (h : At s0 ms s) (w : Wiring)
    → s.poller ≡ receiving
    → has_closed s.loop ≡ true
    → IsOnePoll s0 ms w [] loop_exited (record s { poller = outside })
unfolding poll
closed-IsOnePoll s0 s ms h w e closed = record {
  state = ground (arith, h.inside);
  delivery = ground (arith, h.inside, h.quiet);
  records = ground (arith, h.inside, h.same, append-nil s0.returned_so_far);
  channel = ground (arith, h.inside, append-nil s0.handed);
  closed = λ _. closed;
}

-- The call of Poll that this step ends.
abbrev pub EndsPoll : (s0 : System) → List PartitionMap → {s t : System} → Step s t → Type 0
EndsPoll s0 ms {s} {t} st = IsOnePoll s0 ms (wiring_of st) (meanwhile_of st) (received_of st) t

step-IsOnePoll :
    {s0 s t : System} (ms : List PartitionMap) (st : Step s t)
    → At s0 ms s
    → t.poller ≡ outside
    → EndsPoll s0 ms st
step-IsOnePoll {s0} {s} ms (return w m o e) h _ = return-IsOnePoll s0 s ms h w m o e
step-IsOnePoll {s0} {s} ms (receive_closing o e) h _ = closed-IsOnePoll s0 s ms h _ o (ground arith)
step-IsOnePoll {s0} {s} ms (receive_closed o e) h _ = closed-IsOnePoll s0 s ms h _ o (ground arith)
step-IsOnePoll ms (fetch_record r e) h out = ground (arith, h.inside)
step-IsOnePoll ms (fetch_nothing e) h out = ground (arith, h.inside)
step-IsOnePoll ms (fetch_exit e) h out = ground (arith, h.inside)
step-IsOnePoll ms cancel h out = ground (arith, h.inside)
step-IsOnePoll ms (drop_record r e c) h out = ground (arith, h.inside)
step-IsOnePoll ms (stop_waiting e c) h out = ground (arith, h.inside)
step-IsOnePoll ms (allow e) h out = ground (arith, h.inside)
step-IsOnePoll ms (allow_on_exit e) h out = ground (arith, h.inside)
step-IsOnePoll ms (close_records e) h out = ground (arith, h.inside)
step-IsOnePoll ms (close_done e) h out = ground (arith, h.inside)
step-IsOnePoll ms (dispatch r o e) h out = ground (arith, h.inside)
step-IsOnePoll ms (call o e) h out = ground (arith, h.inside)
step-IsOnePoll {s0} {s} ms (signal o e) h out =
    ground (arith, (after_signal-At s0 (record s { loop = allowing }) ms h o).inside)
step-IsOnePoll {s0} {s} ms (signal_closed o e) h out =
    ground (arith, (after_signal-At s0 s ms h o).inside)
step-IsOnePoll ms (receive r o e) h out = ground arith
step-IsOnePoll ms (time_out o) h out = ground arith
step-IsOnePoll ms (assigned m) h out = ground (arith, h.inside)

-- A call of Poll is one step to the engine: however its sections are interleaved with the fetch loop,
-- with OnAssigned and with a cancellation, it leaves what the function Poll leaves when it finds the
-- assigns that OnAssigned has queued since the call, those of the run and no others, and gets the
-- answers, the later assigns and the record of the step that ends the call: its own fields, the assign
-- queue, what it returns to the engine, and what it took from the channel. It receives a closed
-- channel only if the loop has closed it.
pub poll_is_atomic :
    {s0 s t : System} (r : InCall s0 s) (st : Step s t)
    → t.poller ≡ outside
    → EndsPoll s0 (brought r) st
poll_is_atomic r st out = step-IsOnePoll (brought r) st (InCall-At r) out
