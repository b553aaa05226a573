-- ===== src/Gate/InCall.antt =====
-- franzadapter/broker_port.go, Poll among the other goroutines: what a call has done so far, at each of
-- its sections.
use llingr_adapter_franz.Prelude.{
  true, false, Option, none, some, List, [], ◌∷◌, ◌++◌, append-nil, ◌≡◌, ◌≢◌, refl, arith,
}
use llingr_adapter_franz.Foreign.{Record}
use llingr_adapter_franz.Effects.{PartitionMap}
use llingr_adapter_franz.Rebalance.{RebalanceState, Wiring, on_assigned}
use llingr_adapter_franz.Poll.{PollState}
use llingr_adapter_franz.Poll.Handover.{listed}
use llingr_adapter_franz.Gate.{
  waiting, allowing, PollPc, outside, signalling, receiving, processing, System, after_signal,
  call_poll, return_from_poll, Step, fetch_record, fetch_nothing, fetch_exit, cancel, drop_record,
  stop_waiting, allow, allow_on_exit, close_records, close_done, dispatch, call, signal,
  signal_closed, receive, receive_closing, receive_closed, time_out, return, assigned,
}

-- The assign queue after more calls of OnAssigned; the latest stands first.
abbrev pub queue_after : List PartitionMap → RebalanceState → RebalanceState
queue_after [] r = r
queue_after (m ∷ ms) r = on_assigned m (queue_after ms r)

-- What Poll would find if it were called after these.
abbrev pub poll_after : List PartitionMap → PollState → PollState
poll_after ms p = record p { rebalance = queue_after ms p.rebalance }

-- From a state in which Poll is called to one before it returns.
pub data InCall (s0 : System) : System → Type 0 where
  called : s0.poller ≡ outside → s0.in_dispatch ≡ none → InCall s0 (call_poll s0)
  going_on : {s t : System} → InCall s0 s → Step s t → t.poller ≢ outside → InCall s0 t

abbrev pub asked : List PartitionMap → PollState → PollState
asked ms p = record (poll_after ms p) { record_awaiting_dispatch = false }

-- The record in hand is the stashed one, or what the channel gave.
abbrev pub Took : Option Record → Option Record → List Record → List Record → Type 0
Took (some q) in_hand before now = (in_hand ≡ some q) × (now ≡ before)
Took none in_hand before now = now ≡ before ++ listed in_hand

abbrev pub Inside : System → List PartitionMap → PollPc → PollState → List Record → Type 0
Inside s0 ms outside p handed = true ≡ false
Inside s0 ms signalling p handed = (p ≡ asked ms s0.poll) × (handed ≡ s0.handed)
Inside s0 ms receiving p handed =
    (s0.poll.pending_record ≡ none) × (p ≡ asked ms s0.poll) × (handed ≡ s0.handed)
Inside s0 ms (processing in_hand) p handed =
    (p ≡ record (asked ms s0.poll) { pending_record = none })
    × Took s0.poll.pending_record in_hand s0.handed handed

-- The assigns that a step queues, before those that were queued already.
abbrev pub brought_by : {s t : System} → Step s t → List PartitionMap → List PartitionMap
brought_by (assigned m) ms = m ∷ ms
brought_by _ ms = ms

-- The assigns that OnAssigned has queued since the call; the latest stands first.
abbrev pub brought : {s0 s : System} → InCall s0 s → List PartitionMap
brought (called _ _) = []
brought (going_on before st _) = brought_by st (brought before)

pub record AtParts (s0 : System) (ms : List PartitionMap) (poller : PollPc) (p : PollState)
    (in_dispatch : Option Record) (handed returned_so_far : List Record) : Type 0 where
  pub quiet : in_dispatch ≡ none
  pub same : returned_so_far ≡ s0.returned_so_far
  pub inside : Inside s0 ms poller p handed

abbrev pub At : System → List PartitionMap → System → Type 0
At s0 ms s = AtParts s0 ms s.poller s.poll s.in_dispatch s.handed s.returned_so_far

called-At : (s0 : System) → s0.poller ≡ outside → s0.in_dispatch ≡ none → At s0 [] (call_poll s0)
unfolding call_poll
called-At s0 o e = record {
  quiet = ground arith;
  same = ground arith;
  inside = ground (arith, append-nil s0.handed);
}

pub after_signal-At :
    (s0 s : System) (ms : List PartitionMap) (h : At s0 ms s)
    → s.poller ≡ signalling
    → At s0 ms (after_signal s)
unfolding after_signal
after_signal-At s0 s ms h e = record {
  quiet = ground (arith, h.quiet);
  same = ground (arith, h.same);
  inside = ground (arith, h.inside, append-nil s0.handed);
}

receive-At :
    (s0 s : System) (ms : List PartitionMap) (h : At s0 ms s) (r : Record)
    → s.poller ≡ receiving
    → At s0 ms
        (record s { loop = waiting; poller = processing (some r); handed = s.handed ++ r ∷ [] })
receive-At s0 s ms h r e = record {
  quiet = h.quiet;
  same = h.same;
  inside = ground (arith, h.inside);
}

time_out-At :
    (s0 s : System) (ms : List PartitionMap) (h : At s0 ms s)
    → s.poller ≡ receiving
    → At s0 ms (record s { poller = processing none })
time_out-At s0 s ms h e = record {
  quiet = h.quiet;
  same = h.same;
  inside = ground (arith, h.inside, append-nil s0.handed);
}

assigned-At :
    (s0 s : System) (ms : List PartitionMap) (h : At s0 ms s) (m : PartitionMap)
    → At s0
        (m ∷ ms)
        (record s { poll = record (s.poll) { rebalance = on_assigned m s.poll.rebalance } })
assigned-At s0 s ms h m = record {
  quiet = h.quiet;
  same = h.same;
  inside = ground (arith, h.inside);
}

returns_outside :
    (w : Wiring) (ms : List PartitionMap) (in_hand : Option Record) (s : System)
    → (return_from_poll w ms in_hand s).poller ≡ outside
unfolding return_from_poll
returns_outside w ms in_hand s = refl

step-At :
    {s0 s t : System} (ms : List PartitionMap) (st : Step s t)
    → t.poller ≢ outside
    → At s0 ms s
    → At s0 (brought_by st ms) t
step-At ms (fetch_record r e) _ h = h
step-At ms (fetch_nothing e) _ h = h
step-At ms (fetch_exit e) _ h = h
step-At ms cancel _ h = h
step-At ms (drop_record r e c) _ h = h
step-At ms (stop_waiting e c) _ h = h
step-At ms (allow e) _ h = h
step-At ms (allow_on_exit e) _ h = h
step-At ms (close_records e) _ h = h
step-At ms (close_done e) _ h = h
step-At ms (dispatch r o e) in_poll h = elim (in_poll o) [ ]
step-At ms (call o e) in_poll h = ground (arith, h.inside)
step-At {s0} {s} ms (signal o e) in_poll h =
    after_signal-At s0 (record s { loop = allowing }) ms h o
step-At {s0} {s} ms (signal_closed o e) in_poll h = after_signal-At s0 s ms h o
step-At {s0} {s} ms (receive r o e) in_poll h = receive-At s0 s ms h r o
step-At ms (receive_closing o e) in_poll h = elim (in_poll refl) [ ]
step-At ms (receive_closed o e) in_poll h = elim (in_poll refl) [ ]
step-At {s0} {s} ms (time_out o) in_poll h = time_out-At s0 s ms h o
step-At {s0} {s} ms (return w m o e) in_poll h = elim (in_poll (returns_outside w m o s)) [ ]
step-At {s0} {s} ms (assigned m) in_poll h = assigned-At s0 s ms h m

pub InCall-At : {s0 s : System} (r : InCall s0 s) → At s0 (brought r) s
InCall-At {s0} (called o e) = called-At s0 o e
InCall-At (going_on before st in_poll) = step-At (brought before) st in_poll (InCall-At before)
