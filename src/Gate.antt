-- ===== src/Gate.antt =====
-- franzadapter/broker_port.go, runFetchLoop against Poll: the fetch goroutine and the engine's
-- polling goroutine, interleaved at their channel operations, with what each holds.
use llingr_adapter_franz.Prelude.{
  Bool, true, false, if◌then◌else◌, Option, none, some, List, [], ◌∷◌, ◌++◌, ◌≡◌, refl,
}
use llingr_adapter_franz.Foreign.{Record}
use llingr_adapter_franz.Effects.{PartitionMap}
use llingr_adapter_franz.Rebalance.{RebalanceState, Wiring, on_assigned}
use llingr_adapter_franz.Poll.{PollState, PollResult, delivered, begin_poll, finish_poll}
use llingr_adapter_franz.Poll.Handover.{returned}
pub mod Invariant
pub mod Safety
pub mod Progress
pub mod InCall
pub mod Atomic
pub mod Queue
pub mod Announced
pub mod Known
pub mod Onward
pub mod Reopens

-- Where the fetch goroutine stands. The last four are its deferred calls, in their order:
-- AllowRebalance, close(fetchedRecords), close(fetchLoopDone).
pub data LoopPc : Type 0 where
  fetching : LoopPc  -- in fetchNext
  sending : Record → LoopPc  -- at the select that sends to fetchedRecords
  waiting : LoopPc  -- at the select on recordDispatched
  allowing : LoopPc  -- before AllowRebalance at the end of the loop's body
  leaving closing_records closing_done exited : LoopPc

-- Where the polling goroutine stands.
pub data PollPc : Type 0 where
  outside : PollPc  -- the engine's code, between two calls of Poll
  signalling : PollPc  -- at the select that sends to recordDispatched
  receiving : PollPc  -- at the select on fetchedRecords
  processing : Option Record → PollPc  -- before processPendingRebalances, with the record in hand

pub record System : Type 0 where
  pub loop : LoopPc
  pub poller : PollPc
  pub poll : PollState
  pub cancelled : Bool  -- fetchCtx
  -- A PollRecords that returned something has not been followed by AllowRebalance.
  pub registered : Bool
  -- The record that Poll returned last, until the engine has dispatched it.
  pub in_dispatch : Option Record
  -- Records so far: passed on by fetchNext to the loop, sent over the channel, returned by Poll,
  -- dispatched by the engine, and dropped by the loop when it stops. The last one stands last. What
  -- fetchNext passes over (a record of another topic, one that comes with a cancellation, any after
  -- the first of a poll) is in none of them.
  pub fetched : List Record
  pub handed : List Record
  pub returned_so_far : List Record
  pub dispatched : List Record
  pub dropped : List Record

-- The engine is between calls and nothing has been fetched.
unfoldable pub start : RebalanceState → System
start rebalance = record {
  loop = fetching;
  poller = outside;
  poll = record { record_awaiting_dispatch = false; pending_record = none; rebalance = rebalance };
  cancelled = false;
  registered = false;
  in_dispatch = none;
  fetched = [];
  handed = [];
  returned_so_far = [];
  dispatched = [];
  dropped = [];
}

-- Past the signal: the stash takes precedence over the channel.
unfoldable pub after_signal : System → System
after_signal s = elim s.poll.pending_record [
  | some r ↦ record s {
    poller = processing (some r);
    poll = record (s.poll) { pending_record = none };
  }
  | none ↦ record s { poller = receiving }
]

unfoldable pub call_poll : System → System
unfolding begin_poll after_signal
call_poll s =
    let (p, signal) = begin_poll s.poll in
    let t = record s { poll = p } in
    if signal then record t { poller = signalling } else after_signal t

abbrev pub record_of : PollResult → Option Record
record_of (delivered r) = some r
record_of _ = none

unfoldable pub return_from_poll : Wiring → List PartitionMap → Option Record → System → System
unfolding finish_poll
return_from_poll w meanwhile in_hand s =
    let (p, _, result) = finish_poll w meanwhile in_hand s.poll in
    record s {
      poll = p;
      poller = outside;
      in_dispatch = record_of result;
      returned_so_far = s.returned_so_far ++ returned result;
    }

-- One step of either goroutine, of the engine, of the client's OnAssigned callback, or of whoever
-- cancels. The engine dispatches a record synchronously before it calls Poll again.
pub data Step (s : System) : System → Type 0 where
  fetch_record :
      (r : Record)
      → s.loop ≡ fetching
      → Step s (record s { loop = sending r; registered = true; fetched = s.fetched ++ r ∷ [] })
  fetch_nothing : s.loop ≡ fetching → Step s s
  fetch_exit : s.loop ≡ fetching → Step s (record s { loop = leaving; registered = true })
  cancel : Step s (record s { cancelled = true })
  drop_record :
      (r : Record)
      → s.loop ≡ sending r
      → s.cancelled ≡ true
      → Step s (record s { loop = leaving; dropped = s.dropped ++ r ∷ [] })
  stop_waiting : s.loop ≡ waiting → s.cancelled ≡ true → Step s (record s { loop = leaving })
  allow : s.loop ≡ allowing → Step s (record s { loop = fetching; registered = false })
  allow_on_exit :
      s.loop ≡ leaving → Step s (record s { loop = closing_records; registered = false })
  close_records : s.loop ≡ closing_records → Step s (record s { loop = closing_done })
  close_done : s.loop ≡ closing_done → Step s (record s { loop = exited })
  dispatch :
      (r : Record)
      → s.poller ≡ outside
      → s.in_dispatch ≡ some r
      → Step s (record s { in_dispatch = none; dispatched = s.dispatched ++ r ∷ [] })
  call : s.poller ≡ outside → s.in_dispatch ≡ none → Step s (call_poll s)
  signal :
      s.poller ≡ signalling
      → s.loop ≡ waiting
      → Step s (after_signal (record s { loop = allowing }))
  signal_closed : s.poller ≡ signalling → s.loop ≡ exited → Step s (after_signal s)
  receive :
      (r : Record)
      → s.poller ≡ receiving
      → s.loop ≡ sending r
      → Step s
          (record s { loop = waiting; poller = processing (some r); handed = s.handed ++ r ∷ [] })
  receive_closing :
      s.poller ≡ receiving → s.loop ≡ closing_done → Step s (record s { poller = outside })
  receive_closed : s.poller ≡ receiving → s.loop ≡ exited → Step s (record s { poller = outside })
  time_out : s.poller ≡ receiving → Step s (record s { poller = processing none })
  return :
      (w : Wiring) (meanwhile : List PartitionMap) (in_hand : Option Record)
      → s.poller ≡ processing in_hand
      → Step s (return_from_poll w meanwhile in_hand s)
  assigned :
      (m : PartitionMap)
      → Step s (record s { poll = record (s.poll) { rebalance = on_assigned m s.poll.rebalance } })

pub data Reach : System → Type 0 where
  started : (rebalance : RebalanceState) → Reach (start rebalance)
  later : {s t : System} → Reach s → Step s t → Reach t
