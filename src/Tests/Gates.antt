-- ===== src/Tests/Gates.antt =====
-- A run of the fetch loop against Poll, and the theorems at its states.
use llingr_adapter_franz.Prelude.{
  List, All, ◌≤◌, pos, text, true, false, none, some, [], ◌∷◌, ◌++◌, length, ◌≡◌, ◌≢◌, refl, arith,
  lookup,
}
use mathlib.Core.List.{mem-cons_self}
use llingr_adapter_franz.Foreign.{Record}
use llingr_adapter_franz.Rebalance.{
  RebalanceState, Wiring, partitions_of, process_pending_rebalances,
}
use llingr_adapter_franz.Gate.{
  System, Reach, started, later, fetch_record, call, receive, return, dispatch, signal, allow,
  cancel, stop_waiting, start, call_poll, after_signal, return_from_poll, time_out, assigned,
  outside, receiving, processing, fetching,
}
use llingr_adapter_franz.Poll.{timed_out}
use llingr_adapter_franz.Effects.{PartitionMap}
use llingr_adapter_franz.Gate.InCall.{InCall, called, going_on}
use llingr_adapter_franz.Gate.Atomic.{IsOnePoll, poll_is_atomic}
use llingr_adapter_franz.Gate.Onward.{AllAnswered}
use llingr_adapter_franz.Gate.Reopens.{gate_reopens}
use llingr_adapter_franz.Gate.Announced.{IsAnnounced, IsKnown}
use llingr_adapter_franz.Gate.Known.{assign_before_record}
use llingr_adapter_franz.Gate.Invariant.{in_hand, in_channel, is_running}
use llingr_adapter_franz.Gate.Safety.{rebalance_between_records, records_in_order}
use llingr_adapter_franz.Gate.Progress.{Steps, Proceeds, signalling-Proceeds}

abbrev order : Record
order = record { topic = text "orders"; partition = pos 0; offset = pos 42; key = [] }

abbrev idle : RebalanceState
idle = record { pending_assigned = []; pending_revoked = [] }

abbrev unwired : Wiring
unwired = record {
  adapted_consumer = none;
  fetch_committed_fn = none;
  assignment_offset_lookup = true;
}

abbrev Run : Type 0
Run = (s : System) × Reach s

-- A record is fetched while Poll waits, and Poll returns it.
abbrev returned_once : Run
unfolding start call_poll return_from_poll process_pending_rebalances
returned_once = (
  _,
  later
      (later (later (later (started idle) (call refl refl)) (fetch_record order refl))
        (receive order refl refl))
      (return unwired [] (some order) refl),
)

-- The engine has dispatched it and polls again.
abbrev signals : Run
unfolding returned_once
signals = (_, later (later returned_once.1 (dispatch order refl refl)) (call refl refl))

-- The loop has got the signal and has allowed rebalances.
abbrev allowed : Run
unfolding signals after_signal
allowed = (_, later (later signals.1 (signal refl refl)) (allow refl))

-- The loop was told to stop while Poll stood at its signal.
abbrev stopping : Run
unfolding signals
stopping = (_, later (later signals.1 cancel) (stop_waiting refl refl))

allowed_records : allowed.0.returned_so_far ≡ order ∷ []
unfolding allowed
allowed_records = refl

rebalance_between_records_example :
    (allowed.0.returned_so_far ≡ allowed.0.dispatched)
    × (allowed.0.fetched ≡ allowed.0.returned_so_far)
    × (allowed.0.poll.pending_record ≡ none)
unfolding allowed
rebalance_between_records_example = rebalance_between_records allowed.1 refl refl

records_in_order_example :
    (stopping.0.fetched
      ≡ stopping.0.returned_so_far
        ++ in_hand stopping.0.poller stopping.0.poll
        ++ in_channel stopping.0.loop
        ++ stopping.0.dropped)
    × (length stopping.0.dropped ≤ 1)
    × (is_running stopping.0.loop ≡ true → stopping.0.dropped ≡ [])
    × (stopping.0.cancelled ≡ false → stopping.0.dropped ≡ [])
records_in_order_example = records_in_order stopping.1

signalling-Proceeds_case : Proceeds stopping.0
unfolding stopping
signalling-Proceeds_case = signalling-Proceeds stopping.1 refl

-- The engine has dispatched the record, and calls Poll.
abbrev dispatched_once : Run
unfolding returned_once
dispatched_once = (_, later returned_once.1 (dispatch order refl refl))

receiving_inside : receiving ≢ outside
receiving_inside = ground arith

processing_inside : processing none ≢ outside
processing_inside = ground arith

-- The call signals, partitions are assigned, and nothing comes within the timeout.
abbrev in_call : (s : System) × InCall dispatched_once.0 s
unfolding dispatched_once call_poll after_signal
in_call = (
  _,
  going_on
      (going_on (going_on (called refl refl) (signal refl refl) receiving_inside)
        (assigned ((text "orders", pos 1 ∷ []) ∷ [])) receiving_inside)
      (time_out refl) processing_inside,
)

-- Another assign comes while the first is processed.
abbrev one_more : List PartitionMap
one_more = ((text "orders", pos 2 ∷ []) ∷ []) ∷ []

poll_is_atomic_example :
    IsOnePoll dispatched_once.0
      (((text "orders", pos 1 ∷ []) ∷ []) ∷ [])
      unwired
      one_more
      timed_out
      (return_from_poll unwired one_more none in_call.0)
unfolding in_call return_from_poll
poll_is_atomic_example = poll_is_atomic in_call.1 (return unwired one_more none refl) refl

-- An engine that accepts every assign.
abbrev wired : Wiring
wired = record unwired { adapted_consumer = some (λ _ _. none) }

-- A partition is assigned, and then a record of it is fetched and returned.
abbrev told_run : Run
unfolding start call_poll return_from_poll process_pending_rebalances
told_run = (
  _,
  later
      (later
        (later
          (later (later (started idle) (assigned ((text "orders", pos 0 ∷ []) ∷ [])))
            (fetch_record order refl))
          (call refl refl))
        (receive order refl refl))
      (return wired [] (some order) refl),
)

told_run-IsAnnounced : IsAnnounced told_run.1
unfolding told_run partitions_of lookup
told_run-IsAnnounced = (((((tt, tt), (mem-cons_self, tt)), tt), tt), tt)

assign_before_record_example : All (IsKnown told_run.1) told_run.0.returned_so_far
unfolding told_run lookup
assign_before_record_example =
    assign_before_record told_run.1 ((refl, tt), (((λ _ _. none, refl), tt), tt)) tt
      told_run-IsAnnounced

-- Poll holds the record, and the assign is queued.
abbrev taken_run : Run
unfolding start call_poll
taken_run = (
  _,
  later
      (later
        (later (later (started idle) (assigned ((text "orders", pos 0 ∷ []) ∷ [])))
          (fetch_record order refl))
        (call refl refl))
      (receive order refl refl),
)

gate_reopens_example :
    (t : System) × (steps : Steps taken_run.0 t) × AllAnswered wired steps
    × (t.loop ≡ fetching)
    × (t.registered ≡ false)
    × (t.returned_so_far ≡ taken_run.0.fetched)
    × (t.dispatched ≡ taken_run.0.fetched)
unfolding taken_run
gate_reopens_example = gate_reopens wired (_, refl, λ _. refl) taken_run.1 refl
