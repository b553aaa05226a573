-- ===== src/Poll.antt =====
-- franzadapter/broker_port.go, Poll: one call on the engine's polling goroutine. The two channel
-- operations split it into sections, which Gate interleaves with the fetch loop.
use llingr_adapter_franz.Prelude.{
  Bool, true, false, if◌then◌else◌, Option, none, some, List, [], ◌∷◌, ◌++◌,
}
use llingr_adapter_franz.Foreign.{GoError, Record}
use llingr_adapter_franz.Effects.{PartitionMap, Effect, signal_dispatched}
use llingr_adapter_franz.Rebalance.{RebalanceState, Wiring, process_pending_rebalances}
pub mod Handover

-- The fields of Adapter that only the polling goroutine touches, and the assign queue.
pub record PollState : Type 0 where
  pub record_awaiting_dispatch : Bool
  pub pending_record : Option Record
  pub rebalance : RebalanceState

pub data PollResult : Type 0 where
  delivered : Record → PollResult  -- record, true, nil
  empty : PollResult  -- nil, false, nil
  client_closed_error : PollResult  -- nil, false, "client closed"
  assign_failed : GoError → PollResult  -- nil, false, err

-- What the receive from fetchedRecords gives within the timeout.
pub data Received : Type 0 where
  got : Record → Received
  loop_exited : Received
  timed_out : Received

-- The top of Poll: whether the previous record's dispatch has to be signalled.
unfoldable pub begin_poll : PollState → PollState × Bool
begin_poll s =
    if s.record_awaiting_dispatch
    then (record s { record_awaiting_dispatch = false }, true)
    else (s, false)

-- The rest of Poll with a record (or none) in hand: process the queued assigns; stash the record if
-- that fails, and return it if not.
unfoldable pub finish_poll :
    Wiring → List PartitionMap → Option Record → PollState → PollState × List Effect × PollResult
finish_poll w meanwhile in_hand s =
    let (rebalance, effects, err) = process_pending_rebalances w meanwhile s.rebalance in
    elim err [
      | some e ↦
          (record s { pending_record = in_hand; rebalance = rebalance }, effects, assign_failed e)
      | none ↦ elim in_hand [
        | some r ↦ (
          record s { record_awaiting_dispatch = true; rebalance = rebalance },
          effects,
          delivered r,
        )
        | none ↦ (record s { rebalance = rebalance }, effects, empty)
      ]
    ]

-- After the signal: a stashed record takes precedence over the channel.
unfoldable pub poll_record :
    Wiring → List PartitionMap → Received → PollState → PollState × List Effect × PollResult
unfolding finish_poll
poll_record w meanwhile received s = elim s.pending_record [
  | some r ↦ finish_poll w meanwhile (some r) (record s { pending_record = none })
  | none ↦ elim received [
    | got r ↦ finish_poll w meanwhile (some r) s
    | loop_exited ↦ (s, [], client_closed_error)
    | timed_out ↦ finish_poll w meanwhile none s
  ]
]

-- Poll; `has_client` is `pollRecordsFn != nil`.
unfoldable pub poll :
    (has_client : Bool)
    → Wiring
    → List PartitionMap
    → Received
    → PollState
    → PollState × List Effect × PollResult
unfolding begin_poll poll_record
poll false w meanwhile received s = (s, [], client_closed_error)
poll true w meanwhile received s =
    let (s', signal) = begin_poll s in
    let (s'', effects, result) = poll_record w meanwhile received s' in
    (s'', (if signal then signal_dispatched ∷ effects else effects), result)
