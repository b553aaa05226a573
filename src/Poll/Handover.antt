-- ===== src/Poll/Handover.antt =====
-- franzadapter/broker_port.go, Poll: what one call does with the record it has in hand.
use llingr_adapter_franz.Prelude.{true, Option, none, some, List, [], ◌∷◌, ◌++◌, ◌≡◌, arith}
use llingr_adapter_franz.Foreign.{Record}
use llingr_adapter_franz.Effects.{PartitionMap}
use llingr_adapter_franz.Rebalance.{Wiring}
use llingr_adapter_franz.Poll.{
  PollState, PollResult, delivered, Received, got, loop_exited, timed_out, poll,
}

abbrev pub listed : Option Record → List Record
listed none = []
listed (some r) = r ∷ []

abbrev pub returned : PollResult → List Record
returned (delivered r) = r ∷ []
returned _ = []

-- What a call takes from the channel: nothing while a record is stashed.
abbrev pub taken : PollState → Received → List Record
taken s received = elim s.pending_record [
  | some _ ↦ []
  | none ↦ elim received [ got r ↦ r ∷ [] | loop_exited ↦ [] | timed_out ↦ [] ]
]

-- One call of Poll loses no record and makes none up, whatever the engine answers: the stashed record
-- and what the call takes from the channel, in this order, are what it returns and what it leaves
-- stashed.
pub poll_keeps_records :
    (w : Wiring) (ms : List PartitionMap) (received : Received) (s : PollState)
    → let out = poll true w ms received s in
      listed s.pending_record ++ taken s received ≡ returned out.2 ++ listed out.0.pending_record
unfolding poll
poll_keeps_records w ms received s = ground arith
