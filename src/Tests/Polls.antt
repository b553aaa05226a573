-- ===== src/Tests/Polls.antt =====
-- Tests and instances for Poll, the fetch loop and their interleavings.
use llingr_adapter_franz.Prelude.{pos, text, true, none, [], ◌++◌, ◌≡◌, refl}
use llingr_adapter_franz.Foreign.{Record}
use llingr_adapter_franz.Rebalance.{RebalanceState, Wiring, process_pending_rebalances}
use llingr_adapter_franz.Poll.{PollState, got, poll, delivered}
use llingr_adapter_franz.Poll.Handover.{listed, taken, returned, poll_keeps_records}

abbrev order : Record
order = record { topic = text "orders"; partition = pos 0; offset = pos 42; key = [] }

abbrev idle : RebalanceState
idle = record { pending_assigned = []; pending_revoked = [] }

abbrev unwired : Wiring
unwired = record {
  adapted_consumer = none;
  fetch_committed_fn = none;
  assignment_offset_lookup = true;
}

abbrev awaiting : PollState
awaiting = record { record_awaiting_dispatch = true; pending_record = none; rebalance = idle }

poll_delivers : (poll true unwired [] (got order) awaiting).2 ≡ delivered order
unfolding poll process_pending_rebalances
poll_delivers = refl

poll_keeps_records_case :
    let out = poll true unwired [] (got order) awaiting in
    listed awaiting.pending_record ++ taken awaiting (got order)
    ≡ returned out.2 ++ listed out.0.pending_record
poll_keeps_records_case = poll_keeps_records unwired [] (got order) awaiting
