-- ===== src/Gate/Safety.antt =====
-- franzadapter/broker_port.go: commit-before-release and at-least-once, for every interleaving.
use llingr_adapter_franz.Prelude.{
  true, false, none, [], ◌++◌, append-nil, length, ◌≤◌, ◌≡◌, refl, arith,
}
use llingr_adapter_franz.Gate.{System, Reach}
use llingr_adapter_franz.Gate.Invariant.{in_hand, in_channel, is_running, Reach-Inv}

-- franz-go starts a rebalance callback only while no poller is registered.
abbrev pub CanRebalance : System → Type 0
CanRebalance s = s.registered ≡ false

-- A rebalance begins only between records: in every reachable state in which a rebalance callback
-- can start, and unless the loop is being stopped, every record that Poll has returned has been
-- dispatched by the engine, and every record that fetchNext has passed on has been returned by Poll:
-- nothing is in the channel, in Poll's hands or stashed.
pub rebalance_between_records :
    {s : System}
    → Reach s
    → CanRebalance s
    → s.cancelled ≡ false
    → (s.returned_so_far ≡ s.dispatched)
      × (s.fetched ≡ s.returned_so_far)
      × (s.poll.pending_record ≡ none)
rebalance_between_records {s} r c n =
    ground (
      arith,
      Reach-Inv r,
      append-nil s.dispatched,
      append-nil s.returned_so_far,
      append-nil s.handed,
    )

-- In every reachable state the records that fetchNext has passed on to the loop are, in order, those
-- that Poll has returned, the one in Poll's hands or stashed by a failed assign, the one that the loop
-- is about to send, and those that the loop dropped. The loop drops at most one, and none while it runs
-- or unless it is cancelled: of the records that fetchNext passes on, each is delivered once, in order,
-- and nothing else is delivered. (What fetchNext itself passes over is not among them: a record of
-- another topic, one that comes with a cancellation, and any after the first of a poll.)
pub records_in_order :
    {s : System}
    → Reach s
    → (s.fetched ≡ s.returned_so_far ++ in_hand s.poller s.poll ++ in_channel s.loop ++ s.dropped)
      × (length s.dropped ≤ 1)
      × (is_running s.loop ≡ true → s.dropped ≡ [])
      × (s.cancelled ≡ false → s.dropped ≡ [])
records_in_order r =
    let h = Reach-Inv r in
    (rw h.handed_all (rw h.returned_all refl), h.dropped_few, h.dropped_none, h.dropped_cancelled)
