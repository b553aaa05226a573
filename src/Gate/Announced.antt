-- ===== src/Gate/Announced.antt =====
-- franzadapter/broker_port.go and franzadapter/rebalance.go: the partitions that OnAssigned was told of and
-- that the engine has accepted, and the records of them.
use llingr_adapter_franz.Prelude.{
  All, All-append, All-front, All-back, string_eq, some, List, [], ◌∷◌, ◌++◌, append_assoc, ◌≡◌,
  refl, sym, ap, ◌∙◌, ℤ, subst,
}
use mathlib.Core.List.{Mem, mem-append_left}
use llingr_adapter_franz.Foreign.{Record}
use llingr_adapter_franz.Effects.{Topic}
use llingr_adapter_franz.Rebalance.Queues.{queued}
use llingr_adapter_franz.Rebalance.Callbacks.{
  run, all_arrived, all_accepted, all_arrived-append, all_accepted-append,
}
use llingr_adapter_franz.Gate.{System, start, Step, Reach, started, later, processing}
use llingr_adapter_franz.Gate.Invariant.{in_hand, in_channel}
use llingr_adapter_franz.Gate.Safety.{records_in_order}
use llingr_adapter_franz.Gate.Queue.{
  event, events, initial, fetched_by, step_adds, run-append, queue-run,
}

pub All-imp :
    (P Q : Record → Type 0) (xs : List Record) → ((x : Record) → P x → Q x) → All P xs → All Q xs
All-imp P Q [] f h = tt
All-imp P Q (x ∷ xs) f h = (f x h.0, All-imp P Q xs f h.1)

-- OnAssigned has been told of the record's partition.
abbrev pub IsAssigned : {s : System} → Reach s → Record → Type 0
IsAssigned r x = Mem x.partition (queued x.topic (initial r) ++ all_arrived x.topic (events r))

-- Each record was fetched after OnAssigned had been told of its partition.
abbrev pub IsAnnounced : {s : System} → Reach s → Type 0
IsAnnounced (started rebalance) = Unit {0}
IsAnnounced (later r st) = IsAnnounced r × All (IsAssigned r) (fetched_by st)

-- The partitions of a topic whose assign the engine has accepted, in order.
abbrev pub accepted_so_far : {s : System} → Reach s → Topic → List ℤ
accepted_so_far r t = all_accepted t (run (events r) (initial r)).1

-- The engine has accepted the assign of the record's partition.
abbrev pub IsKnown : {s : System} → Reach s → Record → Type 0
IsKnown r x = Mem x.partition (accepted_so_far r x.topic)

later-IsAssigned :
    {s t : System} (r : Reach s) (st : Step s t) (x : Record)
    → IsAssigned r x
    → IsAssigned (later r st) x
later-IsAssigned r st x h =
    rw
      (
        all_arrived-append x.topic (events r) (event st),
        ← (
            append_assoc (queued x.topic (initial r)) (all_arrived x.topic (events r))
              (all_arrived x.topic (event st))),
      )
      (mem-append_left (all_arrived x.topic (event st)) h)

pub accepted-later :
    {s t : System} (r : Reach s) (st : Step s t) (topic : Topic)
    → accepted_so_far (later r st) topic
      ≡ accepted_so_far r topic ++ all_accepted topic (run (event st) s.poll.rebalance).1
accepted-later r st topic =
    ap (all_accepted topic) (run-append (events r) (event st) (initial r)).1
    ∙ all_accepted-append topic (run (events r) (initial r)).1
        (run (event st) (run (events r) (initial r)).0).1
    ∙ ap (λ q. accepted_so_far r topic ++ all_accepted topic (run (event st) q).1)
        (sym (queue-run r))

pub later-IsKnown :
    {s t : System} (r : Reach s) (st : Step s t) (x : Record) → IsKnown r x → IsKnown (later r st) x
later-IsKnown {s} r st x h =
    rw (accepted-later r st x.topic)
      (mem-append_left (all_accepted x.topic (run (event st) s.poll.rebalance).1) h)

-- Whatever was fetched is of a partition of which OnAssigned had been told.
pub fetched-IsAssigned : {s : System} (r : Reach s) → IsAnnounced r → All (IsAssigned r) s.fetched
unfolding start
fetched-IsAssigned (started rebalance) h = tt
fetched-IsAssigned (later {s} r st) h =
    subst (All (IsAssigned (later r st))) (sym (step_adds st).0) (
      All-imp (IsAssigned r) (IsAssigned (later r st)) (s.fetched ++ fetched_by st)
        (later-IsAssigned r st)
        (All-append (IsAssigned r) s.fetched (fetched_by st) (fetched-IsAssigned r h.0) h.1))

-- The record that Poll has in hand is one that was fetched.
pub in_hand-IsAssigned :
    {s : System} (r : Reach s) (x : Record)
    → IsAnnounced r
    → s.poller ≡ processing (some x)
    → IsAssigned r x
in_hand-IsAssigned {s} r x h e =
    let P = IsAssigned r in
    let held : in_hand s.poller s.poll ≡ x ∷ [] = rw e refl in
    let front = s.returned_so_far ++ in_hand s.poller s.poll in
    let all = subst (All P) (records_in_order r).0 (fetched-IsAssigned r h) in
    let ours =
      All-front P front (in_channel s.loop)
        (All-front P (front ++ in_channel s.loop) s.dropped all) in
    (subst (All P) held (All-back P s.returned_so_far (in_hand s.poller s.poll) ours)).0
