-- ===== src/Rebalance/Queues.antt =====
-- franzadapter/rebalance.go: what the loops over `pendingAssigned` do to the queue of one topic.
use llingr_adapter_franz.Prelude.{
  ℤ, string_eq, ◌==◌, str_beq_iff, if◌then◌else◌, none, List, [], ◌∷◌, ◌++◌, append-nil,
  append_assoc, IsMap, insert-IsMap, lookup, insert, lookup-insert, ◌≡◌, refl, sym, ap, ◌∙◌, arith,
}
use llingr_adapter_franz.Effects.{Topic, PartitionMap}
use llingr_adapter_franz.Rebalance.{
  RebalanceState, partitions_of, append_all, prepend_all, on_assigned, on_assigned_each,
}

abbrev pub AllMaps : List PartitionMap → Type 0
AllMaps [] = Unit {0}
AllMaps (m ∷ ms) = IsMap m × AllMaps ms

pub partitions_of-cons :
    (t topic : Topic) (ps : List ℤ) (m : PartitionMap)
    → partitions_of t ((topic, ps) ∷ m) ≡ (if topic == t then ps else partitions_of t m)
unfolding partitions_of lookup
partitions_of-cons t topic ps m = ground arith

partitions_of-insert :
    (t topic : Topic) (ps : List ℤ) (m : PartitionMap)
    → partitions_of t (insert topic ps m) ≡ (if topic == t then ps else partitions_of t m)
unfolding partitions_of
partitions_of-insert t topic ps m = ground (arith, lookup-insert topic t ps m)

pub partitions_of_absent :
    (t : Topic) (m : PartitionMap) → lookup t m ≡ none → partitions_of t m ≡ []
unfolding partitions_of
partitions_of_absent t m h = rw h

pub partitions_of-append_all :
    (t : Topic) (m q : PartitionMap)
    → IsMap m
    → partitions_of t (append_all m q) ≡ partitions_of t q ++ partitions_of t m
unfolding append_all
partitions_of-append_all t [] q h =
    unfold partitions_of lookup in sym (append-nil (partitions_of t q))
partitions_of-append_all t ((topic, ps) ∷ m) q h = ground (
  arith,
  str_beq_iff topic t,
  partitions_of-append_all t m (insert topic (partitions_of topic q ++ ps) q) h.1,
  partitions_of-insert t topic (partitions_of topic q ++ ps) q,
  partitions_of-cons t topic ps m,
  partitions_of_absent t m,
  append-nil (partitions_of topic q ++ ps),
)

pub partitions_of-prepend_all :
    (t : Topic) (m q : PartitionMap)
    → IsMap m
    → partitions_of t (prepend_all m q) ≡ partitions_of t m ++ partitions_of t q
unfolding prepend_all
partitions_of-prepend_all t [] q h = unfold partitions_of lookup in refl
partitions_of-prepend_all t ((topic, ps) ∷ m) q h = ground (
  arith,
  str_beq_iff topic t,
  partitions_of-prepend_all t m (insert topic (ps ++ partitions_of topic q) q) h.1,
  partitions_of-insert t topic (ps ++ partitions_of topic q) q,
  partitions_of-cons t topic ps m,
  partitions_of_absent t m,
)

abbrev pub queued : Topic → RebalanceState → List ℤ
queued t s = partitions_of t s.pending_assigned

-- What a list of OnAssigned callbacks brings for one topic, in order.
unfoldable pub assigned_to : Topic → List PartitionMap → List ℤ
assigned_to t [] = []
assigned_to t (m ∷ ms) = partitions_of t m ++ assigned_to t ms

-- A run of OnAssigned callbacks queues, for each topic, exactly their partitions behind what was
-- queued before, in the order of the callbacks. (Each callback's map lists a topic once.)
pub queued-on_assigned_each :
    (t : Topic) (ms : List PartitionMap) (s : RebalanceState)
    → AllMaps ms
    → queued t (on_assigned_each ms s) ≡ queued t s ++ assigned_to t ms
unfolding on_assigned_each assigned_to
queued-on_assigned_each t [] s h = sym (append-nil (queued t s))
queued-on_assigned_each t (m ∷ ms) s h =
    queued-on_assigned_each t ms (on_assigned m s) h.1
    ∙ ap (λ l. l ++ assigned_to t ms) (partitions_of-append_all t m s.pending_assigned h.0)
    ∙ append_assoc (queued t s) (partitions_of t m) (assigned_to t ms)

pub append_all-IsMap : (m q : PartitionMap) → IsMap q → IsMap (append_all m q)
unfolding append_all
append_all-IsMap [] q h = h
append_all-IsMap ((topic, ps) ∷ m) q h =
    append_all-IsMap m _ (insert-IsMap topic (partitions_of topic q ++ ps) q h)

pub prepend_all-IsMap : (m q : PartitionMap) → IsMap q → IsMap (prepend_all m q)
unfolding prepend_all
prepend_all-IsMap [] q h = h
prepend_all-IsMap ((topic, ps) ∷ m) q h =
    prepend_all-IsMap m _ (insert-IsMap topic (ps ++ partitions_of topic q) q h)

pub on_assigned_each-IsMap :
    (ms : List PartitionMap) (s : RebalanceState)
    → IsMap s.pending_assigned
    → IsMap (on_assigned_each ms s).pending_assigned
unfolding on_assigned_each
on_assigned_each-IsMap [] s h = h
on_assigned_each-IsMap (m ∷ ms) s h =
    on_assigned_each-IsMap ms (on_assigned m s) (append_all-IsMap m s.pending_assigned h)
