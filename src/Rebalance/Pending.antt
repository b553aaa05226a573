-- ===== src/Rebalance/Pending.antt =====
-- franzadapter/rebalance.go, processPendingRebalances: no assign is lost, told twice or reordered.
use llingr_adapter_franz.Prelude.{
  ℤ, string_eq, ◌==◌, str_beq_iff, is_empty, true, if◌then◌else◌, Option, none, some, List, [], ◌∷◌,
  ◌++◌, map, append-nil, IsMap, lookup, ◌≡◌, refl, arith,
}
use llingr_adapter_franz.Foreign.{GoError}
use llingr_adapter_franz.Effects.{
  Topic, PartitionMap, RebalanceType, assign, RebalanceInfo, Effect, trigger_rebalance,
}
use llingr_adapter_franz.Rebalance.{
  CommittedOffsets, RebalanceState, Wiring, partitions_of, assign_info, assign_infos,
  lookup_assignment_offsets, trigger_assign, on_assigned_each, process_pending_rebalances,
}
use llingr_adapter_franz.Rebalance.Queues.{
  AllMaps, queued, assigned_to, queued-on_assigned_each, partitions_of-prepend_all,
  partitions_of_absent, partitions_of-cons, on_assigned_each-IsMap, prepend_all-IsMap,
}

-- The partitions of one topic that a list of rebalance infos names, in order.
abbrev pub infos_for : Topic → List RebalanceInfo → List ℤ
infos_for t [] = []
infos_for t (i ∷ infos) =
    let rest = infos_for t infos in if i.topic_name == t then i.partition ∷ rest else rest

-- The partitions of one topic that a list of effects tells the engine were assigned.
abbrev pub told : Topic → List Effect → List ℤ
told t [] = []
told t (trigger_rebalance assign infos ∷ effects) = infos_for t infos ++ told t effects
told t (_ ∷ effects) = told t effects

-- What the engine accepted: what it was told, unless it answered with an error.
abbrev pub accepted : Topic → List Effect → Option GoError → List ℤ
accepted t effects none = told t effects
accepted t effects (some _) = []

infos_for-append :
    (t topic : Topic) (c : CommittedOffsets) (ps : List ℤ) (rest : List RebalanceInfo)
    → infos_for t (map (assign_info c topic) ps ++ rest)
      ≡ (if topic == t then ps ++ infos_for t rest else infos_for t rest)
unfolding assign_info
infos_for-append t topic c [] rest = ground arith
infos_for-append t topic c (p ∷ ps) rest = ground (arith, infos_for-append t topic c ps rest)

infos_for-assign_infos :
    (t : Topic) (c : CommittedOffsets) (m : PartitionMap)
    → IsMap m
    → infos_for t (assign_infos c m) ≡ partitions_of t m
unfolding assign_infos
infos_for-assign_infos t c [] h = unfold partitions_of lookup in refl
infos_for-assign_infos t c ((topic, ps) ∷ m) h = ground (
  arith,
  str_beq_iff topic t,
  infos_for-append t topic c ps (assign_infos c m),
  infos_for-assign_infos t c m h.1,
  partitions_of-cons t topic ps m,
  partitions_of_absent t m,
  append-nil ps,
)

told-lookup :
    (t : Topic) (w : Wiring) (m : PartitionMap) (rest : List Effect)
    → told t ((lookup_assignment_offsets w m).0 ++ rest) ≡ told t rest
unfolding lookup_assignment_offsets
told-lookup t w m rest = ground arith

told-trigger_assign :
    (t : Topic) (w : Wiring) (m : PartitionMap)
    {trigger : RebalanceType → List RebalanceInfo → Option GoError}
    → w.adapted_consumer ≡ some trigger
    → IsMap m
    → told t (trigger_assign w m).0 ≡ partitions_of t m
unfolding trigger_assign
told-trigger_assign t w m e h = ground (
  arith,
  told-lookup t w m _,
  infos_for-assign_infos t (lookup_assignment_offsets w m).1 m h,
  append-nil (infos_for t (assign_infos (lookup_assignment_offsets w m).1 m)),
)

queued_of_empty :
    (t : Topic) (s : RebalanceState) → is_empty s.pending_assigned ≡ true → queued t s ≡ []
unfolding partitions_of lookup
queued_of_empty t s h = ground arith

-- Whatever the engine, the lookup and the callbacks that arrive meanwhile do, for each topic the
-- partitions that the engine accepted followed by those still queued are exactly those queued before
-- followed by those that arrived, in order: no assign is lost, repeated or reordered, and a batch that
-- the engine refused is back at the front. (The adapter has a consumer, and each map lists a topic
-- once.)
pub assigns_conserved :
    (w : Wiring) (ms : List PartitionMap) (s : RebalanceState) (t : Topic)
    {trigger : RebalanceType → List RebalanceInfo → Option GoError}
    → w.adapted_consumer ≡ some trigger
    → IsMap s.pending_assigned
    → AllMaps ms
    → let out = process_pending_rebalances w ms s in
      accepted t out.1 out.2 ++ queued t out.0 ≡ queued t s ++ assigned_to t ms
unfolding process_pending_rebalances
assigns_conserved w ms s t e h hs = ground (
  arith,
  queued_of_empty t s,
  queued-on_assigned_each t ms s hs,
  queued-on_assigned_each t ms (record s { pending_assigned = [] }) hs,
  queued_of_empty t (record s { pending_assigned = [] }),
  told-trigger_assign t w s.pending_assigned e h,
  partitions_of-prepend_all t s.pending_assigned
      (on_assigned_each ms (record s { pending_assigned = [] })).pending_assigned h,
)

-- Processing keeps the queue a map with one entry for a topic.
pub process_pending_rebalances-IsMap :
    (w : Wiring) (ms : List PartitionMap) (s : RebalanceState)
    → IsMap s.pending_assigned
    → IsMap (process_pending_rebalances w ms s).0.pending_assigned
unfolding process_pending_rebalances
process_pending_rebalances-IsMap w ms s h = ground (
  arith,
  on_assigned_each-IsMap ms s h,
  on_assigned_each-IsMap ms (record s { pending_assigned = [] }) tt,
  prepend_all-IsMap s.pending_assigned
      (on_assigned_each ms (record s { pending_assigned = [] })).pending_assigned,
)

-- Processing tells the engine of exactly what is queued, for each topic, also when it refuses.
pub told-process_pending_rebalances :
    (w : Wiring) (ms : List PartitionMap) (s : RebalanceState) (t : Topic)
    {trigger : RebalanceType → List RebalanceInfo → Option GoError}
    → w.adapted_consumer ≡ some trigger
    → IsMap s.pending_assigned
    → told t (process_pending_rebalances w ms s).1 ≡ queued t s
unfolding process_pending_rebalances
told-process_pending_rebalances w ms s t e h =
    ground (arith, queued_of_empty t s, told-trigger_assign t w s.pending_assigned e h)
