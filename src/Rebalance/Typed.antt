-- ===== src/Rebalance/Typed.antt =====
-- franzadapter/rebalance.go: what the engine's TriggerRebalance gets is within the types of
-- nexus.RebalanceInfo, and within what these values stand for.
use llingr_adapter_franz.Prelude.{
  string_eq, int_eq, Option, none, some, List, [], ◌∷◌, ◌++◌, All, All-append, lookup, keys, ◌⊎◌,
  inl, inr, ◌≡◌, refl, arith,
}
use llingr_adapter_franz.Foreign.{GoError}
use llingr_adapter_franz.Effects.{
  Topic, PartitionMap, assign, Effect, log, trigger_rebalance, info, partitions_assigned,
}
use llingr_adapter_franz.Rebalance.{
  CommittedOffsets, RebalanceState, Wiring, on_assigned, on_assigned_each, on_revoked, on_lost,
  assign_infos, lookup_assignment_offsets, trigger_assign, trigger_revoke,
  process_pending_rebalances, log_revoke_error,
}
use llingr_adapter_franz.Rebalance.Callbacks.{Event, assigned, revoked, lost, processed, step, run}
use llingr_adapter_franz.Rebalance.Types.{
  IsTyped, AnswersInt64, IsCall, AllInt64, append_all-IsTyped, prepend_all-IsTyped,
  assign_infos-IsInfo, revoke_infos-IsInfo,
}

module _ (w : Wiring) (m : PartitionMap) (h : AnswersInt64 w) where
  answer-AllInt64 :
      (fetch : List Topic → GoError ⊎ CommittedOffsets) (answer : GoError ⊎ CommittedOffsets)
      → w.fetch_committed_fn ≡ some fetch
      → fetch (keys m) ≡ answer
      → AllInt64 (lookup_assignment_offsets w m).1
  unfolding lookup_assignment_offsets lookup
  answer-AllInt64 fetch (inl err) e r t p o l = absurd (ground (arith, e, r, l))
  answer-AllInt64 fetch (inr c) e r t p o l = ground (arith, e, r, l, h fetch (keys m) c t p o e r)

  offsets-AllInt64 :
      (fn : Option (List Topic → GoError ⊎ CommittedOffsets))
      → w.fetch_committed_fn ≡ fn
      → AllInt64 (lookup_assignment_offsets w m).1
  unfolding lookup_assignment_offsets lookup
  offsets-AllInt64 none e t p o l = absurd (ground (arith, e, l))
  offsets-AllInt64 (some fetch) e t p o l = answer-AllInt64 fetch (fetch (keys m)) e refl t p o l

calls-append : (xs ys : List Effect) → All IsCall xs → All IsCall ys → All IsCall (xs ++ ys)
calls-append = All-append IsCall

lookup_assignment_offsets-calls :
    (w : Wiring) (m : PartitionMap) → All IsCall (lookup_assignment_offsets w m).0
unfolding lookup_assignment_offsets
lookup_assignment_offsets-calls w m = ground arith

trigger_assign-calls :
    (w : Wiring) (m : PartitionMap) → AnswersInt64 w → IsTyped m → All IsCall (trigger_assign w m).0
unfolding trigger_assign
trigger_assign-calls w m h k =
    let (looked_up, c) = lookup_assignment_offsets w m in
    let infos = assign_infos c m in
    ground (
      arith,
      assign_infos-IsInfo c m (offsets-AllInt64 w m h w.fetch_committed_fn refl) k,
      lookup_assignment_offsets-calls w m,
      calls-append looked_up
          (log info (partitions_assigned m) ∷ trigger_rebalance assign infos ∷ []),
    )

trigger_revoke-calls :
    (w : Wiring) (m : PartitionMap) → IsTyped m → All IsCall (trigger_revoke w m).0
unfolding trigger_revoke
trigger_revoke-calls w m k = ground (arith, revoke_infos-IsInfo m k)

log_revoke_error-calls : (o : Option GoError) → All IsCall (log_revoke_error o)
log_revoke_error-calls none = tt
log_revoke_error-calls (some err) = (tt, tt)

on_revoked-calls : (w : Wiring) (m : PartitionMap) → IsTyped m → All IsCall (on_revoked w m)
unfolding on_revoked
on_revoked-calls w m k =
    let (effects, err) = trigger_revoke w m in
    ground (
      arith,
      trigger_revoke-calls w m k,
      log_revoke_error-calls err,
      calls-append effects (log_revoke_error err),
    )

on_assigned_each-IsTyped :
    (ms : List PartitionMap) (s : RebalanceState)
    → All IsTyped ms
    → IsTyped s.pending_assigned
    → IsTyped (on_assigned_each ms s).pending_assigned
unfolding on_assigned_each on_assigned
on_assigned_each-IsTyped [] s h k = k
on_assigned_each-IsTyped (m ∷ ms) s h k =
    on_assigned_each-IsTyped ms (on_assigned m s) h.1
      (append_all-IsTyped m s.pending_assigned h.0 k)

process-IsTyped :
    (w : Wiring) (ms : List PartitionMap) (s : RebalanceState)
    → AnswersInt64 w
    → All IsTyped ms
    → IsTyped s.pending_assigned
    → let (s', effects, _) = process_pending_rebalances w ms s in
      IsTyped s'.pending_assigned × All IsCall effects
unfolding process_pending_rebalances
process-IsTyped w ms s h u k =
    let batch = s.pending_assigned in
    let later = on_assigned_each ms (record s { pending_assigned = [] }) in
    let later_typed = on_assigned_each-IsTyped ms (record s { pending_assigned = [] }) u tt in
    ground (
      arith,
      trigger_assign-calls w batch h k,
      on_assigned_each-IsTyped ms s u k,
      later_typed,
      prepend_all-IsTyped batch later.pending_assigned k later_typed,
    )

-- The maps of an event are of Go's types, and so are the broker's answers.
abbrev pub IsTypedEvent : Event → Type 0
IsTypedEvent (assigned m) = IsTyped m
IsTypedEvent (revoked w m) = IsTyped m
IsTypedEvent (lost w m) = IsTyped m
IsTypedEvent (processed w ms) = AnswersInt64 w × All IsTyped ms

step-IsTyped :
    (e : Event) (s : RebalanceState)
    → IsTypedEvent e
    → IsTyped s.pending_assigned
    → IsTyped (step e s).0.pending_assigned × All IsCall (step e s).1.0
unfolding step on_assigned on_lost
step-IsTyped (assigned m) s h k = (append_all-IsTyped m s.pending_assigned h k, tt)
step-IsTyped (revoked w m) s h k = (k, on_revoked-calls w m h)
step-IsTyped (lost w m) s h k = (k, on_revoked-calls w m h)
step-IsTyped (processed w ms) s h k = process-IsTyped w ms s h.0 h.1 k

-- What the engine is handed is of its types: over every sequence of callbacks and processings, with
-- maps of int32 partitions and broker answers of int64 offsets, each call of TriggerRebalance has
-- infos of its own kind alone, each with an int32 partition, and with a committed offset that is -1
-- for a revoke, and -1 or an int64 that is not negative for an assign; and the queue stays within
-- these types.
pub run-IsTyped :
    (es : List Event) (s : RebalanceState)
    → All IsTypedEvent es
    → IsTyped s.pending_assigned
    → All (λ out. All IsCall out.0) (run es s).1 × IsTyped (run es s).0.pending_assigned
unfolding run
run-IsTyped [] s h k = (tt, k)
run-IsTyped (e ∷ es) s h k =
    let (queue, calls) = step-IsTyped e s h.0 k in
    let (rest, last) = run-IsTyped es (step e s).0 h.1 queue in ((calls, rest), last)
