-- ===== src/Rebalance/Revokes.antt =====
-- franzadapter/rebalance.go: what OnRevoked and OnLost tell the engine, and when.
use llingr_adapter_franz.Prelude.{
  ℤ, string_eq, ◌==◌, str_beq_iff, if◌then◌else◌, List, [], ◌∷◌, ◌++◌, map, append-nil, IsMap,
  lookup, ◌≡◌, refl, ◌∙◌, arith,
}
use llingr_adapter_franz.Effects.{
  Topic, PartitionMap, revoke, RebalanceInfo, Effect, trigger_rebalance,
}
use llingr_adapter_franz.Rebalance.{
  RebalanceState, Wiring, partitions_of, on_assigned, on_revoked, revoke_info, revoke_infos,
}
use llingr_adapter_franz.Rebalance.Queues.{
  append_all-IsMap, partitions_of-append_all, partitions_of_absent, partitions_of-cons,
}
use llingr_adapter_franz.Rebalance.Pending.{infos_for, told-process_pending_rebalances, told}
use llingr_adapter_franz.Rebalance.Callbacks.{step, assigned, revoked, lost, processed, IsWired}

-- The partitions of one topic that a list of effects tells the engine were revoked.
abbrev pub told_revoked : Topic → List Effect → List ℤ
told_revoked t [] = []
told_revoked t (trigger_rebalance revoke infos ∷ effects) =
    infos_for t infos ++ told_revoked t effects
told_revoked t (_ ∷ effects) = told_revoked t effects

infos_for-map_revoke :
    (t topic : Topic) (ps : List ℤ) (rest : List RebalanceInfo)
    → infos_for t (map (revoke_info topic) ps ++ rest)
      ≡ (if topic == t then ps ++ infos_for t rest else infos_for t rest)
unfolding revoke_info
infos_for-map_revoke t topic [] rest = ground arith
infos_for-map_revoke t topic (p ∷ ps) rest = ground (arith, infos_for-map_revoke t topic ps rest)

infos_for-revoke_infos :
    (t : Topic) (m : PartitionMap) → IsMap m → infos_for t (revoke_infos m) ≡ partitions_of t m
unfolding revoke_infos
infos_for-revoke_infos t [] h = unfold partitions_of lookup in refl
infos_for-revoke_infos t ((topic, ps) ∷ m) h = ground (
  arith,
  str_beq_iff topic t,
  infos_for-map_revoke t topic ps (revoke_infos m),
  infos_for-revoke_infos t m h.1,
  partitions_of-cons t topic ps m,
  partitions_of_absent t m,
  append-nil ps,
)

told_revoked-on_revoked :
    (t : Topic) (w : Wiring) (m : PartitionMap)
    → IsWired w
    → IsMap m
    → told_revoked t (on_revoked w m) ≡ partitions_of t m
unfolding on_revoked
told_revoked-on_revoked t w [] wired h = unfold partitions_of lookup in refl
told_revoked-on_revoked t w (x ∷ m) wired h = ground (
  arith,
  wired.1,
  infos_for-revoke_infos t (x ∷ m) h,
  append-nil (infos_for t (revoke_infos (x ∷ m))),
)

-- The revoke callbacks drain at once: before OnRevoked or OnLost returns, whatever the engine
-- answers, it has been told exactly the partitions revoked or lost, in order, for each topic. (An
-- engine is wired, and the map lists a topic once.)
pub revokes_are_synchronous :
    (t : Topic) (w : Wiring) (m : PartitionMap) (s : RebalanceState)
    → IsWired w
    → IsMap m
    → (told_revoked t (step (revoked w m) s).1.0 ≡ partitions_of t m)
      × (told_revoked t (step (lost w m) s).1.0 ≡ partitions_of t m)
unfolding step
revokes_are_synchronous t w m s wired h =
    (told_revoked-on_revoked t w m wired h, told_revoked-on_revoked t w m wired h)

-- A revoke does not withdraw a queued assign: when partitions are assigned and then revoked before
-- the poll loop has processed the assign, the engine is told of the revoke first and of the assign
-- last, for every topic. (An engine is wired, the map lists a topic once, and no assign was queued
-- before.)
pub stale_assign :
    (t : Topic) (w : Wiring) (m : PartitionMap) (s : RebalanceState)
    → IsWired w
    → IsMap m
    → s.pending_assigned ≡ []
    → let (queue, _) = step (assigned m) s in
      let (after, out) = step (revoked w m) queue in
      let (_, last) = step (processed w []) after in
      (told_revoked t out.0 ≡ partitions_of t m) × (told t last.0 ≡ partitions_of t m)
unfolding step
stale_assign t w m s wired h e = (
  told_revoked-on_revoked t w m wired h,
  told-process_pending_rebalances w [] (on_assigned m s) t wired.1
        (append_all-IsMap m s.pending_assigned (rw e tt))
      ∙ partitions_of-append_all t m s.pending_assigned h
      ∙ rw e (unfold partitions_of lookup in refl),
)
