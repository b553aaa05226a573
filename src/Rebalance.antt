-- ===== src/Rebalance.antt =====
-- franzadapter/rebalance.go, and mapCommittedOffsets of franzadapter/adapter.go: the queue of
-- assigns, the callbacks of the client, and the calls of the engine's TriggerRebalance.
use llingr_adapter_franz.Prelude.{
  ℤ, pos, negsuc, leb_ℤ, GoString, text, string_eq, int_eq, Bool, true, false, if◌then◌else◌, ◌&&◌,
  not, Option, none, some, get_or, List, [], ◌∷◌, ◌++◌, map, Map, lookup, insert, keys, is_empty,
  ◌⊎◌, inl, inr,
}
use llingr_adapter_franz.Foreign.{GoError, wrapped}
use llingr_adapter_franz.Effects.{
  Topic, PartitionMap, RebalanceType, assign, revoke, RebalanceInfo, Effect, log, trigger_rebalance,
  fetch_committed, warn, info, error, lookup_failed, partitions_assigned, partitions_revoked,
  revoke_failed,
}
pub mod Queues
pub mod Pending
pub mod Baseline
pub mod Callbacks
pub mod Revokes
pub mod Fetcher
pub mod Listings
pub mod Seen
pub mod Unordered
pub mod Types
pub mod Typed

-- map[string]map[int32]int64
abbrev pub CommittedOffsets : Type 0
CommittedOffsets = Map Topic (Map ℤ ℤ)

-- The parts of Adapter that a.mu guards.
pub record RebalanceState : Type 0 where
  pub pending_assigned : PartitionMap
  pub pending_revoked : PartitionMap

-- What the callbacks call: the engine's TriggerRebalance (nil before CreateConsumer), the
-- committed-offset query (nil without a client), and the lookup option. An engine comes with a logger,
-- which CreateConsumer takes from it: triggerAssign and triggerRevoke log with no test for nil, and
-- with a nil logger they would panic before they call the engine.
pub record Wiring : Type 0 where
  pub adapted_consumer : Option (RebalanceType → List RebalanceInfo → Option GoError)
  pub fetch_committed_fn : Option (List Topic → GoError ⊎ CommittedOffsets)
  pub assignment_offset_lookup : Bool

-- `m[topic]`, where a missing key reads as the nil slice.
unfoldable pub partitions_of : Topic → PartitionMap → List ℤ
partitions_of topic m = get_or (lookup topic m) []

-- The loop of OnAssigned: `pending[topic] = append(pending[topic], partitions...)`.
unfoldable pub append_all : PartitionMap → PartitionMap → PartitionMap
unfolding partitions_of
append_all [] pending = pending
append_all ((topic, partitions) ∷ assigned) pending =
    append_all assigned (insert topic (partitions_of topic pending ++ partitions) pending)

unfoldable pub on_assigned : PartitionMap → RebalanceState → RebalanceState
unfolding append_all
on_assigned assigned s = record s { pending_assigned = append_all assigned s.pending_assigned }

-- The loop that puts a failed batch back:
-- `pending[topic] = append(partitions, pending[topic]...)`.
unfoldable pub prepend_all : PartitionMap → PartitionMap → PartitionMap
unfolding partitions_of
prepend_all [] pending = pending
prepend_all ((topic, partitions) ∷ assigned) pending =
    prepend_all assigned (insert topic (partitions ++ partitions_of topic pending) pending)

-- lookupAssignmentOffsets. The nil map reads as the empty one.
unfoldable pub lookup_assignment_offsets : Wiring → PartitionMap → List Effect × CommittedOffsets
lookup_assignment_offsets w assigned =
    if w.assignment_offset_lookup
    then elim w.fetch_committed_fn [
      | none ↦ ([], [])
      | some fetch ↦ elim (fetch (keys assigned)) [
        | inl err ↦ (fetch_committed (keys assigned) ∷ log warn (lookup_failed err) ∷ [], [])
        | inr committed ↦ (fetch_committed (keys assigned) ∷ [], committed)
      ]
    ]
    else ([], [])

-- -1: no committed offset is known.
abbrev pub unknown_offset : ℤ
unknown_offset = negsuc 0

-- A negative committed offset stands for none.
unfoldable pub known_offset : Option ℤ → ℤ
known_offset none = unknown_offset
known_offset (some o) = if leb_ℤ (pos 0) o then o else unknown_offset

unfoldable pub baseline : CommittedOffsets → Topic → ℤ → ℤ
unfolding known_offset
baseline committed topic p = elim (lookup topic committed) [
  | none ↦ unknown_offset
  | some partition_offsets ↦ known_offset (lookup p partition_offsets)
]

unfoldable pub assign_info : CommittedOffsets → Topic → ℤ → RebalanceInfo
unfolding baseline
assign_info committed topic p = record {
  rebalance_type = assign;
  topic_name = topic;
  partition = p;
  committed_offset = baseline committed topic p;
}

-- The two nested loops of triggerAssign.
unfoldable pub assign_infos : CommittedOffsets → PartitionMap → List RebalanceInfo
unfolding assign_info
assign_infos committed [] = []
assign_infos committed ((topic, partitions) ∷ assigned) =
    map (assign_info committed topic) partitions ++ assign_infos committed assigned

abbrev pub wrap : GoString → Option GoError → Option GoError
wrap prefix none = none
wrap prefix (some err) = some (wrapped prefix err)

unfoldable pub trigger_assign : Wiring → PartitionMap → List Effect × Option GoError
unfolding lookup_assignment_offsets assign_infos
trigger_assign w assigned = elim w.adapted_consumer [
  | none ↦ ([], none)
  | some trigger ↦
      let (looked_up, committed) = lookup_assignment_offsets w assigned in
      let infos = assign_infos committed assigned in
      (
        looked_up ++ log info (partitions_assigned assigned) ∷ trigger_rebalance assign infos ∷ [],
        wrap (text "failed to trigger rebalance (assign)") (trigger assign infos),
      )
]

unfoldable pub revoke_info : Topic → ℤ → RebalanceInfo
revoke_info topic p = record {
  rebalance_type = revoke;
  topic_name = topic;
  partition = p;
  committed_offset = unknown_offset;
}

-- The two nested loops of triggerRevoke.
unfoldable pub revoke_infos : PartitionMap → List RebalanceInfo
unfolding revoke_info
revoke_infos [] = []
revoke_infos ((topic, partitions) ∷ revoked) =
    map (revoke_info topic) partitions ++ revoke_infos revoked

unfoldable pub trigger_revoke : Wiring → PartitionMap → List Effect × Option GoError
unfolding revoke_infos
trigger_revoke w revoked = elim w.adapted_consumer [
  | none ↦ ([], none)
  | some trigger ↦ (
    log info (partitions_revoked revoked) ∷ trigger_rebalance revoke (revoke_infos revoked) ∷ [],
    wrap (text "failed to trigger rebalance (revoke)") (trigger revoke (revoke_infos revoked)),
  )
]

abbrev pub log_revoke_error : Option GoError → List Effect
log_revoke_error none = []
log_revoke_error (some err) = log error (revoke_failed err) ∷ []

-- The callback takes no lock and touches no queue: the state is not among its results.
unfoldable pub on_revoked : Wiring → PartitionMap → List Effect
unfolding trigger_revoke
on_revoked w revoked =
    if is_empty revoked
    then []
    else let (effects, err) = trigger_revoke w revoked in effects ++ log_revoke_error err

unfoldable pub on_lost : Wiring → PartitionMap → List Effect
unfolding on_revoked
on_lost w lost = on_revoked w lost

-- The OnAssigned callbacks that get the lock while the engine is being triggered.
unfoldable pub on_assigned_each : List PartitionMap → RebalanceState → RebalanceState
unfolding on_assigned
on_assigned_each [] s = s
on_assigned_each (assigned ∷ rest) s = on_assigned_each rest (on_assigned assigned s)

-- processPendingRebalances. Its two locked sections are separate: `meanwhile` are the assigns that
-- the client's callbacks queue between the first and the second (or after the early return).
unfoldable pub process_pending_rebalances :
    Wiring → List PartitionMap → RebalanceState → RebalanceState × List Effect × Option GoError
unfolding trigger_assign on_assigned_each prepend_all
process_pending_rebalances w meanwhile s =
    if is_empty s.pending_assigned
    then (on_assigned_each meanwhile s, [], none)
    else let assigned = s.pending_assigned in
      let later = on_assigned_each meanwhile (record s { pending_assigned = [] }) in
      let (effects, err) = trigger_assign w assigned in
      elim err [
        | none ↦ (later, effects, none)
        | some e ↦ (
          record later { pending_assigned = prepend_all assigned later.pending_assigned },
          effects,
          some e,
        )
      ]

-- kadm.OffsetResponse, as far as it is read.
pub record OffsetResponse : Type 0 where
  pub at : ℤ
  pub err : Option GoError

unfoldable pub map_partition_offsets : Map ℤ OffsetResponse → Map ℤ ℤ → Map ℤ ℤ
map_partition_offsets [] offsets = offsets
map_partition_offsets ((partition, response) ∷ partitions) offsets =
    map_partition_offsets partitions
      (elim response.err [ some _ ↦ offsets | none ↦ insert partition response.at offsets ])

unfoldable pub map_committed_offsets_from :
    Map Topic (Map ℤ OffsetResponse) → CommittedOffsets → CommittedOffsets
unfolding map_partition_offsets
map_committed_offsets_from [] committed = committed
map_committed_offsets_from ((topic, partitions) ∷ responses) committed =
    map_committed_offsets_from responses
      (insert topic (map_partition_offsets partitions []) committed)

unfoldable pub map_committed_offsets : Map Topic (Map ℤ OffsetResponse) → CommittedOffsets
unfolding map_committed_offsets_from
map_committed_offsets responses = map_committed_offsets_from responses []
