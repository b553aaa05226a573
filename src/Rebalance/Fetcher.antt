-- ===== src/Rebalance/Fetcher.antt =====
-- franzadapter/adapter.go, newOffsetFetcher: the query for committed offsets, and what an assign reports
-- from it. The request itself is kadm's; `query` is what it returns.
use llingr_adapter_franz.Prelude.{
  ℤ, GoString, text, string_eq, Bool, true, false, Option, some, get_or, List, [], ◌∷◌, Map, IsMap,
  lookup, keys, ◌≡◌, refl, arith, ◌⊎◌, inl, inr,
}
use llingr_adapter_franz.Foreign.{GoError, message}
use llingr_adapter_franz.Effects.{Topic, PartitionMap}
use llingr_adapter_franz.Rebalance.{
  CommittedOffsets, OffsetResponse, Wiring, unknown_offset, baseline, map_committed_offsets,
  lookup_assignment_offsets,
}
use llingr_adapter_franz.Rebalance.Baseline.{
  answered, AllPartitionMaps, baseline-map_committed_offsets,
}

abbrev pub Query : Type 0
Query = (group : GoString) → List Topic → GoError ⊎ Map Topic (Map ℤ OffsetResponse)

-- The adapter's group, or else the one that the client reports (`none` if OptValue has no string).
unfoldable pub group_of : (group_id : GoString) → (of_client : Option GoString) → GoString
group_of [] of_client = get_or of_client []
group_of (c ∷ group) of_client = c ∷ group

abbrev pub mapped : GoError ⊎ Map Topic (Map ℤ OffsetResponse) → GoError ⊎ CommittedOffsets
mapped (inl err) = inl err
mapped (inr responses) = inr (map_committed_offsets responses)

abbrev pub ask : Query → GoString → List Topic → GoError ⊎ CommittedOffsets
ask query [] topics = inl (message (text "no consumer group configured"))
ask query (c ∷ group) topics = mapped (query (c ∷ group) topics)

unfoldable pub new_offset_fetcher :
    (group_id : GoString) (of_client : Option GoString)
    → Query
    → List Topic
    → GoError ⊎ CommittedOffsets
unfolding group_of
new_offset_fetcher group_id of_client query topics = ask query (group_of group_id of_client) topics

-- What an answer says of a partition: nothing if there is none.
abbrev pub said : GoError ⊎ Map Topic (Map ℤ OffsetResponse) → Topic → ℤ → ℤ
said (inl err) topic p = unknown_offset
said (inr responses) topic p = answered responses topic p

-- A kadm answer lists each topic, and in it each partition, once.
abbrev pub IsAnswer : GoError ⊎ Map Topic (Map ℤ OffsetResponse) → Type 0
IsAnswer (inl err) = Unit {0}
IsAnswer (inr responses) = IsMap responses × AllPartitionMaps responses

-- The offset that should be reported.
abbrev pub expected : Bool → GoString → Query → List Topic → Topic → ℤ → ℤ
expected false group query topics topic p = unknown_offset
expected true [] query topics topic p = unknown_offset
expected true (c ∷ group) query topics topic p = said (query (c ∷ group) topics) topic p

baseline-nil : (topic : Topic) (p : ℤ) → baseline [] topic p ≡ unknown_offset
unfolding baseline lookup
baseline-nil topic p = refl

-- The offsets of a lookup whose query answered so.
abbrev pub looked_up : GoError ⊎ CommittedOffsets → CommittedOffsets
looked_up (inl err) = []
looked_up (inr committed) = committed

baseline-looked_up :
    (a : GoError ⊎ Map Topic (Map ℤ OffsetResponse)) (topic : Topic) (p : ℤ)
    → IsAnswer a
    → baseline (looked_up (mapped a)) topic p ≡ said a topic p
baseline-looked_up (inl err) topic p h = baseline-nil topic p
baseline-looked_up (inr responses) topic p h =
    baseline-map_committed_offsets responses topic p h.0 h.1

baseline-ask :
    (query : Query) (group : GoString) (topics : List Topic) (topic : Topic) (p : ℤ)
    → IsAnswer (query group topics)
    → baseline (looked_up (ask query group topics)) topic p
      ≡ expected true group query topics topic p
baseline-ask query [] topics topic p h = baseline-nil topic p
baseline-ask query (c ∷ group) topics topic p h =
    baseline-looked_up (query (c ∷ group) topics) topic p h

lookup_assignment_offsets-looked_up :
    (w : Wiring) (fetch : List Topic → GoError ⊎ CommittedOffsets) (assigned : PartitionMap)
    → w.assignment_offset_lookup ≡ true
    → w.fetch_committed_fn ≡ some fetch
    → (lookup_assignment_offsets w assigned).1 ≡ looked_up (fetch (keys assigned))
unfolding lookup_assignment_offsets
lookup_assignment_offsets-looked_up w fetch assigned on e = ground arith

-- The adapter whose committed-offset query newOffsetFetcher made.
abbrev pub with_fetcher : Bool → GoString → Option GoString → Query → Wiring → Wiring
with_fetcher enabled group_id of_client query w = record w {
  fetch_committed_fn = some (new_offset_fetcher group_id of_client query);
  assignment_offset_lookup = enabled;
}

-- From the options to the broker: the committed offset that an assign of a partition reports to the
-- engine is the one that the coordinator has for the adapter's group, or, if it names none, for the
-- client's; and it is -1 if the lookup is disabled, no group is configured, the request fails, or
-- the answer has no offset of 0 or more for the partition.
pub baseline-lookup_assignment_offsets :
    (enabled : Bool) (group_id : GoString) (of_client : Option GoString) (query : Query)
    (w : Wiring) (assigned : PartitionMap) (topic : Topic) (p : ℤ)
    → IsAnswer (query (group_of group_id of_client) (keys assigned))
    → baseline
        (lookup_assignment_offsets (with_fetcher enabled group_id of_client query w) assigned).1
        topic
        p
      ≡ expected enabled (group_of group_id of_client) query (keys assigned) topic p
unfolding new_offset_fetcher
baseline-lookup_assignment_offsets false group_id of_client query w assigned topic p h =
    unfold lookup_assignment_offsets in baseline-nil topic p
baseline-lookup_assignment_offsets true group_id of_client query w assigned topic p h =
    rw
      (lookup_assignment_offsets-looked_up (with_fetcher true group_id of_client query w)
        (new_offset_fetcher group_id of_client query) assigned refl refl)
      (baseline-ask query (group_of group_id of_client) (keys assigned) topic p h)
