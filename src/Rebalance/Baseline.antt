-- ===== src/Rebalance/Baseline.antt =====
-- franzadapter/rebalance.go and mapCommittedOffsets: the committed offset that an assign reports.
use mathlib.Core.Path.{subst}
use llingr_adapter_franz.Prelude.{
  ℤ, pos, leb_ℤ, string_eq, int_eq, beq_ℤ_iff, str_beq_iff, ◌==◌, if◌then◌else◌, Bool-cases, Option,
  none, some, [], ◌∷◌, Map, IsMap, lookup, insert, lookup-insert, ◌≡◌, refl, inl, inr, arith,
  Option-cases,
}
use llingr_adapter_franz.Effects.{Topic}
use llingr_adapter_franz.Rebalance.{
  CommittedOffsets, OffsetResponse, unknown_offset, known_offset, baseline, map_partition_offsets,
  map_committed_offsets_from, map_committed_offsets,
}

-- The committed offset in a broker's answer: the partition's offset if it came without an error and
-- is not negative, and -1 otherwise.
abbrev pub reported : Option OffsetResponse → ℤ
reported none = unknown_offset
reported (some r) = elim r.err [
  | some _ ↦ unknown_offset
  | none ↦ if leb_ℤ (pos 0) r.at then r.at else unknown_offset
]

abbrev pub answered : Map Topic (Map ℤ OffsetResponse) → Topic → ℤ → ℤ
answered responses topic p = elim (lookup topic responses) [
  | none ↦ unknown_offset
  | some partitions ↦ reported (lookup p partitions)
]

abbrev pub AllPartitionMaps : Map Topic (Map ℤ OffsetResponse) → Type 0
AllPartitionMaps [] = Unit {0}
AllPartitionMaps ((_, partitions) ∷ m) = IsMap partitions × AllPartitionMaps m

-- The offset a response gives, over what was there before.
abbrev over : Option OffsetResponse → Option ℤ → Option ℤ
over none old = old
over (some r) old = elim r.err [ some _ ↦ old | none ↦ some r.at ]

lookup-map_partition_offsets :
    (p : ℤ) (m : Map ℤ OffsetResponse) (offsets : Map ℤ ℤ)
    → IsMap m
    → lookup p (map_partition_offsets m offsets) ≡ over (lookup p m) (lookup p offsets)
unfolding map_partition_offsets lookup
lookup-map_partition_offsets p [] offsets h = refl
lookup-map_partition_offsets p ((q, r) ∷ m) offsets h = ground (
  arith,
  beq_ℤ_iff q p,
  lookup-map_partition_offsets p m offsets h.1,
  lookup-map_partition_offsets p m (insert q r.at offsets) h.1,
  lookup-insert q p r.at offsets,
)

known-partition :
    (p : ℤ) (m : Map ℤ OffsetResponse)
    → IsMap m
    → known_offset (lookup p (map_partition_offsets m [])) ≡ reported (lookup p m)
unfolding known_offset
known-partition p m h = rw (lookup-map_partition_offsets p m [] h) (unfold lookup in ground arith)

abbrev over_topic : Option (Map ℤ OffsetResponse) → Option (Map ℤ ℤ) → Option (Map ℤ ℤ)
over_topic none old = old
over_topic (some partitions) old = some (map_partition_offsets partitions [])

lookup-nil : (t : Topic) → lookup {V = Map ℤ ℤ} t [] ≡ none
unfolding lookup
lookup-nil t = refl

lookup-map_committed_offsets :
    (t : Topic) (m : Map Topic (Map ℤ OffsetResponse)) (c : CommittedOffsets)
    → IsMap m
    → lookup t (map_committed_offsets_from m c) ≡ over_topic (lookup t m) (lookup t c)
unfolding map_committed_offsets_from lookup
lookup-map_committed_offsets t [] c h = refl
lookup-map_committed_offsets t ((topic, ps) ∷ m) c h = ground (
  arith,
  str_beq_iff topic t,
  lookup-map_committed_offsets t m (insert topic (map_partition_offsets ps []) c) h.1,
  lookup-insert topic t (map_partition_offsets ps []) c,
)

lookup-AllPartitionMaps :
    (t : Topic) (m : Map Topic (Map ℤ OffsetResponse)) {ps : Map ℤ OffsetResponse}
    → AllPartitionMaps m
    → lookup t m ≡ some ps
    → IsMap ps
unfolding lookup
lookup-AllPartitionMaps t [] h e = cc
lookup-AllPartitionMaps t ((topic, qs) ∷ m) {ps} h e = elim (Bool-cases (topic == t)) [
  | inl same ↦ subst IsMap {x = qs} (ground arith) h.0
  | inr other ↦ lookup-AllPartitionMaps t m h.1 (ground arith)
]

-- For every answer of the broker, whatever its topics, partitions and errors, the committed offset
-- that an assign of a partition reports is the one in the answer if it came without an error and is
-- at least 0, and -1 if the topic or partition is missing, failed, or has a negative offset. (The
-- answer lists each topic, and in it each partition, once.)
pub baseline-map_committed_offsets :
    (responses : Map Topic (Map ℤ OffsetResponse)) (t : Topic) (p : ℤ)
    → IsMap responses
    → AllPartitionMaps responses
    → baseline (map_committed_offsets responses) t p ≡ answered responses t p
unfolding baseline map_committed_offsets
baseline-map_committed_offsets responses t p h hs = elim (Option-cases (lookup t responses)) [
  | inl e ↦ ground (arith, lookup-map_committed_offsets t responses [] h, lookup-nil t)
  | inr (ps, e) ↦ ground (
    arith,
    lookup-map_committed_offsets t responses [] h,
    known-partition p ps (lookup-AllPartitionMaps t responses hs e),
  )
]
