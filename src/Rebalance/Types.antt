-- ===== src/Rebalance/Types.antt =====
-- franzadapter/rebalance.go: the types of nexus.RebalanceInfo, and what triggerAssign and triggerRevoke
-- make of maps that are within Go's types.
use llingr_adapter_franz.Prelude.{
  ℤ, pos, negsuc, ◌≤ℤ◌, string_eq, int_eq, ◌==◌, Bool-cases, Option, none, some, get_or, List, [],
  ◌∷◌, map, All, All-append, lookup, insert, ◌⊎◌, inl, inr, ◌≡◌, refl, arith,
}
use llingr_adapter_franz.Foreign.{GoError}
use llingr_adapter_franz.Effects.{
  Topic, PartitionMap, RebalanceType, assign, revoke, RebalanceInfo, Effect, trigger_rebalance,
}
use llingr_adapter_franz.Rebalance.{
  CommittedOffsets, Wiring, unknown_offset, known_offset, baseline, partitions_of, append_all,
  prepend_all, assign_info, assign_infos, revoke_info, revoke_infos,
}

abbrev pub IsInt32 : ℤ → Type 0
IsInt32 p = (negsuc 2147483647 ≤ℤ p) × (p ≤ℤ pos 2147483647)

abbrev pub IsInt64 : ℤ → Type 0
IsInt64 o = (negsuc 9223372036854775807 ≤ℤ o) × (o ≤ℤ pos 9223372036854775807)

-- A Go map[string][]int32.
abbrev pub IsTyped : PartitionMap → Type 0
IsTyped = All (λ e. All IsInt32 e.1)

-- The committed offsets that a query answers with are of Go's int64.
abbrev pub AnswersInt64 : Wiring → Type 0
AnswersInt64 w =
    (fetch : List Topic → GoError ⊎ CommittedOffsets) (topics : List Topic) (c : CommittedOffsets)
    (t : Topic) (p o : ℤ)
    → w.fetch_committed_fn ≡ some fetch
    → fetch topics ≡ inr c
    → lookup p (get_or (lookup t c) []) ≡ some o
    → IsInt64 o

-- -1, or an offset of the log.
abbrev pub IsBaseline : ℤ → Type 0
IsBaseline o = (unknown_offset ≤ℤ o) × (o ≤ℤ pos 9223372036854775807)

abbrev pub IsOffsetOf : RebalanceType → ℤ → Type 0
IsOffsetOf assign o = IsBaseline o
IsOffsetOf revoke o = o ≡ unknown_offset

-- An info of a call of the given kind.
abbrev pub IsInfo : RebalanceType → RebalanceInfo → Type 0
IsInfo kind i = (i.rebalance_type ≡ kind) × IsInt32 i.partition × IsOffsetOf kind i.committed_offset

abbrev pub IsCall : Effect → Type 0
IsCall (trigger_rebalance kind infos) = All (IsInfo kind) infos
IsCall _ = Unit {0}

partitions_of-typed : (t : Topic) (m : PartitionMap) → IsTyped m → All IsInt32 (partitions_of t m)
unfolding partitions_of lookup
partitions_of-typed t [] h = tt
partitions_of-typed t ((topic, ps) ∷ m) h = elim (Bool-cases (topic == t)) [
  | inl same ↦ rw same (h.0)
  | inr other ↦ rw other (partitions_of-typed t m h.1)
]

insert-IsTyped :
    (t : Topic) (ps : List ℤ) (m : PartitionMap)
    → All IsInt32 ps
    → IsTyped m
    → IsTyped (insert t ps m)
unfolding insert
insert-IsTyped t ps [] k h = (k, tt)
insert-IsTyped t ps ((topic, qs) ∷ m) k h = elim (Bool-cases (topic == t)) [
  | inl same ↦ rw same (k, h.1)
  | inr other ↦ rw other (h.0, insert-IsTyped t ps m k h.1)
]

pub append_all-IsTyped : (m q : PartitionMap) → IsTyped m → IsTyped q → IsTyped (append_all m q)
unfolding append_all
append_all-IsTyped [] q h k = k
append_all-IsTyped ((topic, ps) ∷ m) q h k = append_all-IsTyped m _ h.1 (
    insert-IsTyped topic _ q
      (All-append IsInt32 (partitions_of topic q) ps (partitions_of-typed topic q k) h.0) k)

pub prepend_all-IsTyped : (m q : PartitionMap) → IsTyped m → IsTyped q → IsTyped (prepend_all m q)
unfolding prepend_all
prepend_all-IsTyped [] q h k = k
prepend_all-IsTyped ((topic, ps) ∷ m) q h k = prepend_all-IsTyped m _ h.1 (
    insert-IsTyped topic _ q
      (All-append IsInt32 ps (partitions_of topic q) h.0 (partitions_of-typed topic q k)) k)

-- The offsets that baseline reads.
abbrev pub AllInt64 : CommittedOffsets → Type 0
AllInt64 c = (t : Topic) (p o : ℤ) → lookup p (get_or (lookup t c) []) ≡ some o → IsInt64 o

known_offset-IsBaseline :
    (x : Option ℤ) → ((o : ℤ) → x ≡ some o → IsInt64 o) → IsBaseline (known_offset x)
unfolding known_offset
known_offset-IsBaseline none h = ground arith
known_offset-IsBaseline (some o) h = ground (arith, h o refl)

baseline-lookup :
    (c : CommittedOffsets) (t : Topic) (p : ℤ)
    → baseline c t p ≡ known_offset (lookup p (get_or (lookup t c) []))
unfolding baseline known_offset lookup
baseline-lookup c t p = ground arith

baseline-IsBaseline :
    (c : CommittedOffsets) (t : Topic) (p : ℤ) → AllInt64 c → IsBaseline (baseline c t p)
baseline-IsBaseline c t p h =
    rw (baseline-lookup c t p) (known_offset-IsBaseline (lookup p (get_or (lookup t c) [])) (h t p))

map-assign_info :
    (c : CommittedOffsets) (t : Topic) (ps : List ℤ)
    → AllInt64 c
    → All IsInt32 ps
    → All (IsInfo assign) (map (assign_info c t) ps)
unfolding assign_info
map-assign_info c t [] h k = tt
map-assign_info c t (p ∷ ps) h k =
    ((refl, k.0, baseline-IsBaseline c t p h), map-assign_info c t ps h k.1)

pub assign_infos-IsInfo :
    (c : CommittedOffsets) (m : PartitionMap)
    → AllInt64 c
    → IsTyped m
    → All (IsInfo assign) (assign_infos c m)
unfolding assign_infos
assign_infos-IsInfo c [] h k = tt
assign_infos-IsInfo c ((t, ps) ∷ m) h k =
    All-append (IsInfo assign) (map (assign_info c t) ps) (assign_infos c m)
      (map-assign_info c t ps h k.0) (assign_infos-IsInfo c m h k.1)

map-revoke_info :
    (t : Topic) (ps : List ℤ) → All IsInt32 ps → All (IsInfo revoke) (map (revoke_info t) ps)
unfolding revoke_info
map-revoke_info t [] k = tt
map-revoke_info t (p ∷ ps) k = ((refl, k.0, refl), map-revoke_info t ps k.1)

pub revoke_infos-IsInfo : (m : PartitionMap) → IsTyped m → All (IsInfo revoke) (revoke_infos m)
unfolding revoke_infos
revoke_infos-IsInfo [] k = tt
revoke_infos-IsInfo ((t, ps) ∷ m) k =
    All-append (IsInfo revoke) (map (revoke_info t) ps) (revoke_infos m) (map-revoke_info t ps k.0)
      (revoke_infos-IsInfo m k.1)
