-- ===== src/Rebalance/Listings.antt =====
-- franzadapter/rebalance.go: its loops range over Go maps, in an order that Go leaves open. What two
-- orders have in common.
use llingr_adapter_franz.Prelude.{
  ℤ, string_eq, str_beq_iff, is_empty, Option, none, some, get_or, List, [], ◌∷◌, ◌++◌, map, IsMap,
  lookup, insert, lookup-insert, keys, ◌≡◌, refl, ap, arith,
}
use llingr_adapter_franz.Prelude.Listings.{SameMap, SameMap-Perm, flat_map-Perm}
use mathlib.Core.List.{Perm, flat_map}
use mathlib.Core.List.Perm
use llingr_adapter_franz.Effects.{Topic, PartitionMap}
use llingr_adapter_franz.Rebalance.{
  CommittedOffsets, partitions_of, append_all, prepend_all, assign_info, assign_infos, revoke_info,
  revoke_infos,
}

-- What stands under a topic when `added` is put behind `queued`, or before it.
abbrev behind : (queued added : Option (List ℤ)) → Option (List ℤ)
behind queued none = queued
behind queued (some ps) = some (get_or queued [] ++ ps)

abbrev before : (queued added : Option (List ℤ)) → Option (List ℤ)
before queued none = queued
before queued (some ps) = some (ps ++ get_or queued [])

lookup-append_all :
    (t : Topic) (m q : PartitionMap)
    → IsMap m
    → lookup t (append_all m q) ≡ behind (lookup t q) (lookup t m)
unfolding append_all lookup partitions_of
lookup-append_all t [] q h = refl
lookup-append_all t ((topic, ps) ∷ m) q h = ground (
  arith,
  str_beq_iff topic t,
  lookup-append_all t m (insert topic (partitions_of topic q ++ ps) q) h.1,
  lookup-insert topic t (partitions_of topic q ++ ps) q,
)

lookup-prepend_all :
    (t : Topic) (m q : PartitionMap)
    → IsMap m
    → lookup t (prepend_all m q) ≡ before (lookup t q) (lookup t m)
unfolding prepend_all lookup partitions_of
lookup-prepend_all t [] q h = refl
lookup-prepend_all t ((topic, ps) ∷ m) q h = ground (
  arith,
  str_beq_iff topic t,
  lookup-prepend_all t m (insert topic (ps ++ partitions_of topic q) q) h.1,
  lookup-insert topic t (ps ++ partitions_of topic q) q,
)

-- Two listings of one map.
abbrev pub Listed : PartitionMap → PartitionMap → Type 0
Listed m n = IsMap m × IsMap n × SameMap m n

pub SameMap-append_all :
    (m n q r : PartitionMap) → Listed m n → SameMap q r → SameMap (append_all m q) (append_all n r)
SameMap-append_all m n q r (u, w, h) k t =
    rw (lookup-append_all t m q u, lookup-append_all t n r w, h t, k t) refl

pub SameMap-prepend_all :
    (m n q r : PartitionMap)
    → Listed m n
    → SameMap q r
    → SameMap (prepend_all m q) (prepend_all n r)
SameMap-prepend_all m n q r (u, w, h) k t =
    rw (lookup-prepend_all t m q u, lookup-prepend_all t n r w, h t, k t) refl

pub Listed-Perm : {m n : PartitionMap} → Listed m n → Perm m n
Listed-Perm {m} {n} (u, w, h) = SameMap-Perm m n u w h

pub is_empty-Perm : (m n : PartitionMap) → Perm m n → is_empty m ≡ is_empty n
is_empty-Perm [] [] p = refl
is_empty-Perm [] (x ∷ n) p = absurd (ground (arith, Perm.nil-eq p))
is_empty-Perm (x ∷ m) [] p = absurd (ground (arith, Perm.eq-nil p))
is_empty-Perm (x ∷ m) (y ∷ n) p = refl

keys-flat_map : (m : PartitionMap) → keys m ≡ flat_map (λ e. e.0 ∷ []) m
unfolding keys flat_map
keys-flat_map [] = refl
keys-flat_map ((topic, ps) ∷ m) = ap (λ l. topic ∷ l) (keys-flat_map m)

pub keys-Perm : {m n : PartitionMap} → Perm m n → Perm (keys m) (keys n)
keys-Perm {m} {n} p = rw (keys-flat_map m, keys-flat_map n) (flat_map-Perm _ p)

-- The infos of an assign, and of a revoke, are concatenated topic by topic.
assign_infos-flat_map :
    (c : CommittedOffsets) (m : PartitionMap)
    → assign_infos c m ≡ flat_map (λ e. map (assign_info c e.0) e.1) m
unfolding assign_infos flat_map
assign_infos-flat_map c [] = refl
assign_infos-flat_map c ((topic, ps) ∷ m) =
    ap (λ l. map (assign_info c topic) ps ++ l) (assign_infos-flat_map c m)

revoke_infos-flat_map :
    (m : PartitionMap) → revoke_infos m ≡ flat_map (λ e. map (revoke_info e.0) e.1) m
unfolding revoke_infos flat_map
revoke_infos-flat_map [] = refl
revoke_infos-flat_map ((topic, ps) ∷ m) =
    ap (λ l. map (revoke_info topic) ps ++ l) (revoke_infos-flat_map m)

pub assign_infos-Perm :
    (c : CommittedOffsets) {m n : PartitionMap}
    → Perm m n
    → Perm (assign_infos c m) (assign_infos c n)
assign_infos-Perm c {m} {n} p =
    rw (assign_infos-flat_map c m, assign_infos-flat_map c n) (flat_map-Perm _ p)

pub revoke_infos-Perm : {m n : PartitionMap} → Perm m n → Perm (revoke_infos m) (revoke_infos n)
revoke_infos-Perm {m} {n} p =
    rw (revoke_infos-flat_map m, revoke_infos-flat_map n) (flat_map-Perm _ p)
