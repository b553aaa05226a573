-- ===== src/Tests/Listings.antt =====
-- Two orders of iteration over the maps of franzadapter/rebalance.go.
use llingr_adapter_franz.Prelude.{
  pos, text, string_eq, str_beq_iff, Option, none, some, List, [], ◌∷◌, lookup, ◌≡◌, refl, subst,
  true, inr, arith,
}
use mathlib.Core.Option.{some-injective}
use llingr_adapter_franz.Foreign.{GoError, message}
use llingr_adapter_franz.Effects.{Topic, PartitionMap, RebalanceType, assign, revoke, RebalanceInfo}
use llingr_adapter_franz.Rebalance.{CommittedOffsets, RebalanceState, Wiring}
use llingr_adapter_franz.Rebalance.Listings.{Listed}
use llingr_adapter_franz.Rebalance.Callbacks.{Event, assigned, revoked, processed, run}
use llingr_adapter_franz.Rebalance.Seen.{IsBlind, all_seen}
use llingr_adapter_franz.Rebalance.Unordered.{
  SameState, same_end, same_next, same_assigned, same_revoked, same_processed, run_unordered,
}

abbrev orders : Topic
orders = text "orders"

abbrev refunds : Topic
refunds = text "refunds"

abbrev two_topics : PartitionMap
two_topics = (orders, pos 0 ∷ pos 1 ∷ []) ∷ (refunds, pos 4 ∷ []) ∷ []

abbrev turned : PartitionMap
turned = (refunds, pos 4 ∷ []) ∷ (orders, pos 0 ∷ pos 1 ∷ []) ∷ []

turned-Listed : Listed two_topics turned
unfolding lookup
turned-Listed = (
  (refl, (refl, tt)),
  (refl, (refl, tt)),
  λ t. ground (arith, str_beq_iff orders t, str_beq_iff refunds t),
)

-- An engine that refuses assigns.
abbrev draining : RebalanceType → List RebalanceInfo → Option GoError
draining assign _ = some (message (text "engine draining"))
draining revoke _ = none

abbrev committed : CommittedOffsets
committed = (orders, (pos 0, pos 41) ∷ []) ∷ []

abbrev wired : Wiring
wired = record {
  adapted_consumer = some draining;
  fetch_committed_fn = some (λ topics. inr committed);
  assignment_offset_lookup = true;
}

draining_blind :
    (kind : RebalanceType) (xs ys : List RebalanceInfo) → draining kind xs ≡ draining kind ys
draining_blind assign xs ys = refl
draining_blind revoke xs ys = refl

wired-IsBlind : IsBlind wired
wired-IsBlind = (
  λ trigger kind xs ys e p.
      subst (λ f. f kind xs ≡ f kind ys) (some-injective draining trigger e)
        (draining_blind kind xs ys),
  λ fetch xs ys e p. subst (λ f. f xs ≡ f ys) (some-injective _ fetch e) refl,
)

abbrev no_queue : RebalanceState
no_queue = record { pending_assigned = []; pending_revoked = [] }

abbrev in_order : List Event
in_order = assigned two_topics ∷ processed wired (two_topics ∷ []) ∷ revoked wired two_topics ∷ []

abbrev in_turn : List Event
in_turn = assigned turned ∷ processed wired (turned ∷ []) ∷ revoked wired turned ∷ []

run_unordered_example :
    SameState (run in_order no_queue).0 (run in_turn no_queue).0
    × (all_seen (run in_order no_queue).1 ≡ all_seen (run in_turn no_queue).1)
run_unordered_example =
    run_unordered in_order in_turn no_queue no_queue
      (same_next (same_assigned turned-Listed) (
        same_next (same_processed wired wired-IsBlind (turned-Listed, tt))
          (same_next (same_revoked wired wired-IsBlind turned-Listed) same_end)))
      (tt, tt, λ t. refl)
