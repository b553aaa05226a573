-- ===== src/Rebalance/Seen.antt =====
-- franzadapter/rebalance.go: what the engine is told and answers, up to the order within one call.
use llingr_adapter_franz.Prelude.{
  text, is_empty, Option, none, some, List, [], ◌∷◌, ◌++◌, append-nil, if◌then◌else◌, keys, ◌⊎◌,
  ◌≡◌, refl, ap, arith,
}
use mathlib.Core.List.{Perm}
use mathlib.Core.Quot
use mathlib.Core.Quot.{Quot}
use llingr_adapter_franz.Foreign.{GoError}
use llingr_adapter_franz.Effects.{
  Topic, PartitionMap, RebalanceType, assign, revoke, RebalanceInfo, Effect, trigger_rebalance,
}
use llingr_adapter_franz.Rebalance.{
  CommittedOffsets, Wiring, on_revoked, lookup_assignment_offsets, trigger_assign, trigger_revoke,
  assign_infos, wrap, log_revoke_error,
}
use llingr_adapter_franz.Rebalance.Listings.{
  Listed, Listed-Perm, is_empty-Perm, keys-Perm, assign_infos-Perm, revoke_infos-Perm,
}
use llingr_adapter_franz.Rebalance.Callbacks.{Outcome}

-- What the engine is told, as bags: of each TriggerRebalance the kind, and the infos without order.
abbrev pub Bag : Type 0
Bag = Quot (Perm {A = RebalanceInfo})

abbrev pub bags : List Effect → List (RebalanceType × Bag)
bags [] = []
bags (trigger_rebalance kind infos ∷ effects) = (kind, Quot.mk infos) ∷ bags effects
bags (_ ∷ effects) = bags effects

abbrev pub seen : Outcome → List (RebalanceType × Bag) × Option GoError
seen (effects, err) = (bags effects, err)

abbrev pub all_seen : List Outcome → List (List (RebalanceType × Bag) × Option GoError)
all_seen [] = []
all_seen (o ∷ outs) = seen o ∷ all_seen outs

-- The engine's and the broker's answers do not depend on the order within the list that they get.
abbrev pub IsBlind : Wiring → Type 0
IsBlind w =
    ((trigger : RebalanceType → List RebalanceInfo → Option GoError) (kind : RebalanceType)
        (xs ys : List RebalanceInfo)
      → w.adapted_consumer ≡ some trigger
      → Perm xs ys
      → trigger kind xs ≡ trigger kind ys)
    × ((fetch : List Topic → GoError ⊎ CommittedOffsets) (xs ys : List Topic)
        → w.fetch_committed_fn ≡ some fetch
        → Perm xs ys
        → fetch xs ≡ fetch ys)

bags-append : (xs ys : List Effect) → bags (xs ++ ys) ≡ bags xs ++ bags ys
bags-append [] ys = refl
bags-append (x ∷ xs) ys = ground (arith, bags-append xs ys)

bags-lookup : (w : Wiring) (m : PartitionMap) → bags (lookup_assignment_offsets w m).0 ≡ []
unfolding lookup_assignment_offsets
bags-lookup w m = ground arith

seen-trigger_assign :
    (w : Wiring) (m : PartitionMap) (trigger : RebalanceType → List RebalanceInfo → Option GoError)
    → w.adapted_consumer ≡ some trigger
    → let infos = assign_infos (lookup_assignment_offsets w m).1 m in
      seen (trigger_assign w m) ≡ (
        (assign, Quot.mk infos) ∷ [],
        wrap (text "failed to trigger rebalance (assign)") (trigger assign infos),
      )
unfolding trigger_assign
seen-trigger_assign w m trigger e = rw (e, bags-append, bags-lookup w m) refl

module _ (w : Wiring) (blind : IsBlind w) (m n : PartitionMap) (p : Perm m n) where
  same_offsets :
      (o : Option (List Topic → GoError ⊎ CommittedOffsets))
      → w.fetch_committed_fn ≡ o
      → (lookup_assignment_offsets w m).1 ≡ (lookup_assignment_offsets w n).1
  unfolding lookup_assignment_offsets
  same_offsets none e = ground (arith, e)
  same_offsets (some fetch) e = ground (arith, e, blind.1 fetch (keys m) (keys n) e (keys-Perm p))

  -- TriggerAssign answers the same, and tells the engine the same.
  pub same-trigger_assign :
      (o : Option (RebalanceType → List RebalanceInfo → Option GoError))
      → w.adapted_consumer ≡ o
      → seen (trigger_assign w m) ≡ seen (trigger_assign w n)
  unfolding trigger_assign
  same-trigger_assign none e = ground (arith, e)
  same-trigger_assign (some trigger) e =
      let c = (lookup_assignment_offsets w n).1 in
      rw
        (
          seen-trigger_assign w m trigger e,
          seen-trigger_assign w n trigger e,
          same_offsets w.fetch_committed_fn refl,
          blind.0 trigger assign _ _ e (assign_infos-Perm c p),
          Quot.sound (assign_infos-Perm c p),
        )
        refl

  same-trigger_revoke :
      (o : Option (RebalanceType → List RebalanceInfo → Option GoError))
      → w.adapted_consumer ≡ o
      → seen (trigger_revoke w m) ≡ seen (trigger_revoke w n)
  unfolding trigger_revoke
  same-trigger_revoke none e = ground (arith, e)
  same-trigger_revoke (some trigger) e =
      rw (e, blind.0 trigger revoke _ _ e (revoke_infos-Perm p), Quot.sound (revoke_infos-Perm p))
        refl

bags-log_revoke_error : (o : Option GoError) → bags (log_revoke_error o) ≡ []
bags-log_revoke_error none = refl
bags-log_revoke_error (some err) = refl

bags-on_revoked :
    (w : Wiring) (m : PartitionMap)
    → bags (on_revoked w m) ≡ (if is_empty m then [] else bags (trigger_revoke w m).0)
unfolding on_revoked
bags-on_revoked w m = ground (
  arith,
  bags-append (trigger_revoke w m).0 (log_revoke_error (trigger_revoke w m).1),
  bags-log_revoke_error (trigger_revoke w m).1,
  append-nil (bags (trigger_revoke w m).0),
)

pub same-on_revoked :
    (w : Wiring) (m n : PartitionMap)
    → IsBlind w
    → Listed m n
    → bags (on_revoked w m) ≡ bags (on_revoked w n)
same-on_revoked w m n blind h =
    let p = Listed-Perm h in
    let same = ap (λ x. x.0) (same-trigger_revoke w blind m n p w.adapted_consumer refl) in
    rw (bags-on_revoked w m, bags-on_revoked w n, is_empty-Perm m n p, same) refl
