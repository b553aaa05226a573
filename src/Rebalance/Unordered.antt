-- ===== src/Rebalance/Unordered.antt =====
-- franzadapter/rebalance.go: the order in which Go iterates over its maps is not seen in what the
-- callbacks and the processing do, but for the order within the list of infos.
use llingr_adapter_franz.Prelude.{
  is_empty, Bool-cases, inl, inr, true, false, Option, none, some, List, [], ◌∷◌, ◌≡◌, refl, ap,
  ◌∙◌,
}
use mathlib.Core.Path.{ap₂}
use llingr_adapter_franz.Foreign.{GoError}
use llingr_adapter_franz.Effects.{PartitionMap}
use llingr_adapter_franz.Rebalance.{
  RebalanceState, Wiring, prepend_all, on_assigned, on_assigned_each, on_lost, trigger_assign,
  process_pending_rebalances,
}
use llingr_adapter_franz.Rebalance.Queues.{append_all-IsMap, prepend_all-IsMap}
use llingr_adapter_franz.Rebalance.Listings.{
  Listed, SameMap-append_all, SameMap-prepend_all, Listed-Perm, is_empty-Perm,
}
use llingr_adapter_franz.Rebalance.Callbacks.{Event, assigned, revoked, lost, processed, step, run}
use llingr_adapter_franz.Rebalance.Seen.{
  seen, all_seen, IsBlind, same-trigger_assign, same-on_revoked,
}

-- The queued assigns of both are listings of one map.
abbrev pub SameState : RebalanceState → RebalanceState → Type 0
SameState s r = Listed s.pending_assigned r.pending_assigned

abbrev pub AllListed : List PartitionMap → List PartitionMap → Type 0
AllListed [] [] = Unit {0}
AllListed (m ∷ ms) (n ∷ ns) = Listed m n × AllListed ms ns
AllListed _ _ = ⊥

on_assigned-SameState :
    (m n : PartitionMap) (s r : RebalanceState)
    → Listed m n
    → SameState s r
    → SameState (on_assigned m s) (on_assigned n r)
unfolding on_assigned
on_assigned-SameState m n s r h (u, v, k) =
    (append_all-IsMap m _ u, append_all-IsMap n _ v, SameMap-append_all m n _ _ h k)

on_assigned_each-SameState :
    (ms ns : List PartitionMap) (s r : RebalanceState)
    → AllListed ms ns
    → SameState s r
    → SameState (on_assigned_each ms s) (on_assigned_each ns r)
unfolding on_assigned_each
on_assigned_each-SameState [] [] s r h k = k
on_assigned_each-SameState [] (n ∷ ns) s r h k = absurd h
on_assigned_each-SameState (m ∷ ms) [] s r h k = absurd h
on_assigned_each-SameState (m ∷ ms) (n ∷ ns) s r h k =
    on_assigned_each-SameState ms ns (on_assigned m s) (on_assigned n r) h.1
      (on_assigned-SameState m n s r h.0 k)

prepended-Listed :
    (m n q r : PartitionMap) → Listed m n → Listed q r → Listed (prepend_all m q) (prepend_all n r)
prepended-Listed m n q r h (u, v, k) =
    (prepend_all-IsMap m q u, prepend_all-IsMap n r v, SameMap-prepend_all m n q r h k)

-- The state that a processing leaves, by the answer of the assign.
abbrev settled : (batch : PartitionMap) → RebalanceState → Option GoError → RebalanceState
settled batch later none = later
settled batch later (some e) = record later {
  pending_assigned = prepend_all batch later.pending_assigned;
}

settled-SameState :
    (m n : PartitionMap) (s r : RebalanceState) (o : Option GoError)
    → Listed m n
    → SameState s r
    → SameState (settled m s o) (settled n r o)
settled-SameState m n s r none h k = k
settled-SameState m n s r (some e) h k =
    prepended-Listed m n s.pending_assigned r.pending_assigned h k

module _ (w : Wiring) (ms : List PartitionMap) (s : RebalanceState) where
  process_nothing :
      is_empty s.pending_assigned ≡ true
      → process_pending_rebalances w ms s ≡ (on_assigned_each ms s, [], none)
  unfolding process_pending_rebalances
  process_nothing h = rw h refl

  process_batch :
      (o : Option GoError)
      → is_empty s.pending_assigned ≡ false
      → (trigger_assign w s.pending_assigned).1 ≡ o
      → process_pending_rebalances w ms s ≡ (
        settled s.pending_assigned (on_assigned_each ms (record s { pending_assigned = [] })) o,
        (trigger_assign w s.pending_assigned).0,
        o,
      )
  unfolding process_pending_rebalances
  process_batch none h e = rw (h, e) refl
  process_batch (some err) h e = rw (h, e) refl

process-Same :
    (w : Wiring) (ms ns : List PartitionMap) (s r : RebalanceState)
    → IsBlind w
    → AllListed ms ns
    → SameState s r
    → let (s', told, err) = process_pending_rebalances w ms s in
      let (r', told', err') = process_pending_rebalances w ns r in
      SameState s' r' × (seen (told, err) ≡ seen (told', err'))
process-Same w ms ns s r blind h k =
    let m = s.pending_assigned in
    let n = r.pending_assigned in
    let p = Listed-Perm k in
    let same = same-trigger_assign w blind m n p w.adapted_consumer refl in
    elim (Bool-cases (is_empty n)) [
      | inl none_queued ↦
          rw
            (
              process_nothing w ms s (is_empty-Perm m n p ∙ none_queued),
              process_nothing w ns r none_queued,
            )
            (on_assigned_each-SameState ms ns s r h k, refl)
      | inr queued ↦
          let o = (trigger_assign w n).1 in
          rw
            (
              process_batch w ms s o (is_empty-Perm m n p ∙ queued) (ap (λ x. x.1) same),
              process_batch w ns r o queued refl,
            )
            (
              settled-SameState m n _ _ o k (
                  on_assigned_each-SameState ms ns (record s { pending_assigned = [] })
                    (record r { pending_assigned = [] }) h (tt, tt, λ t. refl)),
              ap (λ x. (x.0, o)) same,
            )
    ]

-- The same event, on maps that may be listed in other orders.
pub data SameEvent : Event → Event → Type 0 where
  same_assigned : {m n : PartitionMap} → Listed m n → SameEvent (assigned m) (assigned n)
  same_revoked :
      {m n : PartitionMap} (w : Wiring)
      → IsBlind w
      → Listed m n
      → SameEvent (revoked w m) (revoked w n)
  same_lost :
      {m n : PartitionMap} (w : Wiring) → IsBlind w → Listed m n → SameEvent (lost w m) (lost w n)
  same_processed :
      {ms ns : List PartitionMap} (w : Wiring)
      → IsBlind w
      → AllListed ms ns
      → SameEvent (processed w ms) (processed w ns)

pub data SameEvents : List Event → List Event → Type 0 where
  same_end : SameEvents [] []
  same_next :
      {e f : Event} {es fs : List Event}
      → SameEvent e f
      → SameEvents es fs
      → SameEvents (e ∷ es) (f ∷ fs)

step-Same :
    (e f : Event) (s r : RebalanceState)
    → SameEvent e f
    → SameState s r
    → SameState (step e s).0 (step f r).0 × (seen (step e s).1 ≡ seen (step f r).1)
unfolding step
step-Same _ _ s r (same_assigned {m} {n} h) k = (on_assigned-SameState m n s r h k, refl)
step-Same _ _ s r (same_revoked {m} {n} w blind h) k =
    (k, ap (λ x. (x, none)) (same-on_revoked w m n blind h))
step-Same _ _ s r (same_lost {m} {n} w blind h) k =
    (k, unfold on_lost in ap (λ x. (x, none)) (same-on_revoked w m n blind h))
step-Same _ _ s r (same_processed {ms} {ns} w blind h) k = process-Same w ms ns s r blind h k

-- The order in which Go iterates over its maps is not seen: of two runs of the same callbacks and
-- processings, on maps that are listed in other orders, each leaves the same queue for every topic,
-- and tells the engine, call by call, the same partitions with the same baselines up to their order
-- within the call, and returns the same errors. (The answers of the engine and of the broker do not
-- depend on the order within the list that they get.)
pub run_unordered :
    (es fs : List Event) (s r : RebalanceState)
    → SameEvents es fs
    → SameState s r
    → SameState (run es s).0 (run fs r).0 × (all_seen (run es s).1 ≡ all_seen (run fs r).1)
unfolding run
run_unordered _ _ s r same_end k = (k, refl)
run_unordered _ _ s r (same_next {e} {f} {es} {fs} h hs) k =
    let (next, one) = step-Same e f s r h k in
    let (last, rest) = run_unordered es fs (step e s).0 (step f r).0 hs next in
    (last, ap₂ (λ x xs. x ∷ xs) one rest)
