-- ===== src/Rebalance/Callbacks.antt =====
-- franzadapter/rebalance.go: any sequence of the client's callbacks and the poll loop's processing,
-- against one FIFO queue for each topic.
use llingr_adapter_franz.Prelude.{
  ℤ, string_eq, Option, none, some, List, [], ◌∷◌, ◌++◌, append-nil, append_assoc, IsMap, ◌≡◌, refl,
  sym, ap, ◌∙◌, arith,
}
use llingr_adapter_franz.Foreign.{GoError}
use llingr_adapter_franz.Effects.{Topic, PartitionMap, RebalanceType, RebalanceInfo, Effect}
use llingr_adapter_franz.Rebalance.{
  RebalanceState, Wiring, partitions_of, on_assigned, on_revoked, on_lost,
  process_pending_rebalances,
}
use llingr_adapter_franz.Rebalance.Queues.{
  AllMaps, queued, assigned_to, append_all-IsMap, partitions_of-append_all,
}
use llingr_adapter_franz.Rebalance.Pending.{
  accepted, told, assigns_conserved, process_pending_rebalances-IsMap,
}

-- What can happen to the adapter between two locked sections.
pub data Event : Type 0 where
  assigned : PartitionMap → Event
  revoked : Wiring → PartitionMap → Event
  lost : Wiring → PartitionMap → Event
  processed : Wiring → (meanwhile : List PartitionMap) → Event

-- The effects of one event, with the error of the processing.
abbrev pub Outcome : Type 0
Outcome = List Effect × Option GoError

unfoldable pub step : Event → RebalanceState → RebalanceState × Outcome
unfolding on_assigned on_revoked on_lost process_pending_rebalances
step (assigned m) s = (on_assigned m s, ([], none))
step (revoked w m) s = (s, (on_revoked w m, none))
step (lost w m) s = (s, (on_lost w m, none))
step (processed w ms) s =
    let (s', effects, err) = process_pending_rebalances w ms s in (s', (effects, err))

unfoldable pub run : List Event → RebalanceState → RebalanceState × List Outcome
unfolding step
run [] s = (s, [])
run (e ∷ es) s = let (s', out) = step e s in let (last, outs) = run es s' in (last, out ∷ outs)

-- An engine is wired, and the callbacks' maps list a topic once.
abbrev pub IsWired : Wiring → Type 0
IsWired w =
    (trigger : RebalanceType → List RebalanceInfo → Option GoError) × (w.adapted_consumer
      ≡ some trigger)

abbrev pub WellFormed : Event → Type 0
WellFormed (assigned m) = IsMap m
WellFormed (revoked w m) = IsWired w × IsMap m
WellFormed (lost w m) = IsWired w × IsMap m
WellFormed (processed w ms) = IsWired w × AllMaps ms

abbrev pub AllWellFormed : List Event → Type 0
AllWellFormed [] = Unit {0}
AllWellFormed (e ∷ es) = WellFormed e × AllWellFormed es

-- What the callbacks of one event, or of all, assign to a topic.
abbrev arrived : Topic → Event → List ℤ
arrived t (assigned m) = partitions_of t m
arrived t (revoked _ _) = []
arrived t (lost _ _) = []
arrived t (processed w ms) = assigned_to t ms

abbrev pub all_arrived : Topic → List Event → List ℤ
all_arrived t [] = []
all_arrived t (e ∷ es) = arrived t e ++ all_arrived t es

abbrev pub all_accepted : Topic → List Outcome → List ℤ
all_accepted t [] = []
all_accepted t (o ∷ os) = accepted t o.0 o.1 ++ all_accepted t os

pub all_arrived-append :
    (t : Topic) (xs ys : List Event)
    → all_arrived t (xs ++ ys) ≡ all_arrived t xs ++ all_arrived t ys
all_arrived-append t [] ys = refl
all_arrived-append t (x ∷ xs) ys =
    ap (λ l. arrived t x ++ l) (all_arrived-append t xs ys)
    ∙ sym (append_assoc (arrived t x) (all_arrived t xs) (all_arrived t ys))

pub all_accepted-append :
    (t : Topic) (xs ys : List Outcome)
    → all_accepted t (xs ++ ys) ≡ all_accepted t xs ++ all_accepted t ys
all_accepted-append t [] ys = refl
all_accepted-append t (x ∷ xs) ys =
    ap (λ l. accepted t x.0 x.1 ++ l) (all_accepted-append t xs ys)
    ∙ sym (append_assoc (accepted t x.0 x.1) (all_accepted t xs) (all_accepted t ys))

told-on_revoked : (t : Topic) (w : Wiring) (m : PartitionMap) → told t (on_revoked w m) ≡ []
unfolding on_revoked
told-on_revoked t w m = ground arith

step_conserved :
    (t : Topic) (e : Event) (s : RebalanceState)
    → WellFormed e
    → IsMap s.pending_assigned
    → let (s', out) = step e s in accepted t out.0 out.1 ++ queued t s' ≡ queued t s ++ arrived t e
unfolding step
step_conserved t (assigned m) s wf h = partitions_of-append_all t m s.pending_assigned wf
step_conserved t (revoked w m) s wf h = rw (told-on_revoked t w m) (sym (append-nil (queued t s)))
step_conserved t (lost w m) s wf h = rw (told-on_revoked t w m) (sym (append-nil (queued t s)))
step_conserved t (processed w ms) s wf h = assigns_conserved w ms s t wf.0.1 h wf.1

step-IsMap :
    (e : Event) (s : RebalanceState)
    → WellFormed e
    → IsMap s.pending_assigned
    → IsMap (step e s).0.pending_assigned
unfolding step
step-IsMap (assigned m) s wf h = append_all-IsMap m s.pending_assigned h
step-IsMap (revoked w m) s wf h = h
step-IsMap (lost w m) s wf h = h
step-IsMap (processed w ms) s wf h = process_pending_rebalances-IsMap w ms s h

-- Over every sequence of callbacks and processings, interleaved in any way and with any answers of
-- the engine and the broker, each topic's assigns pass through as a FIFO queue: those that the engine
-- accepted, in order, followed by those still queued, are those queued at the start followed by all
-- that the callbacks brought, in order. (An engine is wired throughout, and each map lists a topic
-- once.)
pub run_conserved :
    (t : Topic) (es : List Event) (s : RebalanceState)
    → AllWellFormed es
    → IsMap s.pending_assigned
    → all_accepted t (run es s).1 ++ queued t (run es s).0 ≡ queued t s ++ all_arrived t es
unfolding run
run_conserved t [] s wf h = sym (append-nil (queued t s))
run_conserved t (e ∷ es) s wf h =
    let (s', out) = step e s in
    append_assoc (accepted t out.0 out.1) (all_accepted t (run es s').1) (queued t (run es s').0)
    ∙ ap (λ l. accepted t out.0 out.1 ++ l) (run_conserved t es s' wf.1 (step-IsMap e s wf.0 h))
    ∙ sym (append_assoc (accepted t out.0 out.1) (queued t s') (all_arrived t es))
    ∙ ap (λ l. l ++ all_arrived t es) (step_conserved t e s wf.0 h)
    ∙ append_assoc (queued t s) (arrived t e) (all_arrived t es)

pub run-IsMap :
    (es : List Event) (s : RebalanceState)
    → AllWellFormed es
    → IsMap s.pending_assigned
    → IsMap (run es s).0.pending_assigned
unfolding run
run-IsMap [] s wf h = h
run-IsMap (e ∷ es) s wf h = run-IsMap es (step e s).0 wf.1 (step-IsMap e s wf.0 h)

pub AllWellFormed-split :
    (xs ys : List Event) → AllWellFormed (xs ++ ys) → AllWellFormed xs × AllWellFormed ys
AllWellFormed-split [] ys h = (tt, h)
AllWellFormed-split (x ∷ xs) ys h =
    let (front, back) = AllWellFormed-split xs ys h.1 in ((h.0, front), back)
