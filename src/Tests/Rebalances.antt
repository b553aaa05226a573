-- ===== src/Tests/Rebalances.antt =====
-- Tests and instances for the modules of franzadapter/rebalance.go.
use llingr_adapter_franz.Prelude.{
  All, subst, sym, arith, ℤ, pos, negsuc, text, string_eq, int_eq, Option, none, some, List, [],
  ◌∷◌, ◌++◌, Map, lookup, insert, ◌≡◌, refl, inr, inl, if◌then◌else◌, str_beq, true,
}
use llingr_adapter_franz.Foreign.{GoError, message}
use llingr_adapter_franz.Effects.{Topic, PartitionMap, RebalanceType, RebalanceInfo}
use llingr_adapter_franz.Rebalance.{
  CommittedOffsets, RebalanceState, Wiring, OffsetResponse, partitions_of, baseline,
  map_committed_offsets, lookup_assignment_offsets,
}
use mathlib.Core.Option.{some-injective}
use llingr_adapter_franz.Rebalance.Types.{AnswersInt64, IsCall, IsTyped}
use llingr_adapter_franz.Rebalance.Typed.{run-IsTyped}
use llingr_adapter_franz.Rebalance.Queues.{queued}
use llingr_adapter_franz.Rebalance.Pending.{told}
use llingr_adapter_franz.Rebalance.Fetcher.{
  Query, group_of, new_offset_fetcher, with_fetcher, baseline-lookup_assignment_offsets,
}
use llingr_adapter_franz.Rebalance.Callbacks.{
  Event, assigned, revoked, lost, processed, step, run, all_arrived, all_accepted, run_conserved,
}
use llingr_adapter_franz.Rebalance.Revokes.{told_revoked, revokes_are_synchronous, stale_assign}

abbrev orders : Topic
orders = text "orders"

abbrev two_partitions : PartitionMap
two_partitions = (orders, pos 0 ∷ pos 1 ∷ []) ∷ []

abbrev one_more : PartitionMap
one_more = (orders, pos 2 ∷ []) ∷ []

abbrev committed : CommittedOffsets
committed = (orders, (pos 0, pos 41) ∷ (pos 1, negsuc 0) ∷ []) ∷ []

abbrev accepting : RebalanceType → List RebalanceInfo → Option GoError
accepting _ _ = none

abbrev refusing : RebalanceType → List RebalanceInfo → Option GoError
refusing _ _ = some (message (text "engine draining"))

abbrev wired : (RebalanceType → List RebalanceInfo → Option GoError) → Wiring
wired trigger = record {
  adapted_consumer = some trigger;
  fetch_committed_fn = some (λ topics. inr committed);
  assignment_offset_lookup = true;
}

abbrev no_queue : RebalanceState
no_queue = record { pending_assigned = []; pending_revoked = [] }

-- An assign is refused while another arrives, a partition is revoked, and the next poll succeeds.
abbrev history : List Event
history =
    assigned two_partitions
    ∷ processed (wired refusing) (one_more ∷ [])
    ∷ revoked (wired accepting) one_more
    ∷ processed (wired accepting) []
    ∷ []

history_accepted : all_accepted orders (run history no_queue).1 ≡ pos 0 ∷ pos 1 ∷ pos 2 ∷ []
unfolding run insert lookup
history_accepted = refl

run_conserved_example :
    all_accepted orders (run history no_queue).1 ++ queued orders (run history no_queue).0
    ≡ queued orders no_queue ++ all_arrived orders history
unfolding lookup
run_conserved_example =
    run_conserved orders history no_queue
      (
        (refl, tt),
        (
          ((refusing, refl), ((refl, tt), tt)),
          (((accepting, refl), (refl, tt)), (((accepting, refl), tt), tt)),
        ),
      )
      tt

revokes_are_synchronous_example :
    (told_revoked orders (step (revoked (wired refusing) two_partitions) no_queue).1.0
      ≡ partitions_of orders two_partitions)
    × (told_revoked orders (step (lost (wired refusing) two_partitions) no_queue).1.0
        ≡ partitions_of orders two_partitions)
unfolding lookup
revokes_are_synchronous_example =
    revokes_are_synchronous orders (wired refusing) two_partitions no_queue (refusing, refl)
      (refl, tt)

stale_assign_example :
    let (queue, _) = step (assigned two_partitions) no_queue in
    let (after, out) = step (revoked (wired accepting) two_partitions) queue in
    let (_, last) = step (processed (wired accepting) []) after in
    (told_revoked orders out.0 ≡ partitions_of orders two_partitions)
    × (told orders last.0 ≡ partitions_of orders two_partitions)
unfolding lookup
stale_assign_example =
    stale_assign orders (wired accepting) two_partitions no_queue (accepting, refl) (refl, tt) refl

abbrev answer : Map Topic (Map ℤ OffsetResponse)
answer =
    (
      orders,
      (pos 0, record { at = pos 41; err = none })
          ∷ (pos 1, record { at = pos 7; err = some (message (text "not coordinator")) })
          ∷ (pos 2, record { at = negsuc 0; err = none })
          ∷ [],
    )
    ∷ []

baseline_known : baseline (map_committed_offsets answer) orders (pos 0) ≡ pos 41
unfolding baseline map_committed_offsets insert lookup
baseline_known = refl

abbrev query : Query
query group topics = if str_beq group (text "g") then inr answer else inl (message (text "denied"))

abbrev assigned_orders : PartitionMap
assigned_orders = (orders, pos 0 ∷ pos 1 ∷ []) ∷ []

-- The adapter names no group, and the client does.
baseline-lookup_assignment_offsets_example :
    baseline
      (lookup_assignment_offsets
        (with_fetcher true [] (some (text "g")) query (wired accepting))
        assigned_orders).1
      orders
      (pos 0)
    ≡ pos 41
unfolding lookup group_of
baseline-lookup_assignment_offsets_example =
    baseline-lookup_assignment_offsets true [] (some (text "g")) query (wired accepting)
      assigned_orders orders (pos 0) ((refl, tt), ((refl, (refl, (refl, tt))), tt))

no_group :
    new_offset_fetcher [] none query (orders ∷ [])
    ≡ inl (message (text "no consumer group configured"))
unfolding new_offset_fetcher
no_group = refl

wired-AnswersInt64 :
    (trigger : RebalanceType → List RebalanceInfo → Option GoError) → AnswersInt64 (wired trigger)
unfolding lookup
wired-AnswersInt64 trigger fetch topics c t p o e r l =
    let answered = subst (λ f. f topics ≡ inr c) (sym (some-injective _ fetch e)) r in
    ground (arith, answered, l)

two_partitions-IsTyped : IsTyped two_partitions
two_partitions-IsTyped = (((omega arith, omega arith), ((omega arith, omega arith), tt)), tt)

one_more-IsTyped : IsTyped one_more
one_more-IsTyped = (((omega arith, omega arith), tt), tt)

run-IsTyped_example :
    All (λ out. All IsCall out.0) (run history no_queue).1
    × IsTyped (run history no_queue).0.pending_assigned
run-IsTyped_example =
    run-IsTyped history no_queue
      (
        two_partitions-IsTyped,
        (
          (wired-AnswersInt64 refusing, (one_more-IsTyped, tt)),
          (one_more-IsTyped, ((wired-AnswersInt64 accepting, tt), tt)),
        ),
      )
      tt
