-- ===== src/Balancers.antt =====
-- franzadapter/compatibility.go: the balancers that CompatibilityBalancers wraps, and the hook that
-- logs which of them was selected. The balancers themselves are franz-go's and enter as values.
use llingr_adapter_franz.Prelude.{
  ℕ, zero, suc, ◌+◌, nat_beq, if◌then◌else◌, Bool, true, false, GoString, text, Option, none, some,
  List, [], ◌∷◌, ◌++◌, map,
}
use llingr_adapter_franz.Foreign.{GoError, wrapped}
use llingr_adapter_franz.Effects.{Effect, PartitionMap, using_balancer, using_fallback, print}
pub mod Fallback

pub data Parsed : Type 0 where
  assignment : PartitionMap → Parsed
  parse_error : GoError → Parsed

-- What the wrapper uses of a kgo.GroupBalancer.
pub record GroupBalancer : Type 0 where
  pub protocol_name : GoString
  pub is_cooperative : Bool
  pub parse : List ℕ → Parsed

pub record LoggingBalancer : Type 0 where
  pub balancer : GroupBalancer
  pub index : ℕ
  pub skipped : List GoString
  pub logged : Bool  -- the sync.Once has run

-- The inner loop: the names at the indices below `i`.
unfoldable pub skipped_names : ℕ → List GroupBalancer → List GoString
skipped_names zero balancers = []
skipped_names (suc i) [] = []
skipped_names (suc i) (b ∷ balancers) = b.protocol_name ∷ skipped_names i balancers

-- The outer loop, from the index `i` on: `rest` is what is left of `balancers`.
unfoldable pub wrap_from : List GroupBalancer → ℕ → List GroupBalancer → List LoggingBalancer
unfolding skipped_names
wrap_from balancers i [] = []
wrap_from balancers i (b ∷ rest) =
    record { balancer = b; index = i; skipped = skipped_names i balancers; logged = false }
    ∷ wrap_from balancers (suc i) rest

-- CompatibilityBalancers, of the four balancers in the order of their priority.
unfoldable pub compatibility_balancers : List GroupBalancer → List LoggingBalancer
unfolding wrap_from
compatibility_balancers balancers = wrap_from balancers 0 balancers

-- strings.Join
unfoldable pub join : GoString → List GoString → GoString
join sep [] = []
join sep (s ∷ []) = s
join sep (s ∷ t ∷ rest) = s ++ sep ++ join sep (t ∷ rest)

unfoldable pub selection : LoggingBalancer → Effect
unfolding join
selection lb =
    let b = lb.balancer in
    if nat_beq lb.index 0
    then print (using_balancer b.protocol_name b.is_cooperative)
    else print (using_fallback b.protocol_name b.is_cooperative (join (text ", ") lb.skipped))

unfoldable pub wrap_error : Parsed → Parsed
wrap_error (assignment partitions) = assignment partitions
wrap_error (parse_error err) = parse_error (wrapped (text "parse sync assignment") err)

unfoldable pub parse_sync_assignment :
    List ℕ → LoggingBalancer → LoggingBalancer × List Effect × Parsed
unfolding selection wrap_error
parse_sync_assignment bytes lb = (
  record lb { logged = true },
  if lb.logged then [] else selection lb ∷ [],
  wrap_error (lb.balancer.parse bytes),
)
