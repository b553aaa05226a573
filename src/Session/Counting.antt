-- ===== src/Session/Counting.antt =====
-- franzadapter/broker_port.go: kinds of effects that only fetchNext has in a session.
use llingr_adapter_franz.Prelude.{◌+◌, Bool, false, List, [], ◌∷◌, ◌++◌, ◌≡◌, arith}
use llingr_adapter_franz.Effects.{Effect, allow_rebalance}
use llingr_adapter_franz.Effects.Counting.{how_often, how_often-append}
use llingr_adapter_franz.Fetch.{FetchConfig, fetch_next}
use llingr_adapter_franz.Lifecycle.{Lifecycle, Shutdown, unsubscribe, release_broker}
use llingr_adapter_franz.Session.{
  Session, Step, polling, allow, allow_on_exit, shared, unsubscribing, releasing, fetch_step,
  release_step, unsubscribe_step,
}

-- Neither AllowRebalance nor a release is of this kind.
pub record IsFetchOnly (test : Effect → Bool) : Type 0 where
  pub allows : test allow_rebalance ≡ false
  pub releases : (env : Shutdown) (a : Lifecycle) → how_often test (release_broker env a).0 ≡ 0

-- The effects of fetchNext in this step.
abbrev pub polled : {c : FetchConfig} {s t : Session} → Step c s t → List Effect
polled {c} {s} (polling now fetches e) = (fetch_next c now s.gate.cancelled fetches s.fetch).1
polled (allow e) = []
polled (allow_on_exit e) = []
polled (shared st e) = []
polled (unsubscribing env e) = []
polled (releasing e rest t m) = []

module _ (test : Effect → Bool) (h : IsFetchOnly test) where
  -- None is among the calls that the release has yet to make, and the step has those of fetchNext.
  abbrev pub Counts : Session → Session → List Effect → Type 0
  Counts s t effects =
      (how_often test t.todo ≡ 0)
      × (how_often test t.trace ≡ how_often test s.trace + how_often test effects)

  allow-count :
      (s : Session) → how_often test (s.trace ++ allow_rebalance ∷ []) ≡ how_often test s.trace
  allow-count s = ground (arith, h.allows, how_often-append test s.trace (allow_rebalance ∷ []))

  releasing-Counts :
      (e : Effect) (rest : List Effect) (s : Session)
      → s.todo ≡ e ∷ rest
      → how_often test s.todo ≡ 0
      → Counts s (release_step e rest s) []
  unfolding release_step
  releasing-Counts e rest s t none_left =
      ground (arith, t, none_left, how_often-append test s.trace (e ∷ []))

  unsubscribing-Counts :
      (env : Shutdown) (s : Session)
      → how_often test s.todo ≡ 0
      → Counts s (unsubscribe_step env s) []
  unfolding unsubscribe_step unsubscribe
  unsubscribing-Counts env s none_left = ground (arith, h.releases env s.lifecycle)

  pub Step-Counts :
      {c : FetchConfig} {s t : Session} (st : Step c s t)
      → how_often test s.todo ≡ 0
      → Counts s t (polled st)
  unfolding fetch_step
  Step-Counts {c} {s} (polling now fetches e) none_left =
      let effects = (fetch_next c now s.gate.cancelled fetches s.fetch).1 in
      (none_left, how_often-append test s.trace effects)
  Step-Counts {s = s} (allow e) none_left = (none_left, ground (arith, allow-count s))
  Step-Counts {s = s} (allow_on_exit e) none_left = (none_left, ground (arith, allow-count s))
  Step-Counts (shared st e) none_left = (none_left, ground arith)
  Step-Counts {s = s} (unsubscribing env e) none_left = unsubscribing-Counts env s none_left
  Step-Counts {s = s} (releasing e rest t m) none_left = releasing-Counts e rest s t none_left
