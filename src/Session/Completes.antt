-- ===== src/Session/Completes.antt =====
-- franzadapter/broker_port.go, Unsubscribe: the release never waits for good.
use llingr_adapter_franz.Prelude.{
  true, List, [], ◌∷◌, ◌≡◌, ◌∙◌, ◌||◌, ◌⊎◌, inl, inr, refl, ap, Bool-cases, arith,
}
use llingr_adapter_franz.Effects.{Effect, await_fetch_loop}
use llingr_adapter_franz.Fetch.{FetchConfig}
use llingr_adapter_franz.Lifecycle.{Shutdown}
use llingr_adapter_franz.Lifecycle.Release.{closes}
use llingr_adapter_franz.Session.{Session, release_step, MayGoOn, releasing, Reach}
use llingr_adapter_franz.Session.Order.{
  IsOrdered, releasing-IsOrdered, Step-IsOrdered, Reach-IsOrdered,
}
use llingr_adapter_franz.Session.LoopEnd.{Steps, here, next, join, loop_ends, AllOwn, join-AllOwn}

Steps-IsOrdered : {c : FetchConfig} {s t : Session} → Steps c s t → IsOrdered s → IsOrdered t
Steps-IsOrdered here h = h
Steps-IsOrdered (next st steps) h = Steps-IsOrdered steps (Step-IsOrdered st h)

-- A wait that the timeout ends needs nobody.
go_or_wait :
    (e : Effect) (s : Session) → MayGoOn e s ⊎ ((e ≡ await_fetch_loop) × (s.loop_stops ≡ true))
go_or_wait await_fetch_loop s = elim (Bool-cases s.loop_stops) [
  | inl stops ↦ inr (refl, stops)
  | inr times_out ↦ inl (λ stops. absurd (ground (arith, stops, times_out)))
]
go_or_wait _ s = inl tt

pub release_step-todo :
    (e : Effect) (rest : List Effect) (s : Session)
    → ((release_step e rest s).todo ≡ rest)
      × ((release_step e rest s).closed ≡ (s.closed || closes (e ∷ [])))
unfolding release_step
release_step-todo e rest s = ground arith

-- The release has made all its calls, the close of the client among them if it was to be made.
abbrev pub Completes : FetchConfig → Shutdown → List Effect → Session → Type 0
Completes c env todo s =
    (t : Session) × (steps : Steps c s t) × AllOwn env steps
    × (t.todo ≡ [])
    × (t.closed ≡ (s.closed || closes todo))

pub closes-cons :
    (e : Effect) (rest : List Effect) → closes (e ∷ rest) ≡ (closes (e ∷ []) || closes rest)
closes-cons e rest = ground arith

release_one :
    (c : FetchConfig) (env : Shutdown) (e : Effect) (rest : List Effect) (s : Session)
    → s.todo ≡ e ∷ rest
    → MayGoOn e s
    → Completes c env rest (release_step e rest s)
    → Completes c env (e ∷ rest) s
release_one c env e rest s h m (t, steps, own, none_left, closed) = (
  t,
  next (releasing e rest h m) steps,
  (tt, own),
  none_left,
  ground (arith, closed, release_step-todo e rest s, closes-cons e rest),
)

cancelled_by_then :
    (s : Session) (rest : List Effect)
    → s.todo ≡ await_fetch_loop ∷ rest
    → IsOrdered s
    → s.gate.cancelled ≡ true
cancelled_by_then s rest h o = ground arith

release_wait :
    (c : FetchConfig) (env : Shutdown) (rest : List Effect) (s : Session)
    → s.todo ≡ await_fetch_loop ∷ rest
    → IsOrdered s
    → s.loop_stops ≡ true
    → ((t : Session) → t.todo ≡ rest → IsOrdered t → Completes c env rest t)
    → Completes c env (await_fetch_loop ∷ rest) s
release_wait c env rest s h o stops finish =
    let (t, steps, own, x, same, as_closed) =
      loop_ends c env s s.gate.loop refl (cancelled_by_then s rest h o) stops in
    let o' = Steps-IsOrdered steps o in
    let (u, more, own', none_left, closed) =
      release_one c env await_fetch_loop rest t (same ∙ h) (λ _. x)
        (finish _ (release_step-todo await_fetch_loop rest t).0
          (releasing-IsOrdered await_fetch_loop rest t (same ∙ h) o')) in
    (
      u,
      join steps more,
      join-AllOwn env steps more own own',
      none_left,
      ground (arith, closed, as_closed),
    )

-- One call more, behind the loop's own steps where the release waits for it.
release_head :
    (c : FetchConfig) (env : Shutdown) (e : Effect) (rest : List Effect) (s : Session)
    → s.todo ≡ e ∷ rest
    → IsOrdered s
    → ((t : Session) → t.todo ≡ rest → IsOrdered t → Completes c env rest t)
    → Completes c env (e ∷ rest) s
release_head c env e rest s h o finish = elim (go_or_wait e s) [
  | inl go ↦
      release_one c env e rest s h go
        (finish _ (release_step-todo e rest s).0 (releasing-IsOrdered e rest s h o))
  | inr (waits, stops) ↦
      rw waits (release_wait c env rest s (h ∙ ap (λ x. x ∷ rest) waits) o stops finish)
]

release_ends :
    (c : FetchConfig) (env : Shutdown) (todo : List Effect) (s : Session)
    → s.todo ≡ todo
    → IsOrdered s
    → Completes c env todo s
release_ends c env [] s h o = (s, here, tt, h, ground arith)
release_ends c env (e ∷ rest) s h o = release_head c env e rest s h o (release_ends c env rest)

-- A release that has begun never waits for good: from every state that the session reaches, steps of
-- the loop alone and of the release, with no help from the engine, lead to the end of the release;
-- and then the client is closed if it was, or if its close was among the calls to be made. A poll has
-- to return only if the wait for the loop does not time out.
pub release-Completes :
    {c : FetchConfig} {s : Session} (env : Shutdown) → Reach c s → Completes c env s.todo s
release-Completes {c} {s} env r = release_ends c env s.todo s refl (Reach-IsOrdered r)
