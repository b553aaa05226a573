-- ===== src/Session/LoopEnd.antt =====
-- franzadapter/broker_port.go, runFetchLoop: the steps of its own by which a cancelled loop exits.
use llingr_adapter_franz.Prelude.{true, ◌≡◌, ◌∙◌, refl}
use llingr_adapter_franz.Fetch.{FetchConfig}
use llingr_adapter_franz.Lifecycle.{Shutdown}
use llingr_adapter_franz.Gate
use llingr_adapter_franz.Gate.{
  LoopPc, fetching, sending, waiting, allowing, leaving, closing_records, closing_done, exited,
  System, after_signal, call_poll, return_from_poll, start,
}
use llingr_adapter_franz.Session.{
  Session, fetch_step, Step, polling, allow, allow_on_exit, shared, unsubscribing, releasing,
}
use llingr_adapter_franz.Session.Stops.{is_lone, no_fetches, fetch_step-leaves}

pub data Steps (c : FetchConfig) : Session → Session → Type 0 where
  here : {s : Session} → Steps c s s
  next : {s t u : Session} → Step c s t → Steps c t u → Steps c s u

abbrev pub join : {c : FetchConfig} {s t u : Session} → Steps c s t → Steps c t u → Steps c s u
join here k = k
join (next st steps) k = next st (join steps k)

-- The steps of an Unsubscribe, in which the loop's wait and LeaveGroup end as `env` says, and of the
-- loop alone. A poll returns only if the wait is one that the loop's exit ends.
abbrev pub IsOwn : Shutdown → {c : FetchConfig} {s t : Session} → Step c s t → Type 0
IsOwn env {s = s} (polling now fetches e) = s.loop_stops ≡ true
IsOwn env (unsubscribing env' e) = env' ≡ env
IsOwn env (releasing e rest t m) = Unit {0}
IsOwn env (allow e) = Unit {0}
IsOwn env (allow_on_exit e) = Unit {0}
IsOwn env (shared st e) = is_lone st ≡ true

abbrev pub AllOwn : Shutdown → {c : FetchConfig} {s t : Session} → Steps c s t → Type 0
AllOwn env here = Unit {0}
AllOwn env (next st steps) = IsOwn env st × AllOwn env steps

pub join-AllOwn :
    (env : Shutdown) {c : FetchConfig} {s t u : Session} (steps : Steps c s t) (more : Steps c t u)
    → AllOwn env steps
    → AllOwn env more
    → AllOwn env (join steps more)
join-AllOwn env here more h k = k
join-AllOwn env (next st steps) more h k = (h.0, join-AllOwn env steps more h.1 k)

-- Such steps lead to the loop's exit, and leave releaseBroker's calls to be made as they are.
abbrev pub LoopEnds : FetchConfig → Shutdown → Session → Type 0
LoopEnds c env s =
    (t : Session) × (steps : Steps c s t) × AllOwn env steps
    × (t.gate.loop ≡ exited)
    × (t.todo ≡ s.todo)
    × (t.closed ≡ s.closed)

first_step :
    {c : FetchConfig} {env : Shutdown} {s t : Session} (st : Step c s t)
    → IsOwn env st
    → t.todo ≡ s.todo
    → t.closed ≡ s.closed
    → LoopEnds c env t
    → LoopEnds c env s
first_step st own e f (u, steps, all, x, same, as_closed) =
    (u, next st steps, (own, all), x, same ∙ e, as_closed ∙ f)

module _ (c : FetchConfig) (env : Shutdown) where
  closing_done-ends : (s : Session) → s.gate.loop ≡ closing_done → LoopEnds c env s
  closing_done-ends s e =
      (_, next (shared (Gate.close_done e) refl) here, (refl, tt), refl, refl, refl)

  closing_records-ends : (s : Session) → s.gate.loop ≡ closing_records → LoopEnds c env s
  closing_records-ends s e =
      first_step (shared (Gate.close_records e) refl) refl refl refl (closing_done-ends _ refl)

  leaving-ends : (s : Session) → s.gate.loop ≡ leaving → LoopEnds c env s
  leaving-ends s e = first_step (allow_on_exit e) tt refl refl (closing_records-ends _ refl)

  fetching-ends :
      (s : Session)
      → s.gate.loop ≡ fetching
      → s.gate.cancelled ≡ true
      → s.loop_stops ≡ true
      → LoopEnds c env s
  unfolding fetch_step
  fetching-ends s e h stops =
      first_step (polling 0 no_fetches e) stops refl refl
        (leaving-ends _ (fetch_step-leaves c 0 no_fetches s h))

  pub loop_ends :
      (s : Session) (l : LoopPc)
      → s.gate.loop ≡ l
      → s.gate.cancelled ≡ true
      → s.loop_stops ≡ true
      → LoopEnds c env s
  loop_ends s fetching e h stops = fetching-ends s e h stops
  loop_ends s (sending r) e h stops =
      first_step (shared (Gate.drop_record r e h) refl) refl refl refl (leaving-ends _ refl)
  loop_ends s waiting e h stops =
      first_step (shared (Gate.stop_waiting e h) refl) refl refl refl (leaving-ends _ refl)
  loop_ends s allowing e h stops = first_step (allow e) tt refl refl (fetching-ends _ refl h stops)
  loop_ends s leaving e h stops = leaving-ends s e
  loop_ends s closing_records e h stops = closing_records-ends s e
  loop_ends s closing_done e h stops = closing_done-ends s e
  loop_ends s exited e h stops = (s, here, tt, e, refl, refl)
