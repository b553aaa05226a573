-- ===== src/Wired/Session.antt =====
-- franzadapter/adapter.go, CreateConsumer, and franzadapter/broker_port.go, Subscribe, Unsubscribe and
-- the fetch loop: the session that begins when the engine subscribes the adapter it was given.
use llingr_adapter_franz.Prelude.{
  true, ◌||◌, List, [], ◌∷◌, Bool-cases, inl, inr, ◌≡◌, ◌∙◌, refl, arith,
}
use llingr_adapter_franz.Effects.{Topic, Effect}
use llingr_adapter_franz.Rebalance.{RebalanceState}
use llingr_adapter_franz.Fetch.{FetchConfig, FetchState}
use llingr_adapter_franz.Lifecycle.{Lifecycle, Shutdown, subscribe, unsubscribe, release_broker}
use llingr_adapter_franz.Lifecycle.Release.{closes}
use llingr_adapter_franz.Session.{
  Session, Step, polling, allow, allow_on_exit, shared, unsubscribing, releasing, Reach, began,
  later, subscribed, fetch_step, release_step, unsubscribe_step,
}
use llingr_adapter_franz.Session.LoopEnd.{Steps, here, next, join, AllOwn}
use llingr_adapter_franz.Session.Invariant.{Reach-Inv}
use llingr_adapter_franz.Session.Topic.{AreOurs, only_our_records}
use llingr_adapter_franz.Session.Completes.{release-Completes, release_step-todo, closes-cons}
use llingr_adapter_franz.Creation.{Setup, World, created, create_consumer}
use llingr_adapter_franz.Wired.{lifecycle_of, fetch_config_of}
use llingr_adapter_franz.Wired.Life.{created-opens}
use llingr_adapter_franz.Wired.Hour.{create_consumer-keeps}

-- There are a logger and a client, and once Unsubscribe has begun the client is closed or its close is
-- among the calls to be made.
record ClosesLater (s : Session) : Type 0 where
  pub logger : s.lifecycle.has_logger ≡ true
  pub close : s.lifecycle.has_close ≡ true
  pub due : s.lifecycle.released ≡ true → (s.closed || closes s.todo) ≡ true

release_broker-closes :
    (env : Shutdown) (a : Lifecycle)
    → a.has_logger ≡ true
    → a.has_close ≡ true
    → closes (release_broker env a).0 ≡ true
unfolding release_broker
release_broker-closes env a logs has_close = ground arith

unsubscribing-ClosesLater :
    (env : Shutdown) (s : Session)
    → s.todo ≡ []
    → ClosesLater s
    → ClosesLater (unsubscribe_step env s)
unfolding unsubscribe_step unsubscribe
unsubscribing-ClosesLater env s e h = record {
  logger = ground (arith, h.logger);
  close = ground (arith, h.close);
  due = ground (arith, e, h.due, release_broker-closes env s.lifecycle h.logger h.close);
}

release_step-lifecycle :
    (e : Effect) (rest : List Effect) (s : Session)
    → (release_step e rest s).lifecycle ≡ s.lifecycle
unfolding release_step
release_step-lifecycle e rest s = ground arith

releasing-ClosesLater :
    (e : Effect) (rest : List Effect) (s : Session)
    → s.todo ≡ e ∷ rest
    → ClosesLater s
    → ClosesLater (release_step e rest s)
releasing-ClosesLater e rest s t h = record {
  logger = ground (arith, h.logger, release_step-lifecycle e rest s);
  close = ground (arith, h.close, release_step-lifecycle e rest s);
  due = ground (
    arith,
    t,
    h.due,
    release_step-lifecycle e rest s,
    release_step-todo e rest s,
    closes-cons e rest,
  );
}

Step-ClosesLater : {c : FetchConfig} {s t : Session} → Step c s t → ClosesLater s → ClosesLater t
unfolding fetch_step
Step-ClosesLater (polling now fetches e) h = record {
  logger = h.logger;
  close = h.close;
  due = h.due;
}
Step-ClosesLater (allow e) h = record { logger = h.logger; close = h.close; due = h.due }
Step-ClosesLater (allow_on_exit e) h = record { logger = h.logger; close = h.close; due = h.due }
Step-ClosesLater (shared st e) h = record { logger = h.logger; close = h.close; due = h.due }
Step-ClosesLater {s = s} (unsubscribing env e) h = unsubscribing-ClosesLater env s e h
Step-ClosesLater {s = s} (releasing e rest t m) h = releasing-ClosesLater e rest s t h

Steps-ClosesLater : {c : FetchConfig} {s t : Session} → Steps c s t → ClosesLater s → ClosesLater t
Steps-ClosesLater here h = h
Steps-ClosesLater (next st steps) h = Steps-ClosesLater steps (Step-ClosesLater st h)

Steps-Reach : {c : FetchConfig} {s t : Session} → Steps c s t → Reach c s → Reach c t
Steps-Reach here r = r
Steps-Reach (next st steps) r = Steps-Reach steps (later r st)

-- Steps of the loop alone and of an Unsubscribe, with this end of its waits, lead to the end of the
-- release, with the client closed and no record of another topic returned.
abbrev pub CanClose : FetchConfig → Topic → Shutdown → Session → Type 0
CanClose c topic env s =
    (t : Session) × (steps : Steps c s t) × AllOwn env steps
    × (t.todo ≡ [])
    × (t.closed ≡ true)
    × AreOurs topic t.gate.returned_so_far

unsubscribe_step-released :
    (env : Shutdown) (s : Session) → (unsubscribe_step env s).lifecycle.released ≡ true
unfolding unsubscribe_step unsubscribe
unsubscribe_step-released env s = ground arith

module _ {ℓ} {U : Type ℓ} (w : World) (topic : Topic) (a : Setup U) where
  -- The adapter that CreateConsumer leaves, right after the engine has called Subscribe.
  abbrev pub wired_start : RebalanceState → FetchState → Session
  wired_start rebalance fetch =
      subscribed rebalance fetch (subscribe (lifecycle_of (create_consumer w topic a).0)).0

  abbrev pub wired_config : (create_consumer w topic a).0.has_logger ≡ true → FetchConfig
  wired_config logs = fetch_config_of w.build (create_consumer w topic a).0 logs

  wired_topic :
      (logs : (create_consumer w topic a).0.has_logger ≡ true)
      → (wired_config logs).topic_name ≡ topic
  unfolding fetch_config_of
  wired_topic logs = (create_consumer-keeps w topic a).1

  module _ (h : a.has_client ≡ a.has_close) (done : (create_consumer w topic a).2 ≡ created)
      (logs : (create_consumer w topic a).0.has_logger ≡ true) (rebalance : RebalanceState)
      (fetch : FetchState) where
    wired-Reach : Reach (wired_config logs) (wired_start rebalance fetch)
    unfolding subscribe lifecycle_of
    wired-Reach =
        let has_client = (created-opens w topic a h done).2 in
        began rebalance fetch _ (ground (arith, has_client)) (ground arith)

    wired-ClosesLater : ClosesLater (wired_start rebalance fetch)
    unfolding subscribe lifecycle_of subscribed
    wired-ClosesLater =
        let (_, _, has_client, has_close) = created-opens w topic a h done in
        record {
          logger = ground (arith, logs);
          close = ground (arith, has_close);
          due = ground arith;
        }

  wired-AreOurs :
      (logs : (create_consumer w topic a).0.has_logger ≡ true) {t : Session}
      → Reach (wired_config logs) t
      → AreOurs topic t.gate.returned_so_far
  wired-AreOurs logs {t} r = rw (← wired_topic logs) (only_our_records r)

  unsubscribed_session_closes :
      (rebalance : RebalanceState) (fetch : FetchState) (env : Shutdown) {s : Session}
      → a.has_client ≡ a.has_close
      → (create_consumer w topic a).2 ≡ created
      → (logs : (create_consumer w topic a).0.has_logger ≡ true)
      → Steps (wired_config logs) (wired_start rebalance fetch) s
      → s.lifecycle.released ≡ true
      → CanClose (wired_config logs) topic env s
  unsubscribed_session_closes rebalance fetch env h done logs steps begun =
      let r = Steps-Reach steps (wired-Reach h done logs rebalance fetch) in
      let due =
        (Steps-ClosesLater steps (wired-ClosesLater h done logs rebalance fetch)).due begun in
      let (t, more, own, none_left, closed) = release-Completes env r in
      (t, more, own, none_left, closed ∙ due, wired-AreOurs logs (Steps-Reach more r))

  -- From CreateConsumer to the close: when CreateConsumer has returned a consumer that has a logger,
  -- and the engine has subscribed, then from every state that follows, however the loop, Poll, the
  -- callbacks, bail and Unsubscribe interleave, there are steps that close the client. These are only
  -- the calls of an Unsubscribe that has begun, or of one that begins now, whether or not the loop
  -- stops in its time and whatever LeaveGroup answers, and those of the loop with no other goroutine;
  -- the engine takes none of them, and a poll has to return only if the wait for the loop does not time
  -- out. Every record that Poll has returned by then is of the builder's topic, if that is not empty.
  -- (The client and its close function are set together, as SetClient does.)
  pub session_closes :
      (rebalance : RebalanceState) (fetch : FetchState) (env : Shutdown) {s : Session}
      → a.has_client ≡ a.has_close
      → (create_consumer w topic a).2 ≡ created
      → (logs : (create_consumer w topic a).0.has_logger ≡ true)
      → Steps (wired_config logs) (wired_start rebalance fetch) s
      → CanClose (wired_config logs) topic env s
  session_closes rebalance fetch env {s} h done logs steps =
      elim (Bool-cases s.lifecycle.released) [
        | inl begun ↦ unsubscribed_session_closes rebalance fetch env h done logs steps begun
        | inr fresh ↦
            let idle =
              (Reach-Inv (Steps-Reach steps (wired-Reach h done logs rebalance fetch))).fresh
                fresh in
            let call = unsubscribing env idle.0 in
            let (t, more, own, none_left, closed, ours) =
              unsubscribed_session_closes rebalance fetch env h done logs
                (join steps (next call here)) (unsubscribe_step-released env s) in
            (t, next call more, (refl, own), none_left, closed, ours)
      ]
