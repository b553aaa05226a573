-- ===== src/Wired/Life.antt =====
-- franzadapter/adapter.go, CreateConsumer, and franzadapter/broker_port.go, Subscribe and Unsubscribe:
-- the client from its creation to its close.
use llingr_adapter_franz.Prelude.{Bool, true, false, if◌then◌else◌, List, [], ◌∷◌, ◌≡◌, refl, arith}
use llingr_adapter_franz.Effects.{Topic}
use llingr_adapter_franz.Lifecycle.{Lifecycle, Shutdown, subscribe, unsubscribe}
use llingr_adapter_franz.Effects.Counting.{how_often, how_often-append}
use llingr_adapter_franz.Lifecycle.Once.{
  Call, subscribing, unsubscribing, run_calls, is_leave, is_close, at_most_once,
}
use llingr_adapter_franz.Creation.{
  Setup, World, created, create_consumer, open_and_wire, validate_and_wire, wire, init_client,
  set_client,
}
use llingr_adapter_franz.Creation.Cleanup.{is_open, is_shut, wire_closes}
use llingr_adapter_franz.Wired.{lifecycle_of}

-- Unsubscribe is called.
abbrev pub unsubscribes : List Call → Bool
unsubscribes [] = false
unsubscribes (subscribing ∷ calls) = unsubscribes calls
unsubscribes (unsubscribing _ ∷ _) = true

-- There is a client and a logger, and no release has begun.
record Whole (a : Lifecycle) : Type 0 where
  pub logger : a.has_logger ≡ true
  pub leave : a.has_leave ≡ true
  pub close : a.has_close ≡ true
  pub fresh : a.released ≡ false

subscribe-Whole :
    (a : Lifecycle)
    → Whole a
    → let (a', p) = subscribe a in
      Whole a' × (how_often is_leave p.0 ≡ 0) × (how_often is_close p.0 ≡ 0)
unfolding subscribe
subscribe-Whole a h = (
  record {
    logger = ground (arith, h.logger);
    leave = ground (arith, h.leave);
    close = ground (arith, h.close);
    fresh = ground (arith, h.fresh);
  },
  ground arith,
  ground arith,
)

unsubscribe-Whole :
    (env : Shutdown) (a : Lifecycle)
    → Whole a
    → let (a', p) = unsubscribe env a in
      (a'.released ≡ true) × (how_often is_leave p.0 ≡ 1) × (how_often is_close p.0 ≡ 1)
unfolding unsubscribe
unsubscribe-Whole env a h = ground (arith, h.logger, h.leave, h.close, h.fresh)

run_calls-once :
    (calls : List Call) (a : Lifecycle)
    → Whole a
    → unsubscribes calls ≡ true
    → let effects = (run_calls calls a).1 in
      (how_often is_leave effects ≡ 1) × (how_often is_close effects ≡ 1)
unfolding run_calls
run_calls-once [] a h called = ground arith
run_calls-once (subscribing ∷ calls) a h called =
    let (a', p) = subscribe a in
    let (whole, leaves, closes) = subscribe-Whole a h in
    let effects = (run_calls calls a').1 in
    ground (
      arith,
      leaves,
      closes,
      run_calls-once calls a' whole called,
      how_often-append is_leave p.0 effects,
      how_often-append is_close p.0 effects,
    )
run_calls-once (unsubscribing env ∷ calls) a h called =
    let (a', p) = unsubscribe env a in
    let effects = (run_calls calls a').1 in
    ground (
      arith,
      unsubscribe-Whole env a h,
      at_most_once calls a',
      how_often-append is_leave p.0 effects,
      how_often-append is_close p.0 effects,
    )

module _ {ℓ} {U : Type ℓ} where
  pub created-opens :
      (w : World) (topic : Topic) (a : Setup U)
      → a.has_client ≡ a.has_close
      → (create_consumer w topic a).2 ≡ created
      → let (a', effects, _) = create_consumer w topic a in
        (how_often is_open effects ≡ (if a.has_client then 0 else 1))
        × (how_often is_shut effects ≡ 0)
        × (a'.has_client ≡ true)
        × (a'.has_close ≡ true)
  unfolding create_consumer open_and_wire init_client set_client validate_and_wire wire
  created-opens w topic a h done =
      let fresh = record a { topic_name = topic } in
      let opened = (init_client w fresh).0 in
      ground (arith, wire_closes w false fresh, wire_closes w true opened)

  -- From the creation to the release: when CreateConsumer returns a consumer that has a logger, it has
  -- opened the client (none if SetClient gave one) and closed none; and over any sequence of Subscribe
  -- and Unsubscribe calls after it, whatever the fetch loop and the broker do, with at least one
  -- Unsubscribe among them, the group is left exactly once and that client closed exactly once. (The
  -- client and its close function are set together, as SetClient does.)
  pub opened_client_closed_once :
      (w : World) (topic : Topic) (a : Setup U) (calls : List Call)
      → a.has_client ≡ a.has_close
      → (create_consumer w topic a).2 ≡ created
      → (create_consumer w topic a).0.has_logger ≡ true
      → unsubscribes calls ≡ true
      → let (a', effects, _) = create_consumer w topic a in
        let effects' = (run_calls calls (lifecycle_of a')).1 in
        (how_often is_open effects ≡ (if a.has_client then 0 else 1))
        × (how_often is_shut effects ≡ 0)
        × (how_often is_leave effects' ≡ 1)
        × (how_often is_close effects' ≡ 1)
  unfolding lifecycle_of
  opened_client_closed_once w topic a calls h done logs called =
      let a' = (create_consumer w topic a).0 in
      let (opens, shuts, has_client, has_close) = created-opens w topic a h done in
      let once =
        run_calls-once calls (lifecycle_of a')
          (record { logger = logs; leave = has_client; close = has_close; fresh = refl }) called in
      (opens, shuts, once.0, once.1)
