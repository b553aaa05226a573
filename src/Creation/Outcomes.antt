-- ===== src/Creation/Outcomes.antt =====
-- franzadapter/adapter.go, CreateConsumer: when it returns a consumer, and what a second call does.
use llingr_adapter_franz.Prelude.{
  is_some, Bool, true, false, if◌then◌else◌, not, ◌&&◌, none, ◌≡◌, ◌≢◌, ◌↔◌, arith,
}
use llingr_adapter_franz.Effects.{Topic}
use llingr_adapter_franz.Fetch.{is_empty_text}
use llingr_adapter_franz.Effects.Counting.{how_often}
use llingr_adapter_franz.Validate.{bool}
use llingr_adapter_franz.Validate.Startup.{validate_client-returned}
use llingr_adapter_franz.Creation.{
  Setup, World, created, Build, built, create_consumer, open_and_wire, init_client, set_client,
  validate_and_wire, wire,
}
use llingr_adapter_franz.Creation.Cleanup.{is_open, is_shut, is_created, wire_closes}

-- There is a client, or one can be opened and reached.
abbrev pub is_connected {ℓ} : {U : Type ℓ} → World → Setup U → Bool
is_connected w a =
    if a.has_client
    then true
    else not (is_empty_text a.group_id) && not (is_some w.new_client) && not (is_some w.ping)

abbrev pub can_bail : Build → Bool
can_bail (built true _) = true
can_bail _ = false

module _ {ℓ} {U : Type ℓ} where
  wire-created :
      (w : World) (created_here : Bool) (a : Setup U)
      → let (a', _, outcome) = validate_and_wire w created_here a in
        ((outcome ≡ created) ↔ (
          (w.config.disable_auto_commit ≡ bool true)
          × (w.config.block_rebalance_on_poll ≡ bool true)
          × (can_bail w.build ≡ true)))
        × (a'.has_client ≡ a.has_client)
        × (a'.has_consumer ≡ (if is_created outcome then true else a.has_consumer))
  unfolding validate_and_wire wire
  wire-created w created_here a = ground (arith, validate_client-returned w.config)

  -- CreateConsumer returns a consumer exactly if there is a client (SetClient's, or one of its own,
  -- for which there must be a group, and which NewClient makes and the ping reaches), that client
  -- reports both required options as true, and the builder returns a consumer that can be shut down.
  -- Only then does the adapter hold a consumer it did not hold before.
  pub create_consumer-created :
      (w : World) (topic : Topic) (a : Setup U)
      → let (a', _, outcome) = create_consumer w topic a in
        ((outcome ≡ created) ↔ (
          (is_connected w a ≡ true)
          × (w.config.disable_auto_commit ≡ bool true)
          × (w.config.block_rebalance_on_poll ≡ bool true)
          × (can_bail w.build ≡ true)))
        × (a'.has_consumer ≡ (if is_created outcome then true else a.has_consumer))
  unfolding create_consumer open_and_wire init_client set_client
  create_consumer-created w topic a =
      let fresh = record a { topic_name = topic } in
      let opened = (init_client w fresh).0 in
      ground (arith, wire-created w false fresh, wire-created w true opened)

  -- If CreateConsumer opened and reached a client and the validation or the builder then failed, so
  -- that the client was closed, a second call opens no client: it takes the closed one, and returns
  -- a consumer on it as soon as the validation and the builder accept.
  pub create_consumer-again :
      (w again : World) (topic : Topic) (a : Setup U)
      → a.has_client ≡ false
      → a.has_close ≡ false
      → is_empty_text a.group_id ≡ false
      → w.new_client ≡ none
      → w.ping ≡ none
      → (create_consumer w topic a).2 ≢ created
      → again.config.disable_auto_commit ≡ bool true
      → again.config.block_rebalance_on_poll ≡ bool true
      → can_bail again.build ≡ true
      → let (failed, effects, _) = create_consumer w topic a in
        let (_, effects', outcome') = create_consumer again topic failed in
        (how_often is_open effects ≡ 1)
        × (how_often is_shut effects ≡ 1)
        × (how_often is_open effects' ≡ 0)
        × (outcome' ≡ created)
  unfolding create_consumer open_and_wire init_client set_client
  create_consumer-again w again topic a no_client no_close group made reached fails commit poll
        bails =
      let opened = (init_client w (record a { topic_name = topic })).0 in
      let kept = (validate_and_wire w true opened).0 in
      let retried = record kept { topic_name = topic } in
      ground (
        arith,
        wire-created w true opened,
        wire_closes w true opened,
        wire-created again false retried,
        wire_closes again false retried,
      )
