-- ===== src/Creation/Required.antt =====
-- franzadapter/adapter.go, initClient: the order of the client's options. kgo applies options in order;
-- what each of them does to a configuration, and what the client reports of one, are parameters.
use llingr_adapter_franz.Prelude.{
  Bool, true, false, if◌then◌else◌, ◌&&◌, List, [], ◌∷◌, ◌++◌, ◌≡◌, refl, ◌∙◌, arith,
}
use llingr_adapter_franz.Procedure.{returned}
use llingr_adapter_franz.Validate.{bool, ClientConfig, validate_client}
use llingr_adapter_franz.Validate.Startup.{validate_client-returned}
use llingr_adapter_franz.Creation.{
  KgoOpt, seed_brokers, consumer_group, consume_topics, cooperative_sticky, with_logger,
  disable_auto_commit, block_rebalance_on_poll, on_partitions_assigned, on_partitions_revoked,
  on_partitions_lost, with_hooks, Setup, client_opts, required_opts, users,
}

-- The options in order, each on the configuration that the ones before it made.
abbrev pub configure {ℓ κ} :
    {U : Type ℓ} {Config : Type κ}
    → (KgoOpt U → Config → Config)
    → List (KgoOpt U)
    → Config
    → Config
configure apply [] c = c
configure apply (o ∷ options) c = configure apply options (apply o c)

configure-append {ℓ κ} :
    {U : Type ℓ} {Config : Type κ} (apply : KgoOpt U → Config → Config) (xs ys : List (KgoOpt U))
    (c : Config)
    → configure apply (xs ++ ys) c ≡ configure apply ys (configure apply xs c)
configure-append apply [] ys c = refl
configure-append apply (x ∷ xs) ys c = configure-append apply xs ys (apply x c)

abbrev pub is_callback {ℓ} : {U : Type ℓ} → KgoOpt U → Bool
is_callback on_partitions_assigned = true
is_callback on_partitions_revoked = true
is_callback on_partitions_lost = true
is_callback with_hooks = true
is_callback _ = false

abbrev pub is_behind_commit {ℓ} : {U : Type ℓ} → KgoOpt U → Bool
is_behind_commit block_rebalance_on_poll = true
is_behind_commit o = is_callback o

callback-behind {ℓ} : {U : Type ℓ} (o : KgoOpt U) → is_callback o ≡ true → is_behind_commit o ≡ true
callback-behind o h = ground arith

-- What kgo documents of the required options: the first two set their switch, and none of the options
-- that the adapter puts behind them touches either switch.
pub record KeepsRequired {ℓ κ} {U : Type ℓ} {Config : Type κ} (apply : KgoOpt U → Config → Config)
    (report : Config → ClientConfig) : Type (ℓ ⊔ κ) where
  pub sets_commit :
      (c : Config) → (report (apply disable_auto_commit c)).disable_auto_commit ≡ bool true
  pub sets_poll :
      (c : Config) → (report (apply block_rebalance_on_poll c)).block_rebalance_on_poll ≡ bool true
  pub keeps_commit :
      (o : KgoOpt U) (c : Config)
      → is_behind_commit o ≡ true
      → (report (apply o c)).disable_auto_commit ≡ (report c).disable_auto_commit
  pub keeps_poll :
      (o : KgoOpt U) (c : Config)
      → is_callback o ≡ true
      → (report (apply o c)).block_rebalance_on_poll ≡ (report c).block_rebalance_on_poll

module _ {ℓ κ} {U : Type ℓ} {Config : Type κ} (apply : KgoOpt U → Config → Config)
    (report : Config → ClientConfig) (kgo : KeepsRequired apply report) where
  IsReady : Config → Type 0
  IsReady c =
      ((report c).disable_auto_commit ≡ bool true)
      × ((report c).block_rebalance_on_poll ≡ bool true)

  IsReady-callback :
      (o : KgoOpt U) (c : Config) → is_callback o ≡ true → IsReady c → IsReady (apply o c)
  unfolding IsReady
  IsReady-callback o c h r =
      (kgo.keeps_commit o c (callback-behind o h) ∙ r.0, kgo.keeps_poll o c h ∙ r.1)

  abbrev base_opts : Setup U → List (KgoOpt U)
  base_opts a =
      seed_brokers a.brokers
      ∷ consumer_group a.group_id
      ∷ consume_topics a.topic_name
      ∷ cooperative_sticky
      ∷ with_logger a.opts.client_log_level
      ∷ []

  abbrev all_callbacks : List (KgoOpt U) → Bool
  all_callbacks [] = true
  all_callbacks (o ∷ options) = is_callback o && all_callbacks options

  abbrev callbacks : List (KgoOpt U)
  callbacks = on_partitions_assigned ∷ on_partitions_revoked ∷ on_partitions_lost ∷ []

  IsReady-callbacks :
      (options : List (KgoOpt U)) (c : Config)
      → all_callbacks options ≡ true
      → IsReady c
      → IsReady (configure apply options c)
  IsReady-callbacks [] c h r = r
  IsReady-callbacks (o ∷ options) c h r =
      IsReady-callbacks options (apply o c) (ground (arith, h))
        (IsReady-callback o c (ground (arith, h)) r)

  IsReady-switches :
      (c : Config) → IsReady (apply block_rebalance_on_poll (apply disable_auto_commit c))
  unfolding IsReady
  IsReady-switches c = (
    kgo.keeps_commit block_rebalance_on_poll (apply disable_auto_commit c) refl ∙ kgo.sets_commit c,
    kgo.sets_poll (apply disable_auto_commit c),
  )

  IsReady-required :
      (c : Config) (has_collector : Bool)
      → IsReady
          (configure apply (required_opts ++ (if has_collector then with_hooks ∷ [] else [])) c)
  unfolding required_opts
  IsReady-required c true =
      IsReady-callbacks (callbacks ++ with_hooks ∷ []) _ refl (IsReady-switches c)
  IsReady-required c false = IsReady-callbacks callbacks _ refl (IsReady-switches c)

  -- Whatever options the caller passes to NewWithOptions and whatever they do, the client that
  -- initClient makes passes validate.Client: the required options come last, behind the caller's.
  -- Of kgo this uses that options apply in order, that DisableAutoCommit and BlockRebalanceOnPoll
  -- set what OptValue reports of them, and that the options behind each leave it set.
  pub client_opts-validated :
      (a : Setup U) (initial : Config)
      → (validate_client (report (configure apply (client_opts a) initial))).1 ≡ returned
  unfolding client_opts IsReady
  client_opts-validated a initial =
      let c = configure apply (users a.user_opts) (configure apply (base_opts a) initial) in
      rw (configure-append apply (users a.user_opts) _ _)
        ((validate_client-returned _).0.1 (IsReady-required c a.has_collector))
