-- ===== src/Tests/Fetches.antt =====
-- Tests and instances for fetchNext, handlePollErrors and bail.
use llingr_adapter_franz.Prelude.{
  ℕ, ◌+◌, pos, negsuc, GoString, text, string_eq, true, false, if◌then◌else◌, none, some, List, [],
  ◌∷◌, lookup, insert, delete, ◌≡◌, refl, arith,
}
use llingr_adapter_franz.Foreign.{Record, kafka, wrapped, Fetches, failing}
use llingr_adapter_franz.Decimal.{itoa}
use llingr_adapter_franz.Options.{AdapterOptions, minute, second, default_adapter_options}
use llingr_adapter_franz.PollErrors.{
  time_sub, Streaks, partition_key, err_identity, contains, is_deadline, recovered_keys,
  handle_poll_errors,
}
use llingr_adapter_franz.PollErrors.Keys.{partition_key-injective}
use llingr_adapter_franz.PollErrors.Recovery.{handle_poll_errors_always, handle_poll_errors-always}
use llingr_adapter_franz.PollErrors.Survival.{fails_now, or_now, streak_after_poll}
use llingr_adapter_franz.PollErrors.Bailing.{last_fatal, bails_exactly}
use llingr_adapter_franz.PollErrors.Throttle.{log_lines, throttled}
use llingr_adapter_franz.Fetch.{FetchConfig, FetchState, fetch_next}
use llingr_adapter_franz.Fetch.Sustained.{span, sustained_failure_stops}
use llingr_adapter_franz.Fetch.Refusal.{foreign_record_refused, tells_foreign}
use llingr_adapter_franz.Fetch.Stopping.{fetch_all, shutdowns}

abbrev orders : GoString
orders = text "orders"

abbrev order : Record
order = record { topic = orders; partition = pos 0; offset = pos 42; key = [] }

abbrev stray : Record
stray = record { topic = text "refunds"; partition = pos 0; offset = pos 1; key = [] }

-- Partition 0 delivers, and partition 1 fails.
abbrev pub mixed : Fetches
mixed = record {
  records = order ∷ [];
  errors =
      record {
        topic = orders;
        partition = pos 1;
        err = wrapped (text "fetch") (kafka (pos 6) (text "NOT_LEADER"));
      }
      ∷ [];
  has_err = true;
  client_closed = false;
}

abbrev pub failing_only : Fetches
failing_only = record mixed { records = [] }

abbrev foreign_topic : Fetches
foreign_topic = record mixed { records = stray ∷ [] }

abbrev opts : AdapterOptions
opts = record default_adapter_options { poll_error_bail_after = pos minute }

abbrev key_1 : GoString
key_1 = partition_key orders (pos 1)

abbrev since_zero : Streaks
since_zero = record {
  since = (text "orders-1", 0) ∷ [];
  logged = (text "orders-1", 0) ∷ [];
  last_id = (text "orders-1", text "kafka:6") ∷ [];
}

abbrev config : FetchConfig
config = record { topic_name = orders; opts = opts; has_shutdowner = true }

abbrev running : FetchState
running = record { streaks = since_zero; bailed = false }

-- A clock that has gone back by 300 years.
cut_to_a_duration : time_sub 0 9_467_280_000_000_000_000 ≡ negsuc 9_223_372_036_854_775_807
unfolding time_sub
cut_to_a_duration = refl

identity_of_code :
    err_identity (wrapped (text "fetch") (kafka (pos 6) (text "NOT_LEADER"))) ≡ text "kafka:6"
unfolding err_identity itoa
identity_of_code = refl

partition_key-injective_example : (orders ≡ orders) × (◌≡◌ {A = ℕ} 1 1)
partition_key-injective_example = partition_key-injective orders orders 1 1 refl

handle_poll_errors-always_example :
    handle_poll_errors opts minute mixed since_zero
    ≡ handle_poll_errors_always opts minute mixed since_zero
handle_poll_errors-always_example = handle_poll_errors-always opts minute mixed since_zero (λ h. cc)

streak_after_poll_example :
    lookup (text "orders-1") (handle_poll_errors opts minute mixed since_zero).streaks.since ≡ (
      if contains (text "orders-1") (recovered_keys mixed.records)
      then none
      else or_now
          (fails_now (text "orders-1") mixed.errors)
          minute
          (lookup (text "orders-1") since_zero.since))
streak_after_poll_example =
    streak_after_poll opts minute mixed since_zero (text "orders-1") (λ h. cc)

abbrev two_polls : List (ℕ × Fetches)
two_polls = (1, mixed) ∷ (2, failing_only) ∷ []

bails_after_a_minute :
    (handle_poll_errors opts minute mixed since_zero).bail_reason
    ≡ some (
        failing orders
          (pos 1)
          (pos minute)
          (wrapped (text "fetch") (kafka (pos 6) (text "NOT_LEADER"))))
unfolding time_sub handle_poll_errors default_adapter_options partition_key err_identity itoa lookup
    insert delete is_deadline contains
bails_after_a_minute = refl

bails_exactly_example :
    (handle_poll_errors opts minute mixed since_zero).bail_reason
    ≡ last_fatal opts minute (recovered_keys mixed.records) since_zero mixed.errors
bails_exactly_example = bails_exactly opts minute mixed since_zero (λ h. cc)

throttled_example : log_lines opts (text "orders-1") two_polls since_zero ≡ 0
unfolding time_sub lookup contains recovered_keys partition_key itoa err_identity
    default_adapter_options handle_poll_errors
throttled_example =
    throttled opts (text "orders-1") 0 (text "kafka:6") two_polls since_zero (refl, refl)
      (refl, refl, ((λ e. refl), tt), (λ h. cc), (refl, refl, ((λ e. refl), tt), (λ h. cc), tt))

foreign_record_refused_case :
    let (st', effects, got, exit) = fetch_next config second false foreign_topic running in
    (got ≡ none)
    × (exit ≡ true)
    × (st'.streaks ≡ running.streaks)
    × (st'.bailed ≡ true)
    × (running.bailed ≡ false
        → config.has_shutdowner ≡ true
        → tells_foreign effects stray.topic orders ≡ true)
foreign_record_refused_case =
    foreign_record_refused config second foreign_topic running {r = stray} refl refl (λ e. cc)
      (λ e. ground arith)

-- Partition 1 fails at the start, partition 0 delivers in between, and a minute later it still fails.
abbrev pub no_streaks : FetchState
no_streaks = record { streaks = record { since = []; logged = []; last_id = [] }; bailed = false }

sustained_failure_stops_example :
    let (st', effects) =
      fetch_all config
        (span 1 mixed ((2, false, mixed) ∷ []) (minute + 1) failing_only)
        no_streaks in
    (st'.bailed ≡ true) × (shutdowns effects ≡ 1)
unfolding lookup contains recovered_keys partition_key itoa default_adapter_options is_deadline
sustained_failure_stops_example =
    sustained_failure_stops config no_streaks (text "orders-1") 1 (minute + 1) mixed failing_only
      ((2, false, mixed) ∷ []) (refl, refl, refl, (λ h. cc)) refl (refl, (λ h. cc), tt)
      (refl, refl, refl, (λ h. cc)) (omega arith) (omega arith) (omega arith) refl refl
