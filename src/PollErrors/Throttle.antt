-- ===== src/PollErrors/Throttle.antt =====
-- franzadapter/broker_port.go, handlePollErrors: how often the error of one partition is logged.
use llingr_adapter_franz.Prelude.{
  ℕ, ◌+◌, suc, leb_ℤ, GoString, string_eq, str_beq_iff, ◌==◌, false, if◌then◌else◌, some, get_or,
  List, [], ◌∷◌, ◌++◌, lookup, lookup-insert, lookup-delete, ◌≡◌, refl, ◌∙◌, arith,
}
use llingr_adapter_franz.Foreign.{FetchError, Fetches}
use llingr_adapter_franz.Effects.{Effect, log, poll_error, error}
use llingr_adapter_franz.Options.{AdapterOptions}
use llingr_adapter_franz.PollErrors.{
  time_sub, Streaks, Round, Tally, round_of, partition_key, contains, recovered_keys,
  clear_recovered, err_identity, on_error, start_streak, each_error, start_tally, error_key,
  handle_poll_errors, log_interval,
}
use llingr_adapter_franz.PollErrors.Recovery.{handle_poll_errors_always, handle_poll_errors-always}

-- How many of the effects log a poll error of the partition with this key.
abbrev pub lines : GoString → List Effect → ℕ
lines k [] = 0
lines k (log _ (poll_error topic partition _ _) ∷ effects) =
    let rest = lines k effects in if partition_key topic partition == k then suc rest else rest
lines k (_ ∷ effects) = lines k effects

lines-append : (k : GoString) (xs ys : List Effect) → lines k (xs ++ ys) ≡ lines k xs + lines k ys
lines-append k [] ys = omega arith
lines-append k (log s (poll_error t p u e) ∷ xs) ys = ground (arith, lines-append k xs ys)
lines-append k (_ ∷ xs) ys = lines-append k xs ys

-- The error that was logged last for the partition, and when.
abbrev pub Logged : GoString → ℕ → GoString → Streaks → Type 0
Logged k last id st = (lookup k st.logged ≡ some last) × (lookup k st.last_id ≡ some id)

-- Each error of the partition is the same one.
abbrev pub SameError : GoString → GoString → List FetchError → Type 0
SameError k id [] = Unit {0}
SameError k id (e ∷ errors) = (error_key e ≡ k → err_identity e.err ≡ id) × SameError k id errors

start_streak-Logged :
    (round : Round) (key k : GoString) (st : Streaks) {last : ℕ} {id : GoString}
    → Logged k last id st
    → Logged k last id (start_streak round key st)
unfolding start_streak
start_streak-Logged round key k st h = ground arith

module _ (round : Round) (k : GoString) (last : ℕ) (id : GoString)
    (within : leb_ℤ round.log_every (time_sub round.now last) ≡ false) where
  on_error-quiet :
      (e : FetchError) (t : Tally)
      → (error_key e ≡ k → err_identity e.err ≡ id)
      → Logged k last id t.streaks
      → Logged k last id (on_error round e t).streaks
        × (lines k (on_error round e t).effects ≡ lines k t.effects)
  unfolding on_error
  on_error-quiet e t same h = ground (
    arith,
    str_beq_iff (error_key e) k,
    str_beq_iff id id,
    start_streak-Logged round (error_key e) k t.streaks h,
    lookup-insert (error_key e) k round.now (start_streak round (error_key e) t.streaks).logged,
    lookup-insert (error_key e) k (err_identity e.err)
        (start_streak round (error_key e) t.streaks).last_id,
    lines-append k t.effects (
        log error (
          poll_error e.topic e.partition
            (time_sub round.now (get_or (lookup (error_key e) t.streaks.since) round.now)) e.err)
        ∷ []),
  )

  each_error-quiet :
      (errors : List FetchError) (t : Tally)
      → SameError k id errors
      → Logged k last id t.streaks
      → Logged k last id (each_error round errors t).streaks
        × (lines k (each_error round errors t).effects ≡ lines k t.effects)
  unfolding each_error
  each_error-quiet [] t same h = (h, refl)
  each_error-quiet (e ∷ errors) t same h =
      let (h', n) = on_error-quiet e t same.0 h in
      let (h'', m) = each_error-quiet errors (on_error round e t) same.1 h' in (h'', m ∙ n)

clear_recovered-Logged :
    (k : GoString) (keys : List GoString) (st : Streaks) {last : ℕ} {id : GoString}
    → contains k keys ≡ false
    → Logged k last id st
    → Logged k last id (clear_recovered keys st)
unfolding clear_recovered contains
clear_recovered-Logged k [] st absent h = h
clear_recovered-Logged k (j ∷ keys) st absent h = clear_recovered-Logged k keys _ (ground arith) (
  ground (arith, lookup-delete j k st.logged, str_beq_iff j k),
  ground (arith, lookup-delete j k st.last_id, str_beq_iff j k),
)

handle_poll_errors-quiet :
    (opts : AdapterOptions) (now : ℕ) (fetches : Fetches) (st : Streaks) (k : GoString) (last : ℕ)
    (id : GoString)
    → leb_ℤ (log_interval opts) (time_sub now last) ≡ false
    → contains k (recovered_keys fetches.records) ≡ false
    → SameError k id fetches.errors
    → Logged k last id st
    → let out = handle_poll_errors_always opts now fetches st in
      Logged k last id out.streaks × (lines k out.effects ≡ 0)
unfolding handle_poll_errors_always
handle_poll_errors-quiet opts now fetches st k last id within absent same h =
    let recovered = recovered_keys fetches.records in
    each_error-quiet (round_of opts now recovered) k last id within fetches.errors
      (start_tally (clear_recovered recovered st)) same
      (clear_recovered-Logged k recovered st absent h)

-- The lines about one partition that a sequence of polls logs.
pub log_lines : AdapterOptions → GoString → List (ℕ × Fetches) → Streaks → ℕ
log_lines opts k [] st = 0
log_lines opts k ((now, fetches) ∷ polls) st =
    let out = handle_poll_errors opts now fetches st in
    lines k out.effects + log_lines opts k polls out.streaks

-- Each poll falls within the log interval of `last`, has no record of the partition, has no other
-- error of it than the one with the identity `id`, and obeys the law of `Err()`.
abbrev pub WithinInterval : AdapterOptions → GoString → ℕ → GoString → List (ℕ × Fetches) → Type 0
WithinInterval opts k last id [] = Unit {0}
WithinInterval opts k last id ((now, fetches) ∷ polls) =
    (leb_ℤ (log_interval opts) (time_sub now last) ≡ false)
    × (contains k (recovered_keys fetches.records) ≡ false)
    × SameError k id fetches.errors
    × (fetches.has_err ≡ false → fetches.errors ≡ [])
    × WithinInterval opts k last id polls

-- The log is throttled: once an error of a partition has been logged, any number of polls within the
-- log interval that report the same error of it, and deliver no record of it, log nothing more about
-- that partition.
pub throttled :
    (opts : AdapterOptions) (k : GoString) (last : ℕ) (id : GoString) (polls : List (ℕ × Fetches))
    (st : Streaks)
    → Logged k last id st
    → WithinInterval opts k last id polls
    → log_lines opts k polls st ≡ 0
unfolding log_lines
throttled opts k last id [] st h w = refl
throttled opts k last id ((now, fetches) ∷ polls) st h w =
    rw (handle_poll_errors-always opts now fetches st w.3) (
      let (h', n) = handle_poll_errors-quiet opts now fetches st k last id w.0 w.1 w.2 h in
      omega (
        arith,
        throttled opts k last id polls (handle_poll_errors_always opts now fetches st).streaks h'
            w.4,
      ))
