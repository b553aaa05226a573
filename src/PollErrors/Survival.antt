-- ===== src/PollErrors/Survival.antt =====
-- franzadapter/broker_port.go, handlePollErrors: when the streak of a partition starts, survives and
-- ends.
use llingr_adapter_franz.Prelude.{
  ℕ, GoString, string_eq, str_beq_iff, ◌==◌, Bool, false, ◌&&◌, ◌||◌, not, if◌then◌else◌,
  Bool-cases, Option, none, some, get_or, List, [], ◌∷◌, lookup, lookup-insert, ◌≡◌, inl, inr,
  arith,
}
use llingr_adapter_franz.Foreign.{FetchError, Fetches}
use llingr_adapter_franz.Options.{AdapterOptions}
use llingr_adapter_franz.PollErrors.{
  Streaks, Round, Tally, round_of, is_deadline, contains, recovered_keys, clear_recovered, counts,
  on_error, each_error, start_tally, error_key, handle_poll_errors, start_streak,
}
use llingr_adapter_franz.PollErrors.Recovery.{
  handle_poll_errors_always, handle_poll_errors-always, lookup-clear_recovered,
}

-- Some real error of this poll is of the partition with this key.
abbrev pub fails_now : GoString → List FetchError → Bool
fails_now key [] = false
fails_now key (e ∷ errors) = not (is_deadline e.err) && error_key e == key || fails_now key errors

abbrev pub or_now : Bool → ℕ → Option ℕ → Option ℕ
or_now fails now (some start) = some start
or_now fails now none = if fails then some now else none

lookup-start_streak :
    (round : Round) (key k : GoString) (st : Streaks)
    → lookup k (start_streak round key st).since
      ≡ (if key == k then some (get_or (lookup k st.since) round.now) else lookup k st.since)
unfolding start_streak
lookup-start_streak round key k st =
    ground (arith, str_beq_iff key k, lookup-insert key k round.now st.since)

pub lookup-on_error :
    (round : Round) (e : FetchError) (k : GoString) (t : Tally)
    → lookup k (on_error round e t).streaks.since
      ≡ or_now (counts round e && error_key e == k) round.now (lookup k t.streaks.since)
unfolding on_error
lookup-on_error round e k t = ground (arith, lookup-start_streak round (error_key e) k t.streaks)

counts-key :
    (round : Round) (e : FetchError) (k : GoString)
    → (counts round e && error_key e == k)
      ≡ (not (contains k round.recovered) && (not (is_deadline e.err) && error_key e == k))
unfolding counts
counts-key round e k = elim (Bool-cases (error_key e == k)) [
  | inl same ↦ ground (arith, str_beq_iff (error_key e) k)
  | inr other ↦ ground arith
]

pub lookup-each_error :
    (round : Round) (errors : List FetchError) (k : GoString) (t : Tally)
    → lookup k (each_error round errors t).streaks.since
      ≡ or_now
          (not (contains k round.recovered) && fails_now k errors)
          round.now
          (lookup k t.streaks.since)
unfolding each_error
lookup-each_error round [] k t = ground arith
lookup-each_error round (e ∷ errors) k t = ground (
  arith,
  lookup-each_error round errors k (on_error round e t),
  lookup-on_error round e k t,
  counts-key round e k,
)

streak_after_poll_always :
    (opts : AdapterOptions) (now : ℕ) (fetches : Fetches) (st : Streaks) (k : GoString)
    → lookup k (handle_poll_errors_always opts now fetches st).streaks.since ≡ (
        if contains k (recovered_keys fetches.records)
        then none
        else or_now (fails_now k fetches.errors) now (lookup k st.since))
unfolding handle_poll_errors_always
streak_after_poll_always opts now fetches st k =
    let recovered = recovered_keys fetches.records in
    ground (
      arith,
      lookup-each_error (round_of opts now recovered) fetches.errors k
          (start_tally (clear_recovered recovered st)),
      lookup-clear_recovered k recovered st,
    )

-- After each poll the streak of every partition is as documented: a partition that delivered a
-- record has none; else a streak that had begun keeps its start, also in a poll that says nothing of
-- the partition; else one begins now if the poll has a real error of the partition, and otherwise
-- there is none. (`Err()` is nil only if EachError visits nothing.)
pub streak_after_poll :
    (opts : AdapterOptions) (now : ℕ) (fetches : Fetches) (st : Streaks) (k : GoString)
    → (fetches.has_err ≡ false → fetches.errors ≡ [])
    → lookup k (handle_poll_errors opts now fetches st).streaks.since ≡ (
        if contains k (recovered_keys fetches.records)
        then none
        else or_now (fails_now k fetches.errors) now (lookup k st.since))
streak_after_poll opts now fetches st k err =
    rw (handle_poll_errors-always opts now fetches st err)
      (streak_after_poll_always opts now fetches st k)
