-- ===== src/Fetch/Sustained.antt =====
-- franzadapter/broker_port.go, fetchNext, handlePollErrors and bail together: what a partition that
-- goes on failing leads to over the polls of a fetch loop.
use llingr_adapter_franz.Prelude.{
  ℕ, pos, sub_ℕ, ◌≤ℤ◌, ◌<ℤ◌, GoString, string_eq, str_beq_iff, Bool, true, false, is_some, some,
  get_or, List, [], ◌∷◌, ◌++◌, lookup, ◌≡◌, refl, arith,
}
use llingr_adapter_franz.Foreign.{FetchError, Fetches}
use llingr_adapter_franz.Options.{AdapterOptions}
use llingr_adapter_franz.PollErrors.{max_duration, Streaks, contains, recovered_keys, error_key}
use llingr_adapter_franz.PollErrors.Duration.{time_sub-reaches}
use llingr_adapter_franz.PollErrors.Survival.{fails_now, streak_after_poll}
use llingr_adapter_franz.PollErrors.Bailing.{overdue, last_fatal, bails_exactly}
use llingr_adapter_franz.Fetch.{
  FetchConfig, FetchState, fetch_next, first_record, is_foreign, bail_if,
}
use llingr_adapter_franz.Fetch.Stopping.{fetch_all, shutdowns, shutdown_told_once}

-- `Err()` is nil only if EachError visits nothing.
abbrev pub Lawful : Fetches → Type 0
Lawful fetches = fetches.has_err ≡ false → fetches.errors ≡ []

-- No poll has a record of the partition with this key.
abbrev pub Starved : GoString → List (ℕ × Bool × Fetches) → Type 0
Starved k [] = Unit {0}
Starved k ((_, _, fetches) ∷ polls) =
    (contains k (recovered_keys fetches.records) ≡ false) × Lawful fetches × Starved k polls

-- The poll of an open client has a real error of the partition and no record of it.
abbrev pub Fails : GoString → Fetches → Type 0
Fails k fetches =
    (fetches.client_closed ≡ false)
    × (contains k (recovered_keys fetches.records) ≡ false)
    × (fails_now k fetches.errors ≡ true)
    × Lawful fetches

last_fatal-is_some :
    (opts : AdapterOptions) (now : ℕ) (recovered : List GoString) (st : Streaks) (k : GoString)
    (errors : List FetchError)
    → contains k recovered ≡ false
    → overdue opts.poll_error_bail_after now (lookup k st.since) ≡ true
    → fails_now k errors ≡ true
    → is_some (last_fatal opts now recovered st errors) ≡ true
last_fatal-is_some opts now recovered st k [] absent late fails = ground arith
last_fatal-is_some opts now recovered st k (e ∷ errors) absent late fails = ground (
  arith,
  last_fatal-is_some opts now recovered st k errors absent late,
  str_beq_iff (error_key e) k,
)

fetch_next-since :
    (c : FetchConfig) (now : ℕ) (cancelled : Bool) (fetches : Fetches) (st : FetchState)
    (k : GoString) {start : ℕ}
    → contains k (recovered_keys fetches.records) ≡ false
    → Lawful fetches
    → lookup k st.streaks.since ≡ some start
    → lookup k (fetch_next c now cancelled fetches st).0.streaks.since ≡ some start
unfolding fetch_next
fetch_next-since c now cancelled fetches st k absent law h =
    ground (arith, streak_after_poll c.opts now fetches st.streaks k law)

fetch_all-since :
    (c : FetchConfig) (polls : List (ℕ × Bool × Fetches)) (st : FetchState) (k : GoString)
    {start : ℕ}
    → Starved k polls
    → lookup k st.streaks.since ≡ some start
    → lookup k (fetch_all c polls st).0.streaks.since ≡ some start
unfolding fetch_all
fetch_all-since c [] st k quiet h = h
fetch_all-since c ((now, cancelled, fetches) ∷ polls) st k quiet h =
    fetch_all-since c polls (fetch_next c now cancelled fetches st).0 k quiet.2
      (fetch_next-since c now cancelled fetches st k quiet.0 quiet.1 h)

fetch_all-append :
    (c : FetchConfig) (xs ys : List (ℕ × Bool × Fetches)) (st : FetchState)
    → (fetch_all c (xs ++ ys) st).0 ≡ (fetch_all c ys (fetch_all c xs st).0).0
unfolding fetch_all
fetch_all-append c [] ys st = refl
fetch_all-append c ((now, cancelled, fetches) ∷ xs) ys st =
    fetch_all-append c xs ys (fetch_next c now cancelled fetches st).0

-- The first failing poll begins the streak, if it had not begun before.
first_failure-since :
    (c : FetchConfig) (now : ℕ) (fetches : Fetches) (st : FetchState) (k : GoString)
    → Fails k fetches
    → is_foreign c.topic_name (first_record fetches.records) ≡ false
    → lookup k (fetch_next c now false fetches st).0.streaks.since
      ≡ some (get_or (lookup k st.streaks.since) now)
unfolding fetch_next
first_failure-since c now fetches st k (live, absent, fails, law) ours =
    ground (arith, streak_after_poll c.opts now fetches st.streaks k law)

-- A failing poll stops the consumer once the streak has lasted long enough.
late_failure-bailed :
    (c : FetchConfig) (now : ℕ) (fetches : Fetches) (st : FetchState) (k : GoString)
    → Fails k fetches
    → overdue c.opts.poll_error_bail_after now (lookup k st.streaks.since) ≡ true
    → (fetch_next c now false fetches st).0.bailed ≡ true
unfolding fetch_next bail_if
late_failure-bailed c now fetches st k (live, absent, fails, law) late = ground (
  arith,
  bails_exactly c.opts now fetches st.streaks law,
  last_fatal-is_some c.opts now (recovered_keys fetches.records) st.streaks k fetches.errors absent
      late fails,
)

-- The polls from a first failing one to a late failing one, with others between them.
abbrev pub span : ℕ → Fetches → List (ℕ × Bool × Fetches) → ℕ → Fetches → List (ℕ × Bool × Fetches)
span first fetches between now fetches' =
    (first, false, fetches) ∷ between ++ (now, false, fetches') ∷ []

span-bailed :
    (c : FetchConfig) (st : FetchState) (k : GoString) (first now : ℕ) (fetches fetches' : Fetches)
    (between : List (ℕ × Bool × Fetches))
    → Fails k fetches
    → is_foreign c.topic_name (first_record fetches.records) ≡ false
    → Starved k between
    → Fails k fetches'
    → overdue c.opts.poll_error_bail_after now (some (get_or (lookup k st.streaks.since) first))
      ≡ true
    → (fetch_all c (span first fetches between now fetches') st).0.bailed ≡ true
unfolding fetch_all
span-bailed c st k first now fetches fetches' between begins ours quiet goes_on late =
    let st' = (fetch_next c first false fetches st).0 in
    let last = (fetch_all c between st').0 in
    let since =
      fetch_all-since c between st' k quiet
        (first_failure-since c first fetches st k begins ours) in
    rw (fetch_all-append c between ((now, false, fetches') ∷ []) st')
      (late_failure-bailed c now fetches' last k goes_on (rw (since) late))

-- A partition that keeps failing stops the consumer: when a poll has an error of it, and a later one
-- does at least the configured time (above 0, and a Duration) after the streak began, which is at the first of the
-- two if none was running, and no poll of these or between them delivers a record of the partition,
-- then, whatever else those polls bring, a consumer that was not stopped before and can be is told to
-- shut down exactly once in them. (`Err()` is nil only if EachError visits nothing; in the two polls
-- the client is open and fetchCtx not done, and the first one's record is of the configured topic.)
pub sustained_failure_stops :
    (c : FetchConfig) (st : FetchState) (k : GoString) (first now : ℕ) (fetches fetches' : Fetches)
    (between : List (ℕ × Bool × Fetches))
    → Fails k fetches
    → is_foreign c.topic_name (first_record fetches.records) ≡ false
    → Starved k between
    → Fails k fetches'
    → pos 0 <ℤ c.opts.poll_error_bail_after
    → c.opts.poll_error_bail_after ≤ℤ pos max_duration
    → c.opts.poll_error_bail_after ≤ℤ sub_ℕ now (get_or (lookup k st.streaks.since) first)
    → c.has_shutdowner ≡ true
    → st.bailed ≡ false
    → let (st', effects) = fetch_all c (span first fetches between now fetches') st in
      (st'.bailed ≡ true) × (shutdowns effects ≡ 1)
sustained_failure_stops c st k first now fetches fetches' between begins ours quiet goes_on on fits
      late can fresh =
    let polls = span first fetches between now fetches' in
    let start = get_or (lookup k st.streaks.since) first in
    let reached = time_sub-reaches c.opts.poll_error_bail_after now start fits late in
    let stopped =
      span-bailed c st k first now fetches fetches' between begins ours quiet goes_on
        (ground (arith, on, reached)) in
    (stopped, ground (arith, shutdown_told_once c polls st, stopped, can, fresh))
