-- ===== src/PollErrors/Bailing.antt =====
-- franzadapter/broker_port.go, handlePollErrors: when there is a reason to bail, and which.
use llingr_adapter_franz.Prelude.{
  ℕ, ℤ, pos, leb_ℤ, ltb_ℤ, GoString, string_eq, Bool, false, ◌&&◌, not, if◌then◌else◌, Bool-cases,
  Option, none, some, get_or, List, [], ◌∷◌, lookup, ◌≡◌, refl, ◌∙◌, arith, inl, inr,
}
use llingr_adapter_franz.Foreign.{FetchError, Fetches, Reason, failing}
use llingr_adapter_franz.Options.{AdapterOptions}
use llingr_adapter_franz.PollErrors.{
  time_sub, Streaks, Round, Tally, round_of, is_deadline, contains, recovered_keys, clear_recovered,
  on_error, each_error, start_tally, error_key, handle_poll_errors, should_bail,
}
use llingr_adapter_franz.PollErrors.Duration.{time_sub_self}
use llingr_adapter_franz.PollErrors.Recovery.{
  handle_poll_errors_always, handle_poll_errors-always, lookup-clear_recovered,
}
use llingr_adapter_franz.PollErrors.Survival.{lookup-on_error}

-- The streak of the partition began at least `bail_after` ago, as a Duration tells it, and bailing is
-- not disabled.
abbrev pub overdue : ℤ → ℕ → Option ℕ → Bool
overdue bail_after now none = false
overdue bail_after now (some start) =
    ltb_ℤ (pos 0) bail_after && leb_ℤ bail_after (time_sub now start)

-- The error is a real one, of a partition that delivered nothing and has failed for too long.
abbrev pub is_fatal : AdapterOptions → ℕ → List GoString → Streaks → FetchError → Bool
is_fatal opts now recovered st e =
    not (is_deadline e.err)
    && not (contains (error_key e) recovered)
    && overdue opts.poll_error_bail_after now (lookup (error_key e) st.since)

-- The last of the fatal errors.
abbrev pub last_fatal :
    AdapterOptions → ℕ → List GoString → Streaks → List FetchError → Option Reason
last_fatal opts now recovered st [] = none
last_fatal opts now recovered st (e ∷ errors) = elim (last_fatal opts now recovered st errors) [
  | some r ↦ some r
  | none ↦
      if is_fatal opts now recovered st e
      then some (failing e.topic e.partition opts.poll_error_bail_after e.err)
      else none
]

abbrev or_else : Option Reason → Option Reason → Option Reason
or_else (some r) old = some r
or_else none old = old

or_else-none : (o : Option Reason) → or_else o none ≡ o
or_else-none none = refl
or_else-none (some r) = refl

module _ (opts : AdapterOptions) (now : ℕ) (recovered : List GoString) (st : Streaks) where
  abbrev round : Round
  round = round_of opts now recovered

  -- What the loop over the errors keeps: streaks as before, but for those begun now.
  abbrev Keeps : Streaks → Type 0
  Keeps u =
      (k : GoString)
      → contains k recovered ≡ false
      → get_or (lookup k u.since) now ≡ get_or (lookup k st.since) now

  on_error-Keeps :
      (e : FetchError) (t : Tally) → Keeps t.streaks → Keeps (on_error round e t).streaks
  on_error-Keeps e t h k n = ground (arith, lookup-on_error round e k t, h k n)

  fatal-should_bail :
      (k : GoString) (u : Streaks)
      → get_or (lookup k u.since) now ≡ get_or (lookup k st.since) now
      → should_bail round (time_sub now (get_or (lookup k u.since) now))
        ≡ overdue opts.poll_error_bail_after now (lookup k st.since)
  unfolding should_bail
  fatal-should_bail k u h = ground (arith, time_sub_self now)

  on_error-bail_reason :
      (e : FetchError) (t : Tally)
      → Keeps t.streaks
      → (on_error round e t).bail_reason ≡ (
          if is_fatal opts now recovered st e
          then some (failing e.topic e.partition opts.poll_error_bail_after e.err)
          else t.bail_reason)
  unfolding on_error
  on_error-bail_reason e t h = elim (Bool-cases (contains (error_key e) recovered)) [
    | inl c ↦ ground arith
    | inr c ↦ ground (arith, fatal-should_bail (error_key e) t.streaks (h (error_key e) c))
  ]

  each_error-bail_reason :
      (errors : List FetchError) (t : Tally)
      → Keeps t.streaks
      → (each_error round errors t).bail_reason
        ≡ or_else (last_fatal opts now recovered st errors) t.bail_reason
  unfolding each_error
  each_error-bail_reason [] t h = refl
  each_error-bail_reason (e ∷ errors) t h = ground (
    arith,
    each_error-bail_reason errors (on_error round e t) (on_error-Keeps e t h),
    on_error-bail_reason e t h,
  )

bails_exactly_always :
    (opts : AdapterOptions) (now : ℕ) (fetches : Fetches) (st : Streaks)
    → (handle_poll_errors_always opts now fetches st).bail_reason
      ≡ last_fatal opts now (recovered_keys fetches.records) st fetches.errors
unfolding handle_poll_errors_always
bails_exactly_always opts now fetches st =
    let recovered = recovered_keys fetches.records in
    each_error-bail_reason opts now recovered st fetches.errors
      (start_tally (clear_recovered recovered st))
      (λ k absent. rw (lookup-clear_recovered k recovered st, absent) refl)
    ∙ or_else-none (last_fatal opts now recovered st fetches.errors)

-- The consumer is stopped exactly for partitions that have failed for too long: the reason to bail
-- after a poll is the last error of the poll that is no timeout, is of a partition that delivered no
-- record in it, and whose streak began, in an earlier poll, at least the configured time ago; there is
-- none if no error is such, and never one if bailing is disabled. (`Err()` is nil only if EachError
-- visits nothing.)
pub bails_exactly :
    (opts : AdapterOptions) (now : ℕ) (fetches : Fetches) (st : Streaks)
    → (fetches.has_err ≡ false → fetches.errors ≡ [])
    → (handle_poll_errors opts now fetches st).bail_reason
      ≡ last_fatal opts now (recovered_keys fetches.records) st fetches.errors
bails_exactly opts now fetches st err =
    rw (handle_poll_errors-always opts now fetches st err)
      (bails_exactly_always opts now fetches st)
