-- ===== src/PollErrors/Recovery.antt =====
-- franzadapter/broker_port.go, handlePollErrors: the set of recovered partitions, which is built only
-- when it can matter.
use llingr_adapter_franz.Prelude.{
  ℕ, GoString, string_eq, str_beq_iff, false, if◌then◌else◌, Bool-cases, none, List, [], ◌∷◌,
  lookup, delete, lookup-delete, ◌≡◌, refl, inl, inr, arith,
}
use llingr_adapter_franz.Foreign.{Fetches}
use llingr_adapter_franz.Options.{AdapterOptions}
use llingr_adapter_franz.PollErrors.{
  Streaks, Tally, round_of, contains, recovered_keys, clear_recovered, each_error, start_tally,
  needs_recovered, handle_poll_errors,
}

-- The same without the shortcut: the recovered set is built at every poll.
unfoldable pub handle_poll_errors_always : AdapterOptions → ℕ → Fetches → Streaks → Tally
handle_poll_errors_always opts now fetches st =
    let recovered = recovered_keys fetches.records in
    each_error (round_of opts now recovered) fetches.errors
      (start_tally (clear_recovered recovered st))

abbrev no_streaks : Streaks
no_streaks = record { since = []; logged = []; last_id = [] }

clear_recovered-no_streaks : (keys : List GoString) → clear_recovered keys no_streaks ≡ no_streaks
unfolding clear_recovered delete
clear_recovered-no_streaks [] = refl
clear_recovered-no_streaks (k ∷ keys) = clear_recovered-no_streaks keys

not-needs_recovered :
    (fetches : Fetches) (st : Streaks)
    → needs_recovered fetches st ≡ false
    → (fetches.has_err ≡ false) × (st ≡ no_streaks)
unfolding needs_recovered
not-needs_recovered fetches st h = ground arith

-- Building the recovered set only when there is an error or a streak gives the same streaks, log
-- lines, bail reason and answer as building it at every poll. (`Err()` is nil only if EachError visits
-- nothing, as franz-go documents.)
pub handle_poll_errors-always :
    (opts : AdapterOptions) (now : ℕ) (fetches : Fetches) (st : Streaks)
    → (fetches.has_err ≡ false → fetches.errors ≡ [])
    → handle_poll_errors opts now fetches st ≡ handle_poll_errors_always opts now fetches st
unfolding handle_poll_errors handle_poll_errors_always
handle_poll_errors-always opts now fetches st err = elim (Bool-cases (needs_recovered fetches st)) [
  | inl e ↦ rw e refl
  | inr e ↦ skipped (not-needs_recovered fetches st e)
]
  where
    skipped :
        (fetches.has_err ≡ false) × (st ≡ no_streaks)
        → handle_poll_errors opts now fetches st ≡ handle_poll_errors_always opts now fetches st
    skipped (no_err, none_yet) = ground (
      arith,
      err no_err,
      clear_recovered-no_streaks (recovered_keys fetches.records),
      clear_recovered-no_streaks [],
    )

pub lookup-clear_recovered :
    (key : GoString) (keys : List GoString) (st : Streaks)
    → lookup key (clear_recovered keys st).since
      ≡ (if contains key keys then none else lookup key st.since)
unfolding clear_recovered contains
lookup-clear_recovered key [] st = refl
lookup-clear_recovered key (k ∷ keys) st = ground (
  arith,
  lookup-clear_recovered key keys (record {
    since = delete k st.since;
    logged = delete k st.logged;
    last_id = delete k st.last_id;
  }),
  lookup-delete k key st.since,
  str_beq_iff k key,
)
