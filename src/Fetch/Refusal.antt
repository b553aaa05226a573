-- ===== src/Fetch/Refusal.antt =====
-- franzadapter/broker_port.go, fetchNext: which records it lets through, and how long it may pause.
use llingr_adapter_franz.Prelude.{
  ℕ, GoString, string_eq, str_beq_iff, ◌==◌, Bool, true, false, if◌then◌else◌, none, some, List, [],
  ◌∷◌, ◌≡◌, ◌≢◌, ◌⊎◌, arith,
}
use llingr_adapter_franz.Foreign.{Record, Fetches, foreign}
use llingr_adapter_franz.Effects.{Effect, emergency_shutdown}
use llingr_adapter_franz.Fetch.{FetchConfig, FetchState, first_record, fetch_next}

-- A record that the loop gets from a poll is the first that the client returned, is of the configured
-- topic (if one is configured), and does not come with an exit.
pub fetched_record_is_ours :
    (c : FetchConfig) (now : ℕ) (cancelled : Bool) (fetches : Fetches) (st : FetchState)
    {r : Record}
    → (fetch_next c now cancelled fetches st).2 ≡ some r
    → (first_record fetches.records ≡ some r)
      × ((c.topic_name ≡ []) ⊎ (r.topic ≡ c.topic_name))
      × ((fetch_next c now cancelled fetches st).3 ≡ false)
unfolding fetch_next
fetched_record_is_ours c now cancelled fetches st {r} e =
    ground (arith, str_beq_iff r.topic c.topic_name)

-- The consumer is told to shut down, with the two topics.
abbrev pub tells_foreign : List Effect → GoString → GoString → Bool
tells_foreign [] got configured = false
tells_foreign (emergency_shutdown (foreign g k) ∷ effects) got configured =
    let rest = tells_foreign effects got configured in
    if g == got then (if k == configured then true else rest) else rest
tells_foreign (_ ∷ effects) got configured = tells_foreign effects got configured

-- A record of another topic than the configured one is never delivered: on a client that is open the
-- loop exits with no record, leaves the streaks alone, marks the consumer as stopped, and, if it had
-- not been before and can be, shuts it down for the two topics.
pub foreign_record_refused :
    (c : FetchConfig) (now : ℕ) (fetches : Fetches) (st : FetchState) {r : Record}
    → fetches.client_closed ≡ false
    → first_record fetches.records ≡ some r
    → c.topic_name ≢ []
    → r.topic ≢ c.topic_name
    → let (st', effects, got, exit) = fetch_next c now false fetches st in
      (got ≡ none)
      × (exit ≡ true)
      × (st'.streaks ≡ st.streaks)
      × (st'.bailed ≡ true)
      × (st.bailed ≡ false
          → c.has_shutdowner ≡ true
          → tells_foreign effects r.topic c.topic_name ≡ true)
unfolding fetch_next
foreign_record_refused c now fetches st {r} live first named differs = ground (
  arith,
  str_beq_iff r.topic c.topic_name,
  str_beq_iff r.topic r.topic,
  str_beq_iff c.topic_name c.topic_name,
)
