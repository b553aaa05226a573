-- ===== src/Fetch/Calls.antt =====
-- franzadapter/broker_port.go, fetchNext: it polls the client once and makes no other call of it.
use llingr_adapter_franz.Prelude.{
  ℕ, ◌+◌, Bool, true, false, Option, some, List, [], ◌∷◌, ◌++◌, ◌≡◌, refl, arith,
}
use llingr_adapter_franz.Foreign.{Fetches, Reason, foreign}
use llingr_adapter_franz.Effects.{Effect, poll_records, allow_rebalance, close_client}
use llingr_adapter_franz.Effects.Counting.{how_often, how_often-append}
use llingr_adapter_franz.PollErrors.{handle_poll_errors}
use llingr_adapter_franz.Fetch.Counting.{Ignores, how_often-handle_poll_errors, how_often-backoff}
use llingr_adapter_franz.Fetch.{
  FetchConfig, FetchState, fetch_next, bail_if, backoff, first_record, got_topic,
}

-- A call of the client: PollRecords, AllowRebalance or its close.
abbrev pub is_client_call : Effect → Bool
is_client_call poll_records = true
is_client_call allow_rebalance = true
is_client_call close_client = true
is_client_call _ = false

-- How many calls of the client.
abbrev pub client_calls : List Effect → ℕ
client_calls = how_often is_client_call

client_calls-append :
    (xs ys : List Effect) → client_calls (xs ++ ys) ≡ client_calls xs + client_calls ys
client_calls-append = how_often-append is_client_call

is_client_call-Ignores : Ignores is_client_call
is_client_call-Ignores = record { errors = λ topic partition streak err. refl; pauses = λ d. refl }

client_calls-bail_if :
    (has : Bool) (reason : Option Reason) (bailed : Bool)
    → client_calls (bail_if has reason bailed).1 ≡ 0
unfolding bail_if
client_calls-bail_if has reason bailed = ground arith

abbrev pub behind_first : List Effect → List Effect
behind_first [] = []
behind_first (_ ∷ effects) = effects

-- The first effect is the poll, and no call of the client follows it.
pub fetch_next-polls :
    (c : FetchConfig) (now : ℕ) (cancelled : Bool) (fetches : Fetches) (st : FetchState)
    → let effects = (fetch_next c now cancelled fetches st).1 in
      (effects ≡ poll_records ∷ behind_first effects) × (client_calls (behind_first effects) ≡ 0)
unfolding fetch_next
fetch_next-polls c now cancelled fetches st =
    let r = first_record fetches.records in
    let reason = foreign (got_topic r) c.topic_name in
    let tally = handle_poll_errors c.opts now fetches st.streaks in
    let bails = (bail_if c.has_shutdowner tally.bail_reason st.bailed).1 in
    let pause = backoff c.opts r tally.saw_err in
    ground (
      arith,
      client_calls-append (tally.effects ++ bails) pause,
      client_calls-append tally.effects bails,
      how_often-handle_poll_errors is_client_call is_client_call-Ignores c.opts now fetches
          st.streaks,
      how_often-backoff is_client_call is_client_call-Ignores c.opts r tally.saw_err,
      client_calls-bail_if c.has_shutdowner tally.bail_reason st.bailed,
      client_calls-bail_if c.has_shutdowner (some reason) st.bailed,
    )
