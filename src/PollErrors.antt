-- ===== src/PollErrors.antt =====
-- franzadapter/broker_port.go, handlePollErrors and errIdentity: the streaks of failing partitions,
-- the throttled log and the reason to bail. An instant is its count of nanoseconds.
use llingr_adapter_franz.Prelude.{
  ℕ, ℤ, pos, negsuc, leb, sub_ℕ, leb_ℤ, ltb_ℤ, GoString, text, string_eq, ◌==◌, Bool, true, false,
  ◌&&◌, ◌||◌, not, if◌then◌else◌, Option, none, some, get_or, is_some, List, [], ◌∷◌, ◌++◌, Map,
  lookup, insert, delete, is_empty,
}
use llingr_adapter_franz.Foreign.{
  Record, GoError, kafka, deadline_exceeded, message, wrapped, FetchError, Fetches, Reason, failing,
}
use llingr_adapter_franz.Decimal.{itoa}
use llingr_adapter_franz.Effects.{Effect, log, error, poll_error}
use llingr_adapter_franz.Options.{AdapterOptions, default_poll_error_log_interval}
pub mod Duration
pub mod Keys
pub mod Recovery
pub mod Survival
pub mod Bailing
pub mod Throttle

-- The largest Duration, an `int64`; the smallest is one more below 0.
abbrev pub max_duration : ℕ
max_duration = 9_223_372_036_854_775_807

-- now.Sub(then): a difference beyond the range of a Duration is cut to its end.
unfoldable pub time_sub : ℕ → ℕ → ℤ
time_sub now then_at = elim (sub_ℕ now then_at) [
  | pos n ↦ if leb n max_duration then pos n else pos max_duration
  | negsuc n ↦ if leb n max_duration then negsuc n else negsuc max_duration
]

-- pollErrSince, pollErrLogged and pollErrLastID; a nil map reads as the empty one.
pub record Streaks : Type 0 where
  pub since : Map GoString ℕ
  pub logged : Map GoString ℕ
  pub last_id : Map GoString GoString

-- topic + "-" + strconv.Itoa(int(partition))
unfoldable pub partition_key : GoString → ℤ → GoString
partition_key topic partition = topic ++ b'-' ∷ itoa partition

-- errors.Is(err, context.DeadlineExceeded)
unfoldable pub is_deadline : GoError → Bool
is_deadline (kafka code m) = false
is_deadline deadline_exceeded = true
is_deadline (message m) = false
is_deadline (wrapped prefix err) = is_deadline err

-- errors.As(err, &ke): the code of the first Kafka error in the chain
unfoldable pub kafka_code : GoError → Option ℤ
kafka_code (kafka code m) = some code
kafka_code deadline_exceeded = none
kafka_code (message m) = none
kafka_code (wrapped prefix err) = kafka_code err

-- err.Error()
unfoldable pub error_text : GoError → GoString
error_text (kafka code m) = m
error_text deadline_exceeded = text "context deadline exceeded"
error_text (message m) = m
error_text (wrapped prefix err) = prefix ++ text ": " ++ error_text err

unfoldable pub err_identity : GoError → GoString
unfolding kafka_code error_text
err_identity err = elim (kafka_code err) [
  | some code ↦ text "kafka:" ++ itoa code
  | none ↦ error_text err
]

abbrev pub record_key : Record → GoString
record_key r = partition_key r.topic r.partition

abbrev pub error_key : FetchError → GoString
error_key e = partition_key e.topic e.partition

unfoldable pub contains : GoString → List GoString → Bool
contains k [] = false
contains k (j ∷ js) = j == k || contains k js

unfoldable pub recovered_keys : List Record → List GoString
recovered_keys [] = []
recovered_keys (r ∷ records) = record_key r ∷ recovered_keys records

-- The loop that forgets the partitions that delivered a record.
unfoldable pub clear_recovered : List GoString → Streaks → Streaks
clear_recovered [] st = st
clear_recovered (key ∷ keys) st = clear_recovered keys (record {
  since = delete key st.since;
  logged = delete key st.logged;
  last_id = delete key st.last_id;
})

-- What the callback of EachError reads: the time, the options and the recovered partitions.
pub record Round : Type 0 where
  pub now : ℕ
  pub log_every : ℤ
  pub bail_after : ℤ
  pub recovered : List GoString

-- What it writes.
pub record Tally : Type 0 where
  pub streaks : Streaks
  pub effects : List Effect
  pub bail_reason : Option Reason
  pub saw_err : Bool

-- The error is a real one, of a partition that delivered nothing in this poll.
unfoldable pub counts : Round → FetchError → Bool
counts round e = not (is_deadline e.err) && not (contains (error_key e) round.recovered)

unfoldable pub streak_start : Round → GoString → Streaks → ℕ
streak_start round key st = get_or (lookup key st.since) round.now

-- The start of the streak is written when there is none.
unfoldable pub start_streak : Round → GoString → Streaks → Streaks
start_streak round key st = elim (lookup key st.since) [
  | some _ ↦ st
  | none ↦ record st { since = insert key round.now st.since }
]

unfoldable pub should_log : Round → GoString → GoString → Streaks → Bool
should_log round key id st = elim (lookup key st.logged) [
  | none ↦ true
  | some last ↦
      not (id == get_or (lookup key st.last_id) [])
      || leb_ℤ round.log_every (time_sub round.now last)
]

unfoldable pub should_bail : Round → ℤ → Bool
should_bail round streak = ltb_ℤ (pos 0) round.bail_after && leb_ℤ round.bail_after streak

unfoldable pub note_logged : Round → GoString → GoString → Streaks → Streaks
note_logged round key id st = record st {
  logged = insert key round.now st.logged;
  last_id = insert key id st.last_id;
}

-- The callback's body once the error counts, on an adapter that has a logger.
unfoldable pub on_failure : Round → FetchError → Tally → Tally
unfolding streak_start start_streak should_log should_bail note_logged
on_failure round e t =
    let key = error_key e in
    let streak = time_sub round.now (streak_start round key t.streaks) in
    let st = start_streak round key t.streaks in
    let logs = should_log round key (err_identity e.err) st in
    record {
      streaks = if logs then note_logged round key (err_identity e.err) st else st;
      effects =
          if logs
          then t.effects ++ log error (poll_error e.topic e.partition streak e.err) ∷ []
          else t.effects;
      bail_reason =
          if should_bail round streak
          then some (failing e.topic e.partition round.bail_after e.err)
          else t.bail_reason;
      saw_err = true;
    }

unfoldable pub on_error : Round → FetchError → Tally → Tally
unfolding counts on_failure
on_error round e t = if counts round e then on_failure round e t else t

unfoldable pub each_error : Round → List FetchError → Tally → Tally
unfolding on_error
each_error round [] t = t
each_error round (e ∷ errors) t = each_error round errors (on_error round e t)

abbrev pub start_tally : Streaks → Tally
start_tally st = record { streaks = st; effects = []; bail_reason = none; saw_err = false }

unfoldable pub log_interval : AdapterOptions → ℤ
log_interval opts =
    if leb_ℤ opts.poll_error_log_interval (pos 0)
    then default_poll_error_log_interval
    else opts.poll_error_log_interval

abbrev pub round_of : AdapterOptions → ℕ → List GoString → Round
round_of opts now recovered = record {
  now = now;
  log_every = log_interval opts;
  bail_after = opts.poll_error_bail_after;
  recovered = recovered;
}

-- The recovered set is needed: there is an error, or a streak to clear.
unfoldable pub needs_recovered : Fetches → Streaks → Bool
needs_recovered fetches st =
    fetches.has_err
    || not (is_empty st.since)
    || not (is_empty st.logged)
    || not (is_empty st.last_id)

-- handlePollErrors up to the call of bail, which fetch_next makes for the reason left here.
unfoldable pub handle_poll_errors : AdapterOptions → ℕ → Fetches → Streaks → Tally
unfolding needs_recovered log_interval recovered_keys clear_recovered each_error
handle_poll_errors opts now fetches st =
    let recovered = if needs_recovered fetches st then recovered_keys fetches.records else [] in
    each_error (round_of opts now recovered) fetches.errors
      (start_tally (clear_recovered recovered st))
