-- ===== src/Fetch/Counting.antt =====
-- franzadapter/broker_port.go, fetchNext: kinds of effects that handlePollErrors and the pause do not
-- have.
use llingr_adapter_franz.Prelude.{
  ℕ, ℤ, GoString, Bool, false, ◌||◌, if◌then◌else◌, Option, some, List, [], ◌∷◌, ◌++◌, ◌≡◌, refl,
  ◌∙◌, arith,
}
use llingr_adapter_franz.Foreign.{GoError, Record, Fetches, FetchError, Reason, foreign}
use llingr_adapter_franz.Effects.{
  Effect, log, error, poll_error, wait_backoff, poll_records, foreign_topic,
}
use llingr_adapter_franz.Effects.Counting.{how_often, how_often-append}
use llingr_adapter_franz.Options.{AdapterOptions}
use llingr_adapter_franz.PollErrors.{
  time_sub, Round, Tally, each_error, on_error, handle_poll_errors, Streaks, streak_start,
  error_key,
}
use llingr_adapter_franz.Fetch.{
  FetchConfig, FetchState, fetch_next, bail_if, backoff, first_record, got_topic, is_foreign,
}

-- Neither the log line of a fetch error nor the pause is of this kind.
pub record Ignores (test : Effect → Bool) : Type 0 where
  pub errors :
      (topic : GoString) (partition streak : ℤ) (err : GoError)
      → test (log error (poll_error topic partition streak err)) ≡ false
  pub pauses : (d : ℤ) → test (wait_backoff d) ≡ false

module _ (test : Effect → Bool) (h : Ignores test) where
  how_often-on_error :
      (round : Round) (e : FetchError) (t : Tally)
      → how_often test (on_error round e t).effects ≡ how_often test t.effects
  unfolding on_error
  how_often-on_error round e t =
      let streak = time_sub round.now (streak_start round (error_key e) t.streaks) in
      let line = log error (poll_error e.topic e.partition streak e.err) ∷ [] in
      ground
        (arith, how_often-append test t.effects line, h.errors e.topic e.partition streak e.err)

  how_often-each_error :
      (round : Round) (errors : List FetchError) (t : Tally)
      → how_often test (each_error round errors t).effects ≡ how_often test t.effects
  unfolding each_error
  how_often-each_error round [] t = refl
  how_often-each_error round (e ∷ errors) t =
      how_often-each_error round errors (on_error round e t) ∙ how_often-on_error round e t

  pub how_often-handle_poll_errors :
      (opts : AdapterOptions) (now : ℕ) (fetches : Fetches) (st : Streaks)
      → how_often test (handle_poll_errors opts now fetches st).effects ≡ 0
  unfolding handle_poll_errors
  how_often-handle_poll_errors opts now fetches st = rw how_often-each_error

  pub how_often-backoff :
      (opts : AdapterOptions) (r : Option Record) (saw : Bool)
      → how_often test (backoff opts r saw) ≡ 0
  unfolding backoff
  how_often-backoff opts r saw = ground (arith, h.pauses opts.poll_error_backoff)

-- The calls of bail in a fetch.
abbrev pub stopping : FetchConfig → ℕ → Bool → Fetches → FetchState → Bool × List Effect
stopping c now cancelled fetches st =
    let r = first_record fetches.records in
    if fetches.client_closed || cancelled
    then (st.bailed, [])
    else if is_foreign c.topic_name r
    then bail_if c.has_shutdowner (some (foreign (got_topic r) c.topic_name)) st.bailed
    else bail_if c.has_shutdowner (handle_poll_errors c.opts now fetches st.streaks).bail_reason
        st.bailed

-- Of a kind that is neither a poll nor a line on a foreign record, a fetch has what bail has.
pub how_often-fetch_next :
    (test : Effect → Bool) (h : Ignores test)
    → test poll_records ≡ false
    → ((reason : Reason) → test (log error (foreign_topic reason)) ≡ false)
    → (c : FetchConfig) (now : ℕ) (cancelled : Bool) (fetches : Fetches) (st : FetchState)
    → let (st', effects, _, _) = fetch_next c now cancelled fetches st in
      (how_often test effects ≡ how_often test (stopping c now cancelled fetches st).1)
      × (st'.bailed ≡ (stopping c now cancelled fetches st).0)
unfolding fetch_next
how_often-fetch_next test h poll line c now cancelled fetches st =
    let r = first_record fetches.records in
    let reason = foreign (got_topic r) c.topic_name in
    let tally = handle_poll_errors c.opts now fetches st.streaks in
    let bails = (bail_if c.has_shutdowner tally.bail_reason st.bailed).1 in
    let pause = backoff c.opts r tally.saw_err in
    ground (
      arith,
      poll,
      line reason,
      how_often-append test (tally.effects ++ bails) pause,
      how_often-append test tally.effects bails,
      how_often-handle_poll_errors test h c.opts now fetches st.streaks,
      how_often-backoff test h c.opts r tally.saw_err,
    )
