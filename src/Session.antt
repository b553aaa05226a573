-- ===== src/Session.antt =====
-- franzadapter/broker_port.go, the adapter while it is subscribed: the fetch loop with what fetchNext
-- does, Poll and the engine (the steps of Gate), and Unsubscribe, whose calls are made one by one.
use llingr_adapter_franz.Prelude.{
  ℕ, suc, ◌≤◌, length, Bool, true, false, if◌then◌else◌, Option, none, some, List, [], ◌∷◌, ◌++◌,
  ◌≡◌,
}
use llingr_adapter_franz.Foreign.{Record, Fetches}
use llingr_adapter_franz.Effects.{
  Effect, allow_rebalance, cancel_fetch, await_fetch_loop, close_client,
}
use llingr_adapter_franz.Rebalance.{RebalanceState}
use llingr_adapter_franz.Fetch.{FetchConfig, FetchState, fetch_next}
use llingr_adapter_franz.Lifecycle.{Lifecycle, Shutdown, unsubscribe}
use llingr_adapter_franz.Gate
use llingr_adapter_franz.Gate.{
  System, fetching, sending, leaving, closing_records, allowing, exited, start,
}
pub mod Refinement
pub mod Traces
pub mod Invariant
pub mod Closing
pub mod Topic
pub mod Stops
pub mod Order
pub mod LoopEnd
pub mod Completes
pub mod Counting

pub record Session : Type 0 where
  pub gate : System
  pub fetch : FetchState
  pub lifecycle : Lifecycle
  -- The calls that the running releaseBroker has yet to make.
  pub todo : List Effect
  -- Whether its wait for the fetch loop is ended by the loop's exit and not by the timeout.
  pub loop_stops : Bool
  pub awaited : Bool  -- the wait is over
  pub closed : Bool  -- closeFn has been called
  -- The calls so far of the fetch loop and of releaseBroker, the last one last.
  pub trace : List Effect
  -- Polls that left their registration to be released by AllowRebalance.
  pub holding_polls : ℕ

-- Right after Subscribe has started the loop.
unfoldable pub subscribed : RebalanceState → FetchState → Lifecycle → Session
subscribed rebalance fetch lifecycle = record {
  gate = start rebalance;
  fetch = fetch;
  lifecycle = lifecycle;
  todo = [];
  loop_stops = false;
  awaited = false;
  closed = false;
  trace = [];
  holding_polls = 0;
}

-- What the fetch loop does with the answer of fetchNext: leave, go on to the send, or poll again.
unfoldable pub after_fetch : Option Record → Bool → System → System
after_fetch r true g = record g { loop = leaving; registered = true }
after_fetch none false g = g
after_fetch (some r) false g = record g {
  loop = sending r;
  registered = true;
  fetched = g.fetched ++ r ∷ [];
}

-- franz-go registers a poller for a record and, cancelled or closed, for no record; an empty poll
-- releases it by itself.
abbrev pub holds : Option Record → Bool → Bool
holds r true = true
holds none false = false
holds (some r) false = true

-- fetchNext at the head of the loop.
unfoldable pub fetch_step : FetchConfig → ℕ → Fetches → Session → Session
unfolding after_fetch
fetch_step c now fetches s =
    let (fetch, effects, r, exit) = fetch_next c now s.gate.cancelled fetches s.fetch in
    record s {
      gate = after_fetch r exit s.gate;
      fetch = fetch;
      trace = s.trace ++ effects;
      holding_polls = if holds r exit then suc s.holding_polls else s.holding_polls;
    }

-- The next call of releaseBroker.
unfoldable pub release_step : Effect → List Effect → Session → Session
release_step cancel_fetch rest s = record s {
  gate = record (s.gate) { cancelled = true };
  todo = rest;
  trace = s.trace ++ cancel_fetch ∷ [];
}
release_step await_fetch_loop rest s = record s {
  todo = rest;
  awaited = true;
  trace = s.trace ++ await_fetch_loop ∷ [];
}
release_step close_client rest s = record s {
  todo = rest;
  closed = true;
  trace = s.trace ++ close_client ∷ [];
}
release_step e rest s = record s { todo = rest; trace = s.trace ++ e ∷ [] }

-- The wait for the fetch loop ends by the loop's exit, unless it times out.
abbrev pub MayGoOn : Effect → Session → Type 0
MayGoOn await_fetch_loop s = s.loop_stops ≡ true → s.gate.loop ≡ exited
MayGoOn _ s = Unit {0}

unfoldable pub unsubscribe_step : Shutdown → Session → Session
unsubscribe_step env s =
    let (lifecycle, p) = unsubscribe env s.lifecycle in
    record s {
      lifecycle = lifecycle;
      todo = p.0;
      loop_stops = if s.lifecycle.released then s.loop_stops else env.loop_stops;
    }

-- The steps of Gate that are not made by fetchNext or by AllowRebalance: those of Poll, of the engine,
-- of OnAssigned, the loop's at its channels, and the end of the adapter's own context, from which
-- fetchCtx is derived.
abbrev pub is_shared : {g h : System} → Gate.Step g h → Bool
is_shared (Gate.fetch_record _ _) = false
is_shared (Gate.fetch_nothing _) = false
is_shared (Gate.fetch_exit _) = false
is_shared (Gate.allow _) = false
is_shared (Gate.allow_on_exit _) = false
is_shared _ = true

-- A step may be taken and need not be: PollRecords may stay parked, behind a rebalance or for want of
-- data, for any number of steps of the others, also when fetchCtx is done.
pub data Step (c : FetchConfig) (s : Session) : Session → Type 0 where
  polling :
      (now : ℕ) (fetches : Fetches) → s.gate.loop ≡ fetching → Step c s (fetch_step c now fetches s)
  allow :
      s.gate.loop ≡ allowing
      → Step c s (record s {
        gate = record (s.gate) { loop = fetching; registered = false };
        trace = s.trace ++ allow_rebalance ∷ [];
      })
  allow_on_exit :
      s.gate.loop ≡ leaving
      → Step c s (record s {
        gate = record (s.gate) { loop = closing_records; registered = false };
        trace = s.trace ++ allow_rebalance ∷ [];
      })
  shared :
      {g : System} (st : Gate.Step s.gate g)
      → is_shared st ≡ true
      → Step c s (record s { gate = g })
  -- A call of Unsubscribe while another runs waits for it.
  unsubscribing : (env : Shutdown) → s.todo ≡ [] → Step c s (unsubscribe_step env s)
  releasing :
      (e : Effect) (rest : List Effect)
      → s.todo ≡ e ∷ rest
      → MayGoOn e s
      → Step c s (release_step e rest s)

-- The states that follow a Subscribe that started the loop, on an adapter that has not been released.
pub data Reach (c : FetchConfig) : Session → Type 0 where
  began :
      (rebalance : RebalanceState) (fetch : FetchState) (lifecycle : Lifecycle)
      → lifecycle.fetch_started ≡ true
      → lifecycle.released ≡ false
      → Reach c (subscribed rebalance fetch lifecycle)
  later : {s t : Session} → Reach c s → Step c s t → Reach c t
