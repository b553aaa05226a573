-- ===== src/Session/Stops.antt =====
-- franzadapter/broker_port.go, runFetchLoop: once fetchCtx is done the loop ends, after few steps of its
-- own. (When PollRecords returns is franz-go's part.)
use llingr_adapter_franz.Prelude.{
  ℕ, ◌+◌, ◌≤◌, Bool, true, false, List, [], ◌≡◌, ◌⊎◌, inl, inr, refl, arith,
}
use llingr_adapter_franz.Foreign.{Fetches}
use llingr_adapter_franz.Effects.{Effect}
use llingr_adapter_franz.Fetch.{FetchConfig, FetchState, fetch_next}
use llingr_adapter_franz.Gate
use llingr_adapter_franz.Gate.{
  LoopPc, fetching, sending, waiting, allowing, leaving, closing_records, closing_done, exited,
  System, after_signal, call_poll, return_from_poll,
}
use llingr_adapter_franz.Session.{
  Session, after_fetch, fetch_step, release_step, unsubscribe_step, Step, is_shared, polling, allow,
  allow_on_exit, shared, unsubscribing, releasing,
}

-- How many steps the loop has left at most, once it is cancelled.
abbrev pub steps_left : LoopPc → ℕ
steps_left (sending _) = 7
steps_left waiting = 6
steps_left allowing = 5
steps_left fetching = 4
steps_left leaving = 3
steps_left closing_records = 2
steps_left closing_done = 1
steps_left exited = 0

-- The loop moves in the step; the others leave it where it is.
abbrev pub gate_moves : {g h : System} → Gate.Step g h → ℕ
gate_moves (Gate.fetch_record _ _) = 1
gate_moves (Gate.fetch_nothing _) = 1
gate_moves (Gate.fetch_exit _) = 1
gate_moves (Gate.drop_record _ _ _) = 1
gate_moves (Gate.stop_waiting _ _) = 1
gate_moves (Gate.allow _) = 1
gate_moves (Gate.allow_on_exit _) = 1
gate_moves (Gate.close_records _) = 1
gate_moves (Gate.close_done _) = 1
gate_moves (Gate.signal _ _) = 1
gate_moves (Gate.receive _ _ _) = 1
gate_moves _ = 0

abbrev pub loop_moves : {c : FetchConfig} {s t : Session} → Step c s t → ℕ
loop_moves (polling _ _ _) = 1
loop_moves (allow _) = 1
loop_moves (allow_on_exit _) = 1
loop_moves (shared st _) = gate_moves st
loop_moves _ = 0

-- A run, with the number of the loop's own steps in it.
pub data Run (c : FetchConfig) : Session → ℕ → Session → Type 0 where
  done : {s : Session} → Run c s 0 s
  then_on :
      {s t u : Session} {n : ℕ} (st : Step c s t) → Run c t n u → Run c s (loop_moves st + n) u

pub shared_runs_down :
    {g h : System} (st : Gate.Step g h)
    → is_shared st ≡ true
    → (gate_moves st + steps_left h.loop ≤ steps_left g.loop)
      × (g.cancelled ≡ true → h.cancelled ≡ true)
unfolding after_signal call_poll return_from_poll
shared_runs_down (Gate.fetch_record r e) h = cc
shared_runs_down (Gate.fetch_nothing e) h = cc
shared_runs_down (Gate.fetch_exit e) h = cc
shared_runs_down Gate.cancel h = ground arith
shared_runs_down (Gate.drop_record r e c) h = ground arith
shared_runs_down (Gate.stop_waiting e c) h = ground arith
shared_runs_down (Gate.allow e) h = cc
shared_runs_down (Gate.allow_on_exit e) h = cc
shared_runs_down (Gate.close_records e) h = ground arith
shared_runs_down (Gate.close_done e) h = ground arith
shared_runs_down (Gate.dispatch r o e) h = ground arith
shared_runs_down (Gate.call o e) h = ground arith
shared_runs_down (Gate.signal o e) h = ground arith
shared_runs_down (Gate.signal_closed o e) h = ground arith
shared_runs_down (Gate.receive r o e) h = ground arith
shared_runs_down (Gate.receive_closing o e) h = ground arith
shared_runs_down (Gate.receive_closed o e) h = ground arith
shared_runs_down (Gate.time_out o) h = ground arith
shared_runs_down (Gate.return w ms o e) h = ground arith
shared_runs_down (Gate.assigned m) h = ground arith

pub fetch_next-cancelled :
    (c : FetchConfig) (now : ℕ) (fetches : Fetches) (st : FetchState)
    → (fetch_next c now true fetches st).3 ≡ true
unfolding fetch_next
fetch_next-cancelled c now fetches st = ground arith

-- A cancelled loop comes nearer to its end with each step of its own, and stays cancelled.
RunsDown : (s t : Session) → ℕ → Type 0
RunsDown s t moves =
    (moves + steps_left t.gate.loop ≤ steps_left s.gate.loop) × (t.gate.cancelled ≡ true)

polling-RunsDown :
    (c : FetchConfig) (now : ℕ) (fetches : Fetches) (s : Session)
    → s.gate.loop ≡ fetching
    → s.gate.cancelled ≡ true
    → RunsDown s (fetch_step c now fetches s) 1
unfolding fetch_step after_fetch RunsDown
polling-RunsDown c now fetches s e h = ground (arith, fetch_next-cancelled c now fetches s.fetch)

releasing-RunsDown :
    (e : Effect) (rest : List Effect) (s : Session)
    → s.gate.cancelled ≡ true
    → RunsDown s (release_step e rest s) 0
unfolding release_step RunsDown
releasing-RunsDown e rest s h = ground arith

Step-RunsDown :
    {c : FetchConfig} {s t : Session} (st : Step c s t)
    → s.gate.cancelled ≡ true
    → RunsDown s t (loop_moves st)
unfolding RunsDown unsubscribe_step
Step-RunsDown {c} {s} (polling now fetches e) h =
    unfold RunsDown in polling-RunsDown c now fetches s e h
Step-RunsDown (allow e) h = ground arith
Step-RunsDown (allow_on_exit e) h = ground arith
Step-RunsDown (shared st e) h = ground (arith, shared_runs_down st e)
Step-RunsDown (unsubscribing env e) h = ground arith
Step-RunsDown {s = s} (releasing e rest t m) h = releasing-RunsDown e rest s h

Run-RunsDown :
    {c : FetchConfig} {s t : Session} {n : ℕ}
    → Run c s n t
    → s.gate.cancelled ≡ true
    → RunsDown s t n
unfolding RunsDown
Run-RunsDown done h = ground arith
Run-RunsDown (then_on st run) h =
    ground (arith, Step-RunsDown st h, Run-RunsDown run (Step-RunsDown st h).1)

-- The steps that the loop takes outside the client and with no other goroutine.
abbrev pub is_lone : {g h : System} → Gate.Step g h → Bool
is_lone (Gate.drop_record _ _ _) = true
is_lone (Gate.stop_waiting _ _) = true
is_lone (Gate.close_records _) = true
is_lone (Gate.close_done _) = true
is_lone _ = false

abbrev pub is_alone : {c : FetchConfig} {s t : Session} → Step c s t → Bool
is_alone (allow _) = true
is_alone (allow_on_exit _) = true
is_alone (shared st _) = is_lone st
is_alone _ = false

abbrev pub CanMove : FetchConfig → Session → Type 0
CanMove c s = (t : Session) × (st : Step c s t) × (is_alone st ≡ true)

-- The loop is inside PollRecords, and whatever that returns, it leaves.
abbrev pub IsLastPoll : FetchConfig → Session → Type 0
IsLastPoll c s =
    (s.gate.loop ≡ fetching)
    × ((now : ℕ) (fetches : Fetches) → (fetch_step c now fetches s).gate.loop ≡ leaving)

-- What PollRecords may return when its context is done: nothing.
abbrev pub no_fetches : Fetches
no_fetches = record { records = []; errors = []; has_err = true; client_closed = false }

pub fetch_step-leaves :
    (c : FetchConfig) (now : ℕ) (fetches : Fetches) (s : Session)
    → s.gate.cancelled ≡ true
    → (fetch_step c now fetches s).gate.loop ≡ leaving
unfolding fetch_step after_fetch
fetch_step-leaves c now fetches s h = ground (arith, h, fetch_next-cancelled c now fetches s.fetch)

-- Where a cancelled loop may stand.
abbrev pub IsEnding : FetchConfig → Session → Type 0
IsEnding c s = (s.gate.loop ≡ exited) ⊎ (IsLastPoll c s ⊎ CanMove c s)

cancelled-IsEnding :
    (c : FetchConfig) (s : Session) (l : LoopPc)
    → s.gate.loop ≡ l
    → s.gate.cancelled ≡ true
    → IsEnding c s
cancelled-IsEnding c s fetching e h =
    inr (inl (e, λ now fetches. fetch_step-leaves c now fetches s h))
cancelled-IsEnding c s (sending r) e h = inr (inr (_, shared (Gate.drop_record r e h) refl, refl))
cancelled-IsEnding c s waiting e h = inr (inr (_, shared (Gate.stop_waiting e h) refl, refl))
cancelled-IsEnding c s allowing e h = inr (inr (_, allow e, refl))
cancelled-IsEnding c s leaving e h = inr (inr (_, allow_on_exit e, refl))
cancelled-IsEnding c s closing_records e h = inr (inr (_, shared (Gate.close_records e) refl, refl))
cancelled-IsEnding c s closing_done e h = inr (inr (_, shared (Gate.close_done e) refl, refl))
cancelled-IsEnding c s exited e h = inl e

steps_left-le : (l : LoopPc) → steps_left l ≤ 7
steps_left-le l = ground arith

-- Once the loop is cancelled it ends: in any run from there, whatever the others do in between, the
-- loop takes at most seven steps of its own; and after any such run it has exited, or it is inside
-- PollRecords (where a rebalance may hold it) and leaves whatever that returns, or it can take its next
-- step with no other goroutine.
pub cancelled_loop_ends :
    {c : FetchConfig} {s t : Session} {n : ℕ}
    → s.gate.cancelled ≡ true
    → Run c s n t
    → (n ≤ 7) × IsEnding c t
unfolding RunsDown
cancelled_loop_ends {c} {s} {t} h run =
    let down = Run-RunsDown run h in
    (
      omega (arith, down.0, steps_left-le s.gate.loop),
      cancelled-IsEnding c t t.gate.loop refl down.1,
    )
