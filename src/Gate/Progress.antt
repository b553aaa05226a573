-- ===== src/Gate/Progress.antt =====
-- franzadapter/broker_port.go: Poll never blocks for good at its signal.
use llingr_adapter_franz.Prelude.{false, none, ◌≡◌, ◌⊎◌, inl, inr, refl, arith}
use llingr_adapter_franz.Gate.{
  LoopPc, waiting, allowing, leaving, closing_records, closing_done, exited, signalling, receiving,
  System, after_signal, Step, signal, signal_closed, allow_on_exit, close_records, close_done,
  Reach,
}
use llingr_adapter_franz.Gate.Invariant.{Inv, is_running, Reach-Inv}

pub data Steps : System → System → Type 0 where
  here : {s : System} → Steps s s
  next : {s t u : System} → Step s t → Steps t u → Steps s u

-- From a state the run of these steps leads to one where Poll stands at its receive.
abbrev pub Proceeds : System → Type 0
Proceeds s = (t : System) × Steps s t × (t.poller ≡ receiving)

after_signal_receiving :
    (s : System) → s.poll.pending_record ≡ none → (after_signal s).poller ≡ receiving
unfolding after_signal
after_signal_receiving s e = ground arith

exited-Proceeds :
    (s : System)
    → s.poller ≡ signalling
    → s.poll.pending_record ≡ none
    → s.loop ≡ exited
    → Proceeds s
exited-Proceeds s p n e = (_, next (signal_closed p e) here, after_signal_receiving s n)

closing_done-Proceeds :
    (s : System)
    → s.poller ≡ signalling
    → s.poll.pending_record ≡ none
    → s.loop ≡ closing_done
    → Proceeds s
closing_done-Proceeds s p n e =
    let (t, steps, r) = exited-Proceeds (record s { loop = exited }) p n refl in
    (t, next (close_done e) steps, r)

closing_records-Proceeds :
    (s : System)
    → s.poller ≡ signalling
    → s.poll.pending_record ≡ none
    → s.loop ≡ closing_records
    → Proceeds s
closing_records-Proceeds s p n e =
    let (t, steps, r) = closing_done-Proceeds (record s { loop = closing_done }) p n refl in
    (t, next (close_records e) steps, r)

leaving-Proceeds :
    (s : System)
    → s.poller ≡ signalling
    → s.poll.pending_record ≡ none
    → s.loop ≡ leaving
    → Proceeds s
leaving-Proceeds s p n e =
    let (t, steps, r) =
      closing_records-Proceeds (record s { loop = closing_records; registered = false }) p n refl in
    (t, next (allow_on_exit e) steps, r)

stash_empty : (s : System) → Inv s → s.poller ≡ signalling → s.poll.pending_record ≡ none
stash_empty s h p = ground arith

at_signal :
    (s : System) → Inv s → s.poller ≡ signalling → (s.loop ≡ waiting) ⊎ (is_running s.loop ≡ false)
at_signal s h p = ground arith

stopped-Proceeds :
    (s : System) (l : LoopPc)
    → s.loop ≡ l
    → s.poller ≡ signalling
    → s.poll.pending_record ≡ none
    → is_running l ≡ false
    → Proceeds s
stopped-Proceeds s leaving e p n h = leaving-Proceeds s p n e
stopped-Proceeds s closing_records e p n h = closing_records-Proceeds s p n e
stopped-Proceeds s closing_done e p n h = closing_done-Proceeds s p n e
stopped-Proceeds s exited e p n h = exited-Proceeds s p n e
stopped-Proceeds s _ e p n h = cc

-- Whenever Poll stands at its dispatch signal, the loop's own steps, which wait for nobody, let it
-- go on to its receive: either the loop is waiting for the signal, or it is leaving and its deferred
-- closes release Poll.
pub signalling-Proceeds : {s : System} → Reach s → s.poller ≡ signalling → Proceeds s
signalling-Proceeds {s} r p = elim (at_signal s (Reach-Inv r) p) [
  | inl w ↦ (
    _,
    next (signal p w) here,
    after_signal_receiving (record s { loop = allowing }) (stash_empty s (Reach-Inv r) p),
  )
  | inr l ↦ stopped-Proceeds s s.loop refl p (stash_empty s (Reach-Inv r) p) l
]
