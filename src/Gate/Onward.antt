-- ===== src/Gate/Onward.antt =====
-- franzadapter/broker_port.go: from the dispatch of a record to the loop's next fetch.
use llingr_adapter_franz.Prelude.{true, false, none, some, ◌≡◌, refl, ◌∙◌, arith}
use llingr_adapter_franz.Rebalance.{Wiring}
use llingr_adapter_franz.Foreign.{Record}
use llingr_adapter_franz.Gate.{
  fetching, waiting, allowing, outside, signalling, receiving, processing, System, after_signal,
  call_poll, Step, allow, dispatch, call, signal, return,
}
use llingr_adapter_franz.Gate.Progress.{Steps, here, next}

-- A call of Poll that returns in this step got these answers of the engine and the broker.
abbrev pub IsAnswered : Wiring → {s t : System} → Step s t → Type 0
IsAnswered w (return w' meanwhile in_hand e) = w' ≡ w
IsAnswered w _ = Unit {0}

abbrev pub AllAnswered : Wiring → {s t : System} → Steps s t → Type 0
AllAnswered w here = Unit {0}
AllAnswered w (next st steps) = IsAnswered w st × AllAnswered w steps

-- Steps, with these answers, lead to the next fetch with no record fetched on the way.
abbrev pub Reopens : Wiring → System → Type 0
Reopens w s =
    (t : System) × (steps : Steps s t) × AllAnswered w steps
    × (t.loop ≡ fetching)
    × (t.fetched ≡ s.fetched)

pub onward :
    {w : Wiring} {s t : System} (st : Step s t)
    → IsAnswered w st
    → t.fetched ≡ s.fetched
    → Reopens w t
    → Reopens w s
onward st by same (u, steps, answered, open_again, kept) =
    (u, next st steps, (by, answered), open_again, kept ∙ same)

pub allowing-Reopens : (w : Wiring) (s : System) → s.loop ≡ allowing → Reopens w s
allowing-Reopens w s e = onward (allow e) tt refl (_, here, tt, refl, refl)

after_signal-keeps :
    (s : System) → ((after_signal s).loop ≡ s.loop) × ((after_signal s).fetched ≡ s.fetched)
unfolding after_signal
after_signal-keeps s = ground arith

pub signalling-Reopens :
    (w : Wiring) (s : System) → s.poller ≡ signalling → s.loop ≡ waiting → Reopens w s
signalling-Reopens w s p e =
    let (at, kept) = after_signal-keeps (record s { loop = allowing }) in
    onward (signal p e) tt kept (allowing-Reopens w _ at)

-- Poll is called with a dispatch to signal.
module _ (s : System) (p : s.poller ≡ outside) (d : s.in_dispatch ≡ none) where
  pub call-signals :
      s.poll.record_awaiting_dispatch ≡ true
      → ((call_poll s).poller ≡ signalling)
        × ((call_poll s).loop ≡ s.loop)
        × ((call_poll s).fetched ≡ s.fetched)
  unfolding call_poll
  call-signals a = ground arith

  pub awaiting-Reopens :
      (w : Wiring) → s.poll.record_awaiting_dispatch ≡ true → s.loop ≡ waiting → Reopens w s
  awaiting-Reopens w a e =
      let (at, kept, same) = call-signals a in
      onward (call p d) tt same (signalling-Reopens w (call_poll s) at (kept ∙ e))

  pub call-takes_stash :
      (r : Record)
      → s.poll.record_awaiting_dispatch ≡ false
      → s.poll.pending_record ≡ some r
      → ((call_poll s).poller ≡ processing (some r))
        × ((call_poll s).loop ≡ s.loop)
        × ((call_poll s).fetched ≡ s.fetched)
  unfolding call_poll after_signal
  call-takes_stash r a stash = ground arith

  pub call-receives :
      s.poll.record_awaiting_dispatch ≡ false
      → s.poll.pending_record ≡ none
      → ((call_poll s).poller ≡ receiving)
        × ((call_poll s).loop ≡ s.loop)
        × ((call_poll s).fetched ≡ s.fetched)
  unfolding call_poll after_signal
  call-receives a n = ground arith

pub dispatching-Reopens :
    (w : Wiring) (s : System) (r : Record)
    → s.poller ≡ outside
    → s.in_dispatch ≡ some r
    → s.poll.record_awaiting_dispatch ≡ true
    → s.loop ≡ waiting
    → Reopens w s
dispatching-Reopens w s r p d a e =
    onward (dispatch r p d) tt refl (awaiting-Reopens _ p refl w a e)
