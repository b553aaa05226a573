-- ===== src/Bandwidth/Port/Stopping.antt =====
-- franzadapter/bandwidth.go: stop waits for the emitLoops, and no packet follows it.
use llingr_adapter_franz.Prelude.{ℕ, zero, suc, ◌-◌, true, ◌≡◌, refl, arith}
use llingr_adapter_franz.Bandwidth.Port.{
  Telemetry, set_bandwidth_callback, on_fetch_batch_read, on_broker_read, on_broker_write,
  tick_step, Step, batch, read, write, callback_set, tick, loop_quits, stop_begins, stop_returns,
  Reach, set_up, later,
}

-- After stop has returned no emitLoop runs.
abbrev IsQuiet : Telemetry → Type 0
IsQuiet t = t.stopped ≡ true → t.loops ≡ 0

Step-IsQuiet : {s t : Telemetry} → Step s t → IsQuiet s → IsQuiet t
unfolding set_bandwidth_callback on_fetch_batch_read on_broker_read on_broker_write tick_step
Step-IsQuiet (batch meta p m) h = ground arith
Step-IsQuiet (read meta) h = ground arith
Step-IsQuiet (write meta) h = ground arith
Step-IsQuiet (callback_set has_callback) h = ground arith
Step-IsQuiet (tick now random r) h = ground arith
Step-IsQuiet (loop_quits r q) h = ground arith
Step-IsQuiet stop_begins h = h
Step-IsQuiet (stop_returns e q) h = ground arith

Reach-IsQuiet : {t : Telemetry} → Reach t → IsQuiet t
Reach-IsQuiet (set_up t l q s p) = ground arith
Reach-IsQuiet (later r st) = Step-IsQuiet st (Reach-IsQuiet r)

-- After stop has returned, and until the callback is set again, no packet is emitted: every step
-- that is possible leaves the packets as they are.
pub no_packet_behind_stop :
    {s t : Telemetry} → Reach s → s.stopped ≡ true → Step s t → t.packets ≡ s.packets
unfolding set_bandwidth_callback on_fetch_batch_read on_broker_read on_broker_write
no_packet_behind_stop r h (batch meta p m) = ground arith
no_packet_behind_stop r h (read meta) = ground arith
no_packet_behind_stop r h (write meta) = ground arith
no_packet_behind_stop r h (callback_set has_callback) = ground arith
no_packet_behind_stop r h (tick now random k) = absurd (omega (arith, Reach-IsQuiet r h))
no_packet_behind_stop r h (loop_quits k q) = refl
no_packet_behind_stop r h stop_begins = refl
no_packet_behind_stop r h (stop_returns e q) = refl

pub data Steps : Telemetry → Telemetry → Type 0 where
  here : {s : Telemetry} → Steps s s
  next : {s t u : Telemetry} → Step s t → Steps t u → Steps s u

-- Steps of the emitLoops alone let stop return, with no packet more.
abbrev pub Stops : Telemetry → Type 0
Stops s = (t : Telemetry) × Steps s t × (t.stopped ≡ true) × (t.packets ≡ s.packets)

loops_stop : (n : ℕ) (s : Telemetry) → s.loops ≡ n → s.quit ≡ true → Stops s
loops_stop zero s e q = (_, next (stop_returns e q) here, refl, refl)
loops_stop (suc n) s e q =
    let (t, steps, stopped, same) =
      loops_stop n (record s { loops = s.loops - 1 }) (omega (arith, e)) q in
    (t, next (loop_quits (omega (arith, e)) q) steps, stopped, same)

-- Stop does not wait for good, whatever the number of emitLoops that were started: once it has begun
-- they can all leave, and it returns.
pub stop_ends : (s : Telemetry) → Stops (record s { quit = true })
stop_ends s = loops_stop s.loops _ refl refl
