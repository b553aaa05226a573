-- ===== src/Session/Closing.antt =====
-- franzadapter/broker_port.go: the fetch loop's calls of the client against its registration and its
-- close.
use llingr_adapter_franz.Prelude.{◌+◌, true, false, if◌then◌else◌, ◌≡◌, arith}
use llingr_adapter_franz.Fetch.{FetchConfig}
use llingr_adapter_franz.Gate.{exited}
use llingr_adapter_franz.Effects.Counting.{how_often}
use llingr_adapter_franz.Session.{Session, Reach}
use llingr_adapter_franz.Session.Traces.{is_allow, quiet}
use llingr_adapter_franz.Session.Invariant.{Reach-Inv}

-- Whatever happens after a Subscribe that no Unsubscribe has preceded: if releaseBroker's wait for the
-- fetch loop is not ended by its timeout, the loop neither polls the client nor calls AllowRebalance once the client has been
-- closed, and when the client is closed the loop has exited.
pub no_call_behind_close :
    {c : FetchConfig} {s : Session}
    → Reach c s
    → s.loop_stops ≡ true
    → (quiet false s.trace ≡ true) × (s.closed ≡ true → s.gate.loop ≡ exited)
no_call_behind_close r h = ground (arith, Reach-Inv r)

-- Whatever happens after a Subscribe that no Unsubscribe has preceded: every poll that left its registration held (it brought a record,
-- or ended the loop) is followed by one call of AllowRebalance, and there is no other such call; the
-- last one is outstanding exactly while a registration is held.
pub each_poll_released :
    {c : FetchConfig} {s : Session}
    → Reach c s
    → how_often is_allow s.trace + (if s.gate.registered then 1 else 0) ≡ s.holding_polls
each_poll_released r = (Reach-Inv r).balance
