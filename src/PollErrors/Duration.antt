-- ===== src/PollErrors/Duration.antt =====
-- franzadapter/broker_port.go, handlePollErrors: what the difference of two instants keeps of them, cut to
-- a Duration as it is.
use llingr_adapter_franz.Prelude.{ℕ, ℤ, pos, sub_ℕ, ◌≤ℤ◌, ◌≡◌, arith}
use llingr_adapter_franz.PollErrors.{time_sub, max_duration}

pub time_sub_self : (n : ℕ) → time_sub n n ≡ pos 0
unfolding time_sub
time_sub_self n = ground arith

-- A Duration that the difference reaches is reached by it as cut.
pub time_sub-reaches :
    (d : ℤ) (now then_at : ℕ)
    → d ≤ℤ pos max_duration
    → d ≤ℤ sub_ℕ now then_at
    → d ≤ℤ time_sub now then_at
unfolding time_sub
time_sub-reaches d now then_at fits h = ground arith
