-- ===== src/Session/Traces.antt =====
-- franzadapter/broker_port.go: predicates on the calls that the fetch loop and releaseBroker make.
use llingr_adapter_franz.Prelude.{
  Bool, true, false, not, ◌&&◌, ◌||◌, List, [], ◌∷◌, ◌++◌, ◌≡◌, refl, arith,
}
use llingr_adapter_franz.Effects.{
  Effect, poll_records, allow_rebalance, close_client, await_fetch_loop,
}
use llingr_adapter_franz.Fetch.Calls.{client_calls}
use llingr_adapter_franz.Effects.Counting.{how_often}
use llingr_adapter_franz.Lifecycle.Release.{closes}

abbrev pub is_allow : Effect → Bool
is_allow allow_rebalance = true
is_allow _ = false

-- The calls of the client that the fetch loop makes.
abbrev pub is_loop_call : Effect → Bool
is_loop_call poll_records = true
is_loop_call allow_rebalance = true
is_loop_call _ = false

-- The loop makes no call of the client behind its close; the flag tells that it is closed already.
abbrev pub quiet : Bool → List Effect → Bool
quiet closed [] = true
quiet closed (close_client ∷ effects) = quiet true effects
quiet closed (poll_records ∷ effects) = not closed && quiet closed effects
quiet closed (allow_rebalance ∷ effects) = not closed && quiet closed effects
quiet closed (_ ∷ effects) = quiet closed effects

-- The client is closed only behind the wait for the loop; the flag tells that the wait is over.
abbrev pub closes_late : Bool → List Effect → Bool
closes_late awaited [] = true
closes_late awaited (await_fetch_loop ∷ effects) = closes_late true effects
closes_late awaited (close_client ∷ effects) = awaited && closes_late awaited effects
closes_late awaited (_ ∷ effects) = closes_late awaited effects

pub quiet-append :
    (closed : Bool) (xs ys : List Effect)
    → quiet closed (xs ++ ys) ≡ (quiet closed xs && quiet (closed || closes xs) ys)
quiet-append closed [] ys = ground arith
quiet-append closed (x ∷ xs) ys = ground (arith, quiet-append closed xs ys, quiet-append true xs ys)

pub closes-append : (xs ys : List Effect) → closes (xs ++ ys) ≡ (closes xs || closes ys)
closes-append [] ys = ground arith
closes-append (x ∷ xs) ys = ground (arith, closes-append xs ys)

pub quiet_if_not_closed : (xs : List Effect) → closes xs ≡ false → quiet false xs ≡ true
quiet_if_not_closed [] h = refl
quiet_if_not_closed (x ∷ xs) h = ground (arith, quiet_if_not_closed xs)

-- Effects that are no call of the client.
pub silent_closes : (xs : List Effect) → client_calls xs ≡ 0 → closes xs ≡ false
silent_closes [] h = refl
silent_closes (x ∷ xs) h = ground (arith, silent_closes xs)

pub silent_allows : (xs : List Effect) → client_calls xs ≡ 0 → how_often is_allow xs ≡ 0
silent_allows [] h = refl
silent_allows (x ∷ xs) h = ground (arith, silent_allows xs)
