-- ===== src/Session/Topic.antt =====
-- franzadapter/broker_port.go: one consumer serves one topic.
use llingr_adapter_franz.Prelude.{
  GoString, Bool, true, false, Option, none, some, List, [], ◌∷◌, ◌++◌, ◌≡◌, ◌⊎◌, refl, arith,
}
use llingr_adapter_franz.Foreign.{Record}
use llingr_adapter_franz.Effects.{Effect}
use llingr_adapter_franz.Fetch.{FetchConfig, fetch_next}
use llingr_adapter_franz.Fetch.Refusal.{fetched_record_is_ours}
use llingr_adapter_franz.Gate.{System, start}
use llingr_adapter_franz.Gate.Safety.{records_in_order}
use llingr_adapter_franz.Gate.Invariant.{in_hand, in_channel}
use llingr_adapter_franz.Session.{
  Session, after_fetch, fetch_step, release_step, unsubscribe_step, Step, Reach, polling, allow,
  allow_on_exit, shared, unsubscribing, releasing, began, later, subscribed,
}
use llingr_adapter_franz.Session.Invariant.{shared_keeps}
use llingr_adapter_franz.Session.Refinement.{Reach-gate}

-- The record is of the configured topic, if one is configured.
abbrev pub IsOurs : GoString → Record → Type 0
IsOurs topic r = (topic ≡ []) ⊎ (r.topic ≡ topic)

abbrev pub AreOurs : GoString → List Record → Type 0
AreOurs topic [] = Unit {0}
AreOurs topic (r ∷ rs) = IsOurs topic r × AreOurs topic rs

AreOurs-append :
    (topic : GoString) (xs ys : List Record)
    → AreOurs topic xs
    → AreOurs topic ys
    → AreOurs topic (xs ++ ys)
AreOurs-append topic [] ys h k = k
AreOurs-append topic (x ∷ xs) ys h k = (h.0, AreOurs-append topic xs ys h.1 k)

AreOurs-front :
    (topic : GoString) (xs ys : List Record) → AreOurs topic (xs ++ ys) → AreOurs topic xs
AreOurs-front topic [] ys h = tt
AreOurs-front topic (x ∷ xs) ys h = (h.0, AreOurs-front topic xs ys h.1)

after_fetch-AreOurs :
    (topic : GoString) (r : Option Record) (exit : Bool) (g : System)
    → ((r' : Record) → r ≡ some r' → IsOurs topic r')
    → AreOurs topic g.fetched
    → AreOurs topic (after_fetch r exit g).fetched
unfolding after_fetch
after_fetch-AreOurs topic r true g ours h = h
after_fetch-AreOurs topic none false g ours h = h
after_fetch-AreOurs topic (some r) false g ours h =
    AreOurs-append topic g.fetched (r ∷ []) h (ours r refl, tt)

release_step-fetched :
    (e : Effect) (rest : List Effect) (s : Session)
    → (release_step e rest s).gate.fetched ≡ s.gate.fetched
unfolding release_step
release_step-fetched e rest s = ground arith

Step-AreOurs :
    {c : FetchConfig} {s t : Session}
    → Step c s t
    → AreOurs c.topic_name s.gate.fetched
    → AreOurs c.topic_name t.gate.fetched
unfolding fetch_step unsubscribe_step
Step-AreOurs {c} {s} (polling now fetches e) h =
    let (_, _, r, exit) = fetch_next c now s.gate.cancelled fetches s.fetch in
    after_fetch-AreOurs c.topic_name r exit s.gate
      (λ r' got. (fetched_record_is_ours c now s.gate.cancelled fetches s.fetch got).1) h
Step-AreOurs (allow e) h = h
Step-AreOurs (allow_on_exit e) h = h
Step-AreOurs (shared st e) h = rw (shared_keeps st e).2 h
Step-AreOurs (unsubscribing env e) h = h
Step-AreOurs {s = s} (releasing e rest t m) h = rw (release_step-fetched e rest s) h

Reach-AreOurs : {c : FetchConfig} {s : Session} → Reach c s → AreOurs c.topic_name s.gate.fetched
unfolding subscribed start
Reach-AreOurs (began rebalance fetch lifecycle started fresh) = tt
Reach-AreOurs (later r st) = Step-AreOurs st (Reach-AreOurs r)

-- Whatever the client returns and however everything interleaves: every record that Poll has
-- returned to the engine is of the configured topic, if one is configured.
pub only_our_records :
    {c : FetchConfig} {s : Session} → Reach c s → AreOurs c.topic_name s.gate.returned_so_far
only_our_records {c} {s} r =
    let g = s.gate in
    let front = AreOurs-front c.topic_name in
    let held = g.returned_so_far ++ in_hand g.poller g.poll in
    let all : AreOurs c.topic_name (held ++ in_channel g.loop ++ g.dropped) =
      rw (← (records_in_order (Reach-gate r)).0) (Reach-AreOurs r) in
    front g.returned_so_far (in_hand g.poller g.poll)
      (front held (in_channel g.loop) (front (held ++ in_channel g.loop) g.dropped all))
