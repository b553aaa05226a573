-- ===== src/Balancers/Fallback.antt =====
-- franzadapter/compatibility.go: what each wrapped balancer names as skipped, and what it logs over its
-- calls.
use llingr_adapter_franz.Prelude.{
  ℕ, suc, ◌+◌, length, true, false, GoString, some, List, [], ◌∷◌, ◌++◌, map, ◌≡◌, refl, ap, ◌∙◌,
  arith,
}
use llingr_adapter_franz.Effects.{Effect}
use llingr_adapter_franz.ClientLog.{at}
use llingr_adapter_franz.Balancers.{
  Parsed, GroupBalancer, LoggingBalancer, skipped_names, wrap_from, compatibility_balancers,
  selection, wrap_error, parse_sync_assignment,
}

abbrev pub names : List GroupBalancer → List GoString
names [] = []
names (b ∷ balancers) = b.protocol_name ∷ names balancers

skipped_names-append :
    (before rest : List GroupBalancer)
    → skipped_names (length before) (before ++ rest) ≡ names before
unfolding skipped_names
skipped_names-append [] rest = refl
skipped_names-append (b ∷ before) rest =
    ap (λ l. b.protocol_name ∷ l) (skipped_names-append before rest)

abbrev pub wrapped_as : List GroupBalancer → GroupBalancer → LoggingBalancer
wrapped_as before b = record {
  balancer = b;
  index = length before;
  skipped = names before;
  logged = false;
}

abbrev entry : List GroupBalancer → GroupBalancer → ℕ → LoggingBalancer
entry all b i = record { balancer = b; index = i; skipped = skipped_names i all; logged = false }

at-wrap_from :
    (all : List GroupBalancer) (i : ℕ) (before : List GroupBalancer) (b : GroupBalancer)
    (after : List GroupBalancer)
    → at (length before) (wrap_from all i (before ++ b ∷ after))
      ≡ some (entry all b (i + length before))
unfolding wrap_from at
at-wrap_from all i [] b after = ap (λ n. some (entry all b n)) (omega arith)
at-wrap_from all i (c ∷ before) b after =
    at-wrap_from all (suc i) before b after ∙ ap (λ n. some (entry all b n)) (omega arith)

-- Of a list of balancers in the order of priority, the one at each position is wrapped with its
-- position and with the names of those before it, in order, and has logged nothing.
compatibility_balancers-at :
    (before : List GroupBalancer) (b : GroupBalancer) (after : List GroupBalancer)
    → at (length before) (compatibility_balancers (before ++ b ∷ after))
      ≡ some (wrapped_as before b)
unfolding compatibility_balancers
compatibility_balancers-at before b after =
    at-wrap_from (before ++ b ∷ after) 0 before b after
    ∙ ap (λ n. some (entry (before ++ b ∷ after) b n)) (omega arith)
    ∙ ap (λ l. some (record (wrapped_as before b) { skipped = l }))
        (skipped_names-append before (b ∷ after))

unfoldable pub run_parses : List (List ℕ) → LoggingBalancer → List Effect × List Parsed
run_parses [] lb = ([], [])
run_parses (bytes ∷ later) lb =
    let (lb', effects, parsed) = parse_sync_assignment bytes lb in
    let (effects', parses) = run_parses later lb' in (effects ++ effects', parsed ∷ parses)

run_parses-quiet :
    (calls : List (List ℕ)) (lb : LoggingBalancer)
    → lb.logged ≡ true
    → run_parses calls lb ≡ ([], map (λ bytes. wrap_error (lb.balancer.parse bytes)) calls)
unfolding run_parses parse_sync_assignment
run_parses-quiet [] lb h = refl
run_parses-quiet (bytes ∷ calls) lb h =
    rw (h, run_parses-quiet calls (record lb { logged = true }) refl)

-- Over any sequence of calls of ParseSyncAssignment on a balancer that has logged nothing yet, only the
-- first call logs, one line on the selection; each call returns what the wrapped balancer parses, an
-- error wrapped, whether it logs or not.
pub run_parses-once :
    (bytes : List ℕ) (calls : List (List ℕ)) (lb : LoggingBalancer)
    → lb.logged ≡ false
    → run_parses (bytes ∷ calls) lb
      ≡ (selection lb ∷ [], map (λ bs. wrap_error (lb.balancer.parse bs)) (bytes ∷ calls))
unfolding run_parses parse_sync_assignment
run_parses-once bytes calls lb h = rw (h, run_parses-quiet calls (record lb { logged = true }) refl)
