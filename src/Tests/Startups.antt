-- ===== src/Tests/Startups.antt =====
-- Tests and instances for the validation, the log bridge and the balancers.
use llingr_adapter_franz.Prelude.{
  ℕ, ◌*◌, pos, text, GoString, Bool, true, false, none, some, List, [], ◌∷◌, ◌++◌, map, ◌≡◌, ◌↔◌,
  refl,
}
use llingr_adapter_franz.Foreign.{message, log_level_info, log_level_warn}
use llingr_adapter_franz.Effects.{print, session_timeout_low, isolation_defaults}
use llingr_adapter_franz.Options.{second}
use llingr_adapter_franz.Procedure.{returned, skip}
use llingr_adapter_franz.Validate.{
  unset, bool, int8, duration, ClientConfig, validate_client, min_session_timeout,
  min_rebalance_timeout,
}
use llingr_adapter_franz.Validate.Startup.{IsLong, IsIsolated, IsNegotiated, validate_client-skip}
use llingr_adapter_franz.ClientLog.{format_client_log, new_client_log_bridge}
use llingr_adapter_franz.ClientLog.Format.{entries, show_tail, format_client_log-entries}
use llingr_adapter_franz.ClientLog.Delivery.{
  LogCall, attaching, logging, run_log, line_for, log_client-latest,
}
use llingr_adapter_franz.Balancers.{
  GroupBalancer, parse_error, LoggingBalancer, selection, wrap_error,
}
use llingr_adapter_franz.Balancers.Fallback.{wrapped_as, run_parses, run_parses-once}
use llingr_adapter_franz.ClientLog.{at}

abbrev plain_client : ClientConfig
plain_client = record {
  disable_auto_commit = bool true;
  block_rebalance_on_poll = bool true;
  balancers = unset;
  fetch_isolation_level = unset;
  session_timeout = duration (pos (24 * second));
  rebalance_timeout = unset;
}

abbrev auto_committing : ClientConfig
auto_committing = record plain_client { disable_auto_commit = unset }

abbrev quiet_client : ClientConfig
quiet_client = record plain_client {
  fetch_isolation_level = int8 (pos 1);
  session_timeout = duration (pos (25 * second));
}

plain_client_warned :
    validate_client plain_client
    ≡ (print isolation_defaults ∷ print (session_timeout_low (pos (24 * second))) ∷ [], returned)
unfolding validate_client
plain_client_warned = refl

validate_client-skip_case : (validate_client quiet_client ≡ skip) ↔ (
    (bool true ≡ bool true)
    × (bool true ≡ bool true)
    × IsNegotiated unset
    × IsIsolated (int8 (pos 1))
    × IsLong min_session_timeout (duration (pos (25 * second)))
    × IsLong min_rebalance_timeout unset)
validate_client-skip_case = validate_client-skip quiet_client

abbrev verbatim : GoString → GoString
verbatim s = s

abbrev keyvals : List GoString
keyvals = text "group" ∷ text "g" ∷ text "member_id" ∷ []

joined_group :
    format_client_log verbatim (text "joined group") keyvals
    ≡ text "franz-go: joined group; group=g member_id"
unfolding format_client_log at
joined_group = refl

format_client_log-entries_example :
    format_client_log verbatim (text "joined group") keyvals
    ≡ text "franz-go: " ++ (text "joined group" ++ show_tail verbatim (entries keyvals))
format_client_log-entries_example = format_client_log-entries verbatim (text "joined group") keyvals

-- The loggers are the numbers 1 and 2.
abbrev log_calls : List (LogCall ℕ GoString)
log_calls =
    logging log_level_info (text "dropped") []
    ∷ attaching (some 1)
    ∷ attaching (some 2)
    ∷ attaching none
    ∷ []

log_client-latest_case :
    run_log verbatim
      (log_calls ++ logging log_level_warn (text "left") keyvals ∷ [])
      (new_client_log_bridge log_level_info)
    ≡ run_log verbatim log_calls (new_client_log_bridge log_level_info)
      ++ line_for verbatim (some 2) log_level_warn (text "left") keyvals
log_client-latest_case =
    log_client-latest verbatim log_level_info log_calls log_level_warn (text "left") keyvals

abbrev balancer_named : GoString → Bool → GroupBalancer
balancer_named name cooperative = record {
  protocol_name = name;
  is_cooperative = cooperative;
  parse = λ bytes. parse_error (message bytes);
}

abbrev cooperative_one : GroupBalancer
cooperative_one = balancer_named (text "cooperative-sticky") true

abbrev sticky_one : GroupBalancer
sticky_one = balancer_named (text "sticky") false

abbrev range_one : GroupBalancer
range_one = balancer_named (text "range") false

abbrev range_fallback : LoggingBalancer
range_fallback = wrapped_as (cooperative_one ∷ sticky_one ∷ []) range_one

run_parses-once_example : run_parses ((1 ∷ []) ∷ (2 ∷ []) ∷ []) range_fallback ≡ (
  selection range_fallback ∷ [],
  map (λ bs. wrap_error (range_fallback.balancer.parse bs)) ((1 ∷ []) ∷ (2 ∷ []) ∷ []),
)
run_parses-once_example = run_parses-once (1 ∷ []) ((2 ∷ []) ∷ []) range_fallback refl
