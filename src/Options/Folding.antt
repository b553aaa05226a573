-- ===== src/Options/Folding.antt =====
-- franzadapter/adapter_options.go: the order in which options are folded.
use llingr_adapter_franz.Prelude.{ℤ, List, [], ◌∷◌, ◌++◌, none, some, Bool, ◌≡◌, refl}
use llingr_adapter_franz.Foreign.{LogLevel}
use llingr_adapter_franz.Options.{
  AdapterOptions, AdapterOption, apply_options, process_adapter_options, clamp_bail_after,
  clamp_backoff, default_adapter_options, with_poll_error_bail_after, with_poll_error_backoff,
  with_assignment_offset_lookup, with_client_log_level,
}

apply_options-append :
    (xs ys : List AdapterOption) (o : AdapterOptions)
    → apply_options (xs ++ ys) o ≡ apply_options ys (apply_options xs o)
unfolding apply_options
apply_options-append [] ys o = refl
apply_options-append (none ∷ xs) ys o = apply_options-append xs ys o
apply_options-append (some f ∷ xs) ys o = apply_options-append xs ys (f o)

abbrev pub then : List AdapterOption → AdapterOption → AdapterOptions
then options last = process_adapter_options (options ++ last ∷ [])

-- The last option wins: whatever options came before, a final WithPollErrorBailAfter(d) or
-- WithPollErrorBackoff(d) resolves to the clamped d, and a final WithAssignmentOffsetLookup(b) or
-- WithClientLogLevel(l) to b or l.
last_option_wins :
    (options : List AdapterOption) (d : ℤ) (b : Bool) (l : LogLevel)
    → ((then options (with_poll_error_bail_after d)).poll_error_bail_after ≡ clamp_bail_after d)
      × ((then options (with_poll_error_backoff d)).poll_error_backoff ≡ clamp_backoff d)
      × ((then options (with_assignment_offset_lookup b)).assignment_offset_lookup ≡ b)
      × ((then options (with_client_log_level l)).client_log_level ≡ l)
unfolding process_adapter_options with_poll_error_bail_after with_poll_error_backoff
    with_assignment_offset_lookup with_client_log_level
last_option_wins options d b l = (
  rw (apply_options-append options _ default_adapter_options),
  rw (apply_options-append options _ default_adapter_options),
  rw (apply_options-append options _ default_adapter_options),
  rw (apply_options-append options _ default_adapter_options),
)
