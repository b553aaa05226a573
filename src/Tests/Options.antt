-- ===== src/Tests/Options.antt =====
-- Tests and instances for the modules of franzadapter/adapter_options.go.
use llingr_adapter_franz.Prelude.{pos, negsuc, none, List, [], ◌∷◌, ◌≡◌, refl}
use llingr_adapter_franz.Options.{
  AdapterOption, second, minute, hour, process_adapter_options, with_poll_error_backoff,
  with_poll_error_bail_after, with_poll_error_log_interval,
}
use llingr_adapter_franz.Options.Bounds.{InRange, process_adapter_options-InRange}

abbrev odd_options : List AdapterOption
odd_options =
    with_poll_error_bail_after (pos second)
    ∷ none
    ∷ with_poll_error_backoff (pos hour)
    ∷ with_poll_error_log_interval (negsuc 4)
    ∷ []

odd_bail_after : (process_adapter_options odd_options).poll_error_bail_after ≡ pos minute
unfolding process_adapter_options with_poll_error_bail_after with_poll_error_backoff
    with_poll_error_log_interval
odd_bail_after = refl

process_adapter_options-InRange_example : InRange (process_adapter_options odd_options)
process_adapter_options-InRange_example = process_adapter_options-InRange odd_options
