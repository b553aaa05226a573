-- ===== src/Options/Bounds.antt =====
-- franzadapter/adapter_options.go: the ranges that `validate` leaves the durations in.
use llingr_adapter_franz.Prelude.{pos, ◌≤ℤ◌, ◌<ℤ◌, List, ◌≡◌, ◌⊎◌, arith}
use llingr_adapter_franz.Options.{
  AdapterOptions, AdapterOption, min_poll_error_bail_after, max_poll_error_bail_after,
  max_poll_error_backoff, validate, process_adapter_options, apply_options, default_adapter_options,
}

-- The documented ranges: a positive log interval, a bail time that is 0 (off) or within a minute and
-- an hour, and a backoff that is 0 (off) or at most five seconds.
pub record InRange (o : AdapterOptions) : Type 0 where
  pub log_interval : pos 0 <ℤ o.poll_error_log_interval
  pub bail_after :
      (o.poll_error_bail_after ≡ pos 0)
      ⊎ ((min_poll_error_bail_after ≤ℤ o.poll_error_bail_after)
          × (o.poll_error_bail_after ≤ℤ max_poll_error_bail_after))
  pub backoff :
      (o.poll_error_backoff ≡ pos 0)
      ⊎ ((pos 0 <ℤ o.poll_error_backoff) × (o.poll_error_backoff ≤ℤ max_poll_error_backoff))

validate-InRange : (o : AdapterOptions) → InRange (validate o)
unfolding validate
validate-InRange o = record {
  log_interval = ground arith;
  bail_after = ground arith;
  backoff = ground arith;
}

-- Whatever options are supplied, in whatever order, nil options among them, the resolved options lie
-- in the documented ranges: a positive log interval, a bail time of 0 or between one minute and one
-- hour, and a backoff of 0 or at most five seconds.
pub process_adapter_options-InRange :
    (options : List AdapterOption) → InRange (process_adapter_options options)
unfolding process_adapter_options
process_adapter_options-InRange options =
    validate-InRange (apply_options options default_adapter_options)

-- Validation leaves options that lie in the documented ranges alone.
validate_of_InRange : (o : AdapterOptions) → InRange o → validate o ≡ o
unfolding validate
validate_of_InRange o h = ground (arith, h.log_interval, h.bail_after, h.backoff)

-- Validating twice is validating once, for all options.
pub validate_idem : (o : AdapterOptions) → validate (validate o) ≡ validate o
validate_idem o = validate_of_InRange (validate o) (validate-InRange o)
