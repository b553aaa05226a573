-- ===== src/Options.antt =====
-- franzadapter/adapter_options.go: the resolved options, the option helpers, their folding over the
-- defaults and the clamping. A duration is its count of nanoseconds, an `int64`, as an integer.
use llingr_adapter_franz.Prelude.{
  ℕ, ℤ, pos, ltb_ℤ, leb_ℤ, Bool, true, if◌then◌else◌, Option, none, some, List, [], ◌∷◌, ◌*◌,
}
use llingr_adapter_franz.Foreign.{LogLevel, log_level_info}
pub mod Bounds
pub mod Folding

abbrev pub millisecond : ℕ
millisecond = 1_000_000

abbrev pub second : ℕ
second = 1_000_000_000

abbrev pub minute : ℕ
minute = 60_000_000_000

abbrev pub hour : ℕ
hour = 3_600_000_000_000

pub record AdapterOptions : Type 0 where
  pub poll_error_log_interval : ℤ
  pub poll_error_bail_after : ℤ
  pub poll_error_backoff : ℤ
  pub assignment_offset_lookup : Bool
  pub client_log_level : LogLevel

abbrev pub default_poll_error_log_interval : ℤ
default_poll_error_log_interval = pos second

abbrev pub default_poll_error_bail_after : ℤ
default_poll_error_bail_after = pos (10 * minute)

abbrev pub min_poll_error_bail_after : ℤ
min_poll_error_bail_after = pos minute

abbrev pub max_poll_error_bail_after : ℤ
max_poll_error_bail_after = pos hour

abbrev pub default_poll_error_backoff : ℤ
default_poll_error_backoff = pos (25 * millisecond)

abbrev pub max_poll_error_backoff : ℤ
max_poll_error_backoff = pos (5 * second)

-- An option changes the options it is given; a nil option is `none`.
abbrev pub AdapterOption : Type 0
AdapterOption = Option (AdapterOptions → AdapterOptions)

unfoldable pub with_poll_error_log_interval : ℤ → AdapterOption
with_poll_error_log_interval d = some (λ o. record o { poll_error_log_interval = d })

unfoldable pub with_poll_error_bail_after : ℤ → AdapterOption
with_poll_error_bail_after d = some (λ o. record o { poll_error_bail_after = d })

unfoldable pub with_poll_error_backoff : ℤ → AdapterOption
with_poll_error_backoff d = some (λ o. record o { poll_error_backoff = d })

unfoldable pub with_client_log_level : LogLevel → AdapterOption
with_client_log_level level = some (λ o. record o { client_log_level = level })

unfoldable pub with_assignment_offset_lookup : Bool → AdapterOption
with_assignment_offset_lookup enabled = some (λ o. record o { assignment_offset_lookup = enabled })

unfoldable pub default_adapter_options : AdapterOptions
default_adapter_options = record {
  poll_error_log_interval = default_poll_error_log_interval;
  poll_error_bail_after = default_poll_error_bail_after;
  poll_error_backoff = default_poll_error_backoff;
  assignment_offset_lookup = true;
  client_log_level = log_level_info;
}

-- 0 or negative disables; otherwise clamp to [min, max].
unfoldable pub clamp_bail_after : ℤ → ℤ
clamp_bail_after d =
    if leb_ℤ d (pos 0)
    then pos 0
    else if ltb_ℤ d min_poll_error_bail_after
    then min_poll_error_bail_after
    else if ltb_ℤ max_poll_error_bail_after d
    then max_poll_error_bail_after
    else d

-- 0 or negative disables; otherwise clamp to (0, max].
unfoldable pub clamp_backoff : ℤ → ℤ
clamp_backoff d =
    if leb_ℤ d (pos 0)
    then pos 0
    else if ltb_ℤ max_poll_error_backoff d
    then max_poll_error_backoff
    else d

unfoldable pub validate : AdapterOptions → AdapterOptions
unfolding clamp_bail_after clamp_backoff
validate o = record o {
  poll_error_log_interval =
      if leb_ℤ o.poll_error_log_interval (pos 0)
      then default_poll_error_log_interval
      else o.poll_error_log_interval;
  poll_error_bail_after = clamp_bail_after o.poll_error_bail_after;
  poll_error_backoff = clamp_backoff o.poll_error_backoff;
}

-- The loop of processAdapterOptions: a nil option is skipped.
unfoldable pub apply_options : List AdapterOption → AdapterOptions → AdapterOptions
apply_options [] o = o
apply_options (none ∷ options) o = apply_options options o
apply_options (some opt ∷ options) o = apply_options options (opt o)

unfoldable pub process_adapter_options : List AdapterOption → AdapterOptions
unfolding validate apply_options default_adapter_options
process_adapter_options options = validate (apply_options options default_adapter_options)
