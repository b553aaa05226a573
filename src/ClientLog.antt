-- ===== src/ClientLog.antt =====
-- franzadapter/client_logger.go: the bridge from franz-go's log to the consumer's logger. A logger and
-- its context are one value of a type of its own; how `%v` prints a value is a parameter.
use llingr_adapter_franz.Prelude.{
  ℕ, zero, suc, ◌+◌, ltb, length, if◌then◌else◌, GoString, text, Option, none, some, List, [], ◌∷◌,
  ◌++◌,
}
use llingr_adapter_franz.Foreign.{
  LogLevel, log_level_none, log_level_error, log_level_warn, log_level_info, log_level_debug,
}
use llingr_adapter_franz.Effects.{Severity, debug, info, warn, error}
pub mod Format
pub mod Delivery

pub record ClientLogBridge {ℓ} (Logger : Type ℓ) : Type ℓ where
  pub level : LogLevel
  pub target : Option Logger

-- A line that a logger got.
pub record Delivered {ℓ} (Logger : Type ℓ) : Type ℓ where
  pub logger : Logger
  pub severity : Severity
  pub line : GoString

-- keyvals[i]
unfoldable pub at {ℓ} : {A : Type ℓ} → ℕ → List A → Option A
at n [] = none
at zero (x ∷ xs) = some x
at (suc n) (x ∷ xs) = at n xs

unfoldable pub severity_of : LogLevel → Severity
severity_of log_level_error = error
severity_of log_level_warn = warn
severity_of log_level_info = info
severity_of log_level_debug = debug
severity_of log_level_none = debug

module _ {κ} {A : Type κ} (render : A → GoString) where
  -- One round of the loop: the key at `i` and the value behind it, if there is one.
  unfoldable pub write_keyval : Option A → Option A → GoString
  write_keyval (some k) (some v) = text " " ++ (render k ++ (text "=" ++ render v))
  write_keyval (some k) none = text " " ++ render k
  write_keyval none _ = []

  -- The loop, from the index `i`. Each round takes two of the keyvals, so their number is fuel enough.
  unfoldable pub write_keyvals : ℕ → ℕ → List A → GoString
  unfolding write_keyval at
  write_keyvals zero i keyvals = []
  write_keyvals (suc fuel) i keyvals =
      let rest = write_keyvals fuel (2 + i) keyvals in
      if ltb i (length keyvals)
      then (if ltb 0 i then [] else text ";")
        ++ (write_keyval (at i keyvals) (at (1 + i) keyvals) ++ rest)
      else []

  unfoldable pub format_client_log : GoString → List A → GoString
  unfolding write_keyvals
  format_client_log msg keyvals =
      text "franz-go: " ++ (msg ++ write_keyvals (length keyvals) 0 keyvals)

module _ {ℓ} {Logger : Type ℓ} where
  unfoldable pub new_client_log_bridge : LogLevel → ClientLogBridge Logger
  new_client_log_bridge level = record { level = level; target = none }

  -- A nil logger is `none`.
  unfoldable pub attach : Option Logger → ClientLogBridge Logger → ClientLogBridge Logger
  attach none b = b
  attach (some logger) b = record b { target = some logger }

  unfoldable pub log_client {κ} :
      {A : Type κ} (render : A → GoString)
      → LogLevel
      → GoString
      → List A
      → ClientLogBridge Logger
      → List (Delivered Logger)
  unfolding format_client_log severity_of
  log_client render level msg keyvals b = elim b.target [
    | none ↦ []
    | some logger ↦
        record {
          logger = logger;
          severity = severity_of level;
          line = format_client_log render msg keyvals;
        }
        ∷ []
  ]
