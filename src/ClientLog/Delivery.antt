-- ===== src/ClientLog/Delivery.antt =====
-- franzadapter/client_logger.go: which logger gets a line, over any sequence of attaches and lines.
use llingr_adapter_franz.Prelude.{
  GoString, Option, none, some, List, [], ◌∷◌, ◌++◌, append-nil, append_assoc, ◌≡◌, sym, arith,
}
use llingr_adapter_franz.Foreign.{LogLevel}
use llingr_adapter_franz.ClientLog.{
  ClientLogBridge, Delivered, new_client_log_bridge, attach, log_client, severity_of,
  format_client_log,
}

pub data LogCall {ℓ κ} (Logger : Type ℓ) (A : Type κ) : Type (ℓ ⊔ κ) where
  attaching : Option Logger → LogCall Logger A
  logging : LogLevel → GoString → List A → LogCall Logger A

module _ {ℓ κ} {Logger : Type ℓ} {A : Type κ} (render : A → GoString) where
  unfoldable pub run_log :
      List (LogCall Logger A) → ClientLogBridge Logger → List (Delivered Logger)
  run_log [] b = []
  run_log (attaching logger ∷ calls) b = run_log calls (attach logger b)
  run_log (logging level msg keyvals ∷ calls) b =
      log_client render level msg keyvals b ++ run_log calls b

  -- The logger that was attached last, nil ones aside.
  abbrev pub latest : List (LogCall Logger A) → Option Logger → Option Logger
  latest [] t = t
  latest (attaching none ∷ calls) t = latest calls t
  latest (attaching (some logger) ∷ calls) t = latest calls (some logger)
  latest (logging _ _ _ ∷ calls) t = latest calls t

  abbrev pub line_for : Option Logger → LogLevel → GoString → List A → List (Delivered Logger)
  line_for none level msg keyvals = []
  line_for (some logger) level msg keyvals =
      record {
        logger = logger;
        severity = severity_of level;
        line = format_client_log render msg keyvals;
      }
      ∷ []

  run_log-last :
      (calls : List (LogCall Logger A)) (b : ClientLogBridge Logger) (level : LogLevel)
      (msg : GoString) (keyvals : List A)
      → run_log (calls ++ logging level msg keyvals ∷ []) b
        ≡ run_log calls b ++ line_for (latest calls b.target) level msg keyvals
  unfolding run_log log_client attach
  run_log-last [] b level msg keyvals =
      ground (arith, append-nil (log_client render level msg keyvals b))
  run_log-last (attaching none ∷ calls) b level msg keyvals = run_log-last calls b level msg keyvals
  run_log-last (attaching (some logger) ∷ calls) b level msg keyvals =
      run_log-last calls (record b { target = some logger }) level msg keyvals
  run_log-last (logging l m k ∷ calls) b level msg keyvals =
      rw (run_log-last calls b level msg keyvals) (
        sym (
          append_assoc (log_client render l m k b) (run_log calls b)
            (line_for (latest calls b.target) level msg keyvals)))

  -- After any sequence of attaches and lines on a new bridge, a further line is one call of the
  -- logger that was attached last (an attached nil logger counts for nothing), at the method of its
  -- level and with the formatted text; where none was attached yet the line is dropped.
  pub log_client-latest :
      (bridge_level : LogLevel) (calls : List (LogCall Logger A)) (level : LogLevel)
      (msg : GoString) (keyvals : List A)
      → let b = new_client_log_bridge bridge_level in
        run_log (calls ++ logging level msg keyvals ∷ []) b
        ≡ run_log calls b ++ line_for (latest calls none) level msg keyvals
  unfolding new_client_log_bridge
  log_client-latest bridge_level calls = run_log-last calls (new_client_log_bridge bridge_level)
