-- ===== src/Procedure.antt =====
-- Code that acts on the world in order and may panic: the effects that it had, and whether it
-- returned. Nothing runs after a panic.
use llingr_adapter_franz.Prelude.{Bool, true, false, List, [], ◌∷◌, ◌++◌}
use llingr_adapter_franz.Effects.{Effect, Severity, LogLine, log}

pub data Ending : Type 0 where
  returned panicked : Ending

abbrev pub is_returned : Ending → Bool
is_returned returned = true
is_returned panicked = false

abbrev pub Procedure : Type 0
Procedure = List Effect × Ending

infixr 5 ◌⨟◌
abbrev pub ◌⨟◌ : Procedure → Procedure → Procedure
(xs, returned) ⨟ (ys, e) = (xs ++ ys, e)
(xs, panicked) ⨟ k = (xs, panicked)

abbrev pub skip : Procedure
skip = ([], returned)

abbrev pub perform : Effect → Procedure
perform e = (e ∷ [], returned)

abbrev pub panic : Procedure
panic = ([], panicked)

abbrev pub when : Bool → Procedure → Procedure
when true p = p
when false p = skip

-- A call of a method of the logger: on the nil logger it panics.
abbrev pub log_line : Bool → Severity → LogLine → Procedure
log_line true s l = perform (log s l)
log_line false s l = panic

-- `if a.logger != nil { a.logger.… }`
abbrev pub log_if : Bool → Severity → LogLine → Procedure
log_if has_logger s l = when has_logger (log_line has_logger s l)
