-- ===== src/Commit.antt =====
-- franzadapter/broker_port.go: CommitOffsets and the hint it logs when the group has dropped the member.
use llingr_adapter_franz.Prelude.{
  ℤ, pos, length, if◌then◌else◌, Bool, true, false, ◌||◌, ◌==◌, int_eq, text, Option, none, some,
  List, [], ◌∷◌,
}
use llingr_adapter_franz.Foreign.{GoError, kafka, deadline_exceeded, message, wrapped, Record}
use llingr_adapter_franz.Effects.{
  debug, warn, error, commit_records, commit_failed, membership_lost, committed, SessionTimeout,
  client_not_initialised, timeout_unknown, timeout_set,
}
use llingr_adapter_franz.Procedure.{Procedure, Ending, returned, ◌⨟◌, skip, perform, when, log_line}
pub mod Outcomes

-- `errors.Is(err, …)` for the Kafka error of a code.
unfoldable pub has_code : ℤ → GoError → Bool
has_code code (kafka c _) = c == code
has_code code deadline_exceeded = false
has_code code (message _) = false
has_code code (wrapped _ err) = has_code code err

-- kerr.UnknownMemberID and kerr.IllegalGeneration
abbrev pub unknown_member_id : ℤ
unknown_member_id = pos 25

abbrev pub illegal_generation : ℤ
illegal_generation = pos 22

-- What the commit uses of the adapter; the session timeout is `none` where OptValue has no duration.
pub record Committer : Type 0 where
  pub has_logger : Bool
  pub has_client : Bool
  pub session_timeout : Option ℤ

unfoldable pub current_session_timeout_description : Committer → SessionTimeout
current_session_timeout_description a =
    if a.has_client
    then elim a.session_timeout [ some d ↦ timeout_set d | none ↦ timeout_unknown ]
    else client_not_initialised

unfoldable pub log_group_membership_hint_if_applicable : Committer → GoError → Procedure
unfolding has_code current_session_timeout_description
log_group_membership_hint_if_applicable a err =
    when (has_code unknown_member_id err || has_code illegal_generation err)
      (log_line a.has_logger warn (membership_lost (current_session_timeout_description a)))

-- The error that CommitOffsets returns; the messages it returns are always nil.
abbrev pub CommitResult : Type 0
CommitResult = Procedure × Option GoError

unfoldable pub commit_offsets : Option GoError → Committer → List Record → CommitResult
unfolding log_group_membership_hint_if_applicable
commit_offsets answer a [] = (skip, none)
commit_offsets none a (r ∷ records) = (
  perform (commit_records (r ∷ records))
      ⨟ log_line a.has_logger debug (committed (length (r ∷ records))),
  none,
)
commit_offsets (some err) a (r ∷ records) = (
  perform (commit_records (r ∷ records))
      ⨟ log_line a.has_logger error (commit_failed err)
      ⨟ log_group_membership_hint_if_applicable a err,
  some (wrapped (text "commit records failed") err),
)
