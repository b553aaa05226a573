-- ===== src/Commit/Outcomes.antt =====
-- franzadapter/broker_port.go, CommitOffsets: what it tells the broker, the logger and the engine.
use llingr_adapter_franz.Prelude.{
  Bool, true, false, if◌then◌else◌, ◌||◌, ◌&&◌, is_some, Option, none, some, List, [], ◌∷◌, ◌≡◌,
  arith,
}
use llingr_adapter_franz.Foreign.{GoError, Record}
use llingr_adapter_franz.Effects.{Effect, log, commit_records, membership_lost}
use llingr_adapter_franz.Procedure.{returned}
use llingr_adapter_franz.Commit.{
  Committer, commit_offsets, has_code, unknown_member_id, illegal_generation,
  log_group_membership_hint_if_applicable,
}

abbrev pub commits : List Effect → List (List Record)
commits [] = []
commits (commit_records records ∷ effects) = records ∷ commits effects
commits (_ ∷ effects) = commits effects

abbrev pub hints : List Effect → Bool
hints [] = false
hints (log _ (membership_lost _) ∷ effects) = true
hints (_ ∷ effects) = hints effects

abbrev pub lost_membership : Option GoError → Bool
lost_membership none = false
lost_membership (some err) = has_code unknown_member_id err || has_code illegal_generation err

abbrev pub has_any : List Record → Bool
has_any [] = false
has_any (_ ∷ _) = true

-- With a logger, CommitOffsets always returns. With no message it asks the broker nothing and returns no
-- error; otherwise it asks once, with exactly the records of the messages in their order, and
-- returns an error exactly if the broker does. It hints at a lost group membership exactly if that
-- error is, at any depth of its wrappings, UnknownMemberID or IllegalGeneration.
pub commit_offsets-answer :
    (answer : Option GoError) (a : Committer) (records : List Record)
    → a.has_logger ≡ true
    → let ((effects, ending), result) = commit_offsets answer a records in
      (ending ≡ returned)
      × (commits effects ≡ (if has_any records then records ∷ [] else []))
      × (is_some result ≡ (has_any records && is_some answer))
      × (hints effects ≡ (has_any records && lost_membership answer))
unfolding commit_offsets log_group_membership_hint_if_applicable
commit_offsets-answer none a [] h = ground arith
commit_offsets-answer none a (r ∷ records) h = ground arith
commit_offsets-answer (some err) a [] h = ground arith
commit_offsets-answer (some err) a (r ∷ records) h = ground arith
