-- ===== src/Tests/Envelopes.antt =====
-- Tests and instances for envelopes, commits and the identifier of a packet.
use llingr_adapter_franz.Prelude.{
  pos, nat_eq, int_eq, text, true, false, Option, some, none, is_some, [], ◌∷◌, ◌≡◌, ◌≢◌, refl,
  arith,
}
use llingr_adapter_franz.Foreign.{Record, GoError, kafka, wrapped}
use llingr_adapter_franz.Effects.{assign}
use llingr_adapter_franz.Procedure.{returned}
use llingr_adapter_franz.Decimal.{itoa}
use llingr_adapter_franz.Envelope.{utf8_valid, base64_encode, extract_envelope}
use llingr_adapter_franz.Envelope.Base64.{base64_decode}
use llingr_adapter_franz.Answers.{ack_rebalance}
use llingr_adapter_franz.Envelope.Keys.{extract_envelope-valid, extract_envelope-decoded}
use llingr_adapter_franz.Commit.{Committer, commit_offsets}
use llingr_adapter_franz.Commit.Outcomes.{commits, hints, lost_membership, commit_offsets-answer}
use llingr_adapter_franz.Bandwidth.Uuid.{generate_uuid}

-- A key that is no UTF-8.
abbrev binary_record : Record
binary_record = record {
  topic = text "orders";
  partition = pos 3;
  offset = pos 40;
  key = 0xFF ∷ 0xFE ∷ [];
}

-- A key of two characters, of two and three bytes.
abbrev text_record : Record
text_record = record binary_record { key = 0xC3 ∷ 0xA9 ∷ 0xE2 ∷ 0x82 ∷ 0xAC ∷ [] }

abbrev keyless_record : Record
keyless_record = record binary_record { key = [] }

binary_key : (extract_envelope binary_record).key ≡ text "//4="
unfolding extract_envelope utf8_valid base64_encode
binary_key = refl

text_key : (extract_envelope text_record).key ≡ text_record.key
unfolding extract_envelope utf8_valid
text_key = refl

keyless_key : (extract_envelope keyless_record).key ≡ text "3"
unfolding extract_envelope itoa
keyless_key = refl

-- A surrogate and an overlong form are refused.
no_surrogate :
    (utf8_valid (0xED ∷ 0xA0 ∷ 0x80 ∷ []) ≡ false) × (utf8_valid (0xC0 ∷ 0x80 ∷ []) ≡ false)
unfolding utf8_valid
no_surrogate = (refl, refl)

extract_envelope-valid_example :
    (utf8_valid (extract_envelope binary_record).key ≡ true)
    × ((extract_envelope binary_record).key ≢ [])
    × ((extract_envelope binary_record).partition ≡ pos 3)
    × ((extract_envelope binary_record).offset ≡ pos 40)
extract_envelope-valid_example =
    extract_envelope-valid binary_record (omega arith, (omega arith, tt))

binary_is_no_text : utf8_valid binary_record.key ≡ false
unfolding utf8_valid
binary_is_no_text = refl

extract_envelope-decoded_example :
    base64_decode (extract_envelope binary_record).key ≡ 0xFF ∷ 0xFE ∷ []
extract_envelope-decoded_example =
    extract_envelope-decoded binary_record (omega arith, (omega arith, tt)) binary_is_no_text

abbrev committer : Committer
committer = record { has_logger = true; has_client = true; session_timeout = some (pos 9) }

abbrev expelled : Option GoError
expelled = some (wrapped (text "commit") (kafka (pos 25) (text "UNKNOWN_MEMBER_ID")))

commit_offsets-answer_example :
    let effects = (commit_offsets expelled committer (text_record ∷ [])).0.0 in
    let ending = (commit_offsets expelled committer (text_record ∷ [])).0.1 in
    let result = (commit_offsets expelled committer (text_record ∷ [])).1 in
    (ending ≡ returned)
    × (commits effects ≡ (text_record ∷ []) ∷ [])
    × (is_some result ≡ true)
    × (hints effects ≡ lost_membership expelled)
commit_offsets-answer_example = commit_offsets-answer expelled committer (text_record ∷ []) refl

zeros : generate_uuid (λ n. 0) ≡ text "00000000-0000-4000-8000-000000000000"
unfolding generate_uuid
zeros = refl

no_answer : ack_rebalance assign [] ≡ none
unfolding ack_rebalance
no_answer = refl
