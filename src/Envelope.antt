-- ===== src/Envelope.antt =====
-- franzadapter/broker_port.go, ExtractEnvelope: the key of an envelope, with what it uses of utf8 and
-- base64.
use llingr_adapter_franz.Prelude.{
  ℕ, ◌+◌, ◌-◌, ◌*◌, ◌/◌, ◌%◌, ltb, leb, nat_beq, Bool, true, false, ◌&&◌, ◌||◌, if◌then◌else◌, ℤ,
  GoString, List, [], ◌∷◌,
}
use llingr_adapter_franz.Foreign.{Record}
use llingr_adapter_franz.Decimal.{itoa}
pub mod Base64
pub mod Keys

-- a ≤ b ≤ c
abbrev pub within : ℕ → ℕ → ℕ → Bool
within a c b = leb a b && leb b c

abbrev pub is_continuation : ℕ → Bool
is_continuation b = within 0x80 0xBF b

-- The second byte that Unicode allows behind the first byte of a sequence of three or four.
abbrev pub accepts_second : ℕ → ℕ → Bool
accepts_second first b =
    if nat_beq first 0xE0
    then within 0xA0 0xBF b
    else if nat_beq first 0xED
    then within 0x80 0x9F b
    else if nat_beq first 0xF0
    then within 0x90 0xBF b
    else if nat_beq first 0xF4
    then within 0x80 0x8F b
    else is_continuation b

-- utf8.Valid
unfoldable pub utf8_valid : List ℕ → Bool
utf8_valid [] = true
utf8_valid (a ∷ []) = ltb a 0x80
utf8_valid (a ∷ b ∷ []) =
    let rest = utf8_valid (b ∷ []) in
    if ltb a 0x80 then rest else within 0xC2 0xDF a && is_continuation b
utf8_valid (a ∷ b ∷ c ∷ []) =
    let rest = utf8_valid (b ∷ c ∷ []) in
    let rest' = utf8_valid (c ∷ []) in
    if ltb a 0x80
    then rest
    else if within 0xC2 0xDF a
    then is_continuation b && rest'
    else within 0xE0 0xEF a && accepts_second a b && is_continuation c
utf8_valid (a ∷ b ∷ c ∷ d ∷ bytes) =
    let rest = utf8_valid (b ∷ c ∷ d ∷ bytes) in
    let rest' = utf8_valid (c ∷ d ∷ bytes) in
    let rest'' = utf8_valid (d ∷ bytes) in
    let rest''' = utf8_valid bytes in
    if ltb a 0x80
    then rest
    else if within 0xC2 0xDF a
    then is_continuation b && rest'
    else if within 0xE0 0xEF a
    then accepts_second a b && is_continuation c && rest''
    else within 0xF0 0xF4 a
      && accepts_second a b
      && is_continuation c
      && is_continuation d
      && rest'''

-- The character of six bits, in the standard alphabet.
unfoldable pub base64_char : ℕ → ℕ
base64_char n =
    if ltb n 26
    then b'A' + n
    else if ltb n 52
    then b'a' + (n - 26)
    else if ltb n 62
    then b'0' + (n - 52)
    else if nat_beq n 62
    then b'+'
    else b'/'

-- base64.StdEncoding.EncodeToString, with padding.
unfoldable pub base64_encode : List ℕ → GoString
unfolding base64_char
base64_encode [] = []
base64_encode (a ∷ []) = base64_char (a / 4) ∷ base64_char (a % 4 * 16) ∷ b'=' ∷ b'=' ∷ []
base64_encode (a ∷ b ∷ []) =
    base64_char (a / 4) ∷ base64_char (a % 4 * 16 + b / 16) ∷ base64_char (b % 16 * 4) ∷ b'=' ∷ []
base64_encode (a ∷ b ∷ c ∷ bytes) =
    base64_char (a / 4)
    ∷ base64_char (a % 4 * 16 + b / 16)
    ∷ base64_char (b % 16 * 4 + c / 64)
    ∷ base64_char (c % 64)
    ∷ base64_encode bytes

-- nexus.Envelope, without the context, which is always the adapter's.
pub record Envelope : Type 0 where
  pub partition : ℤ
  pub offset : ℤ
  pub key : GoString

unfoldable pub envelope_key : List ℕ → ℤ → GoString
unfolding utf8_valid base64_encode
envelope_key [] partition = itoa partition
envelope_key (b ∷ bytes) partition =
    if utf8_valid (b ∷ bytes) then b ∷ bytes else base64_encode (b ∷ bytes)

unfoldable pub extract_envelope : Record → Envelope
unfolding envelope_key
extract_envelope r = record {
  partition = r.partition;
  offset = r.offset;
  key = envelope_key r.key r.partition;
}
