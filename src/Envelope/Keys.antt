-- ===== src/Envelope/Keys.antt =====
-- franzadapter/broker_port.go, ExtractEnvelope: which keys it makes, and that they keep records apart.
use llingr_adapter_franz.Prelude.{
  ℕ, ◌+◌, ◌%◌, ltb, true, false, ℤ, pos, negsuc, List, [], ◌∷◌, ◌++◌, ◌≡◌, ◌≢◌, inl, inr, refl,
  arith, Bool-cases, suc, zero, ◌/◌,
}
use llingr_adapter_franz.Foreign.{Record}
use llingr_adapter_franz.Decimal.{itoa, digits}
use llingr_adapter_franz.Envelope.{utf8_valid, base64_encode, envelope_key, extract_envelope}
use llingr_adapter_franz.Envelope.Base64.{
  AreBytes, IsAscii, base64_decode, base64_decode-encode, base64_encode-IsAscii,
}

utf8_valid-ascii : (cs : List ℕ) → IsAscii cs → utf8_valid cs ≡ true
unfolding utf8_valid
utf8_valid-ascii [] h = refl
utf8_valid-ascii (a ∷ []) h = ground (arith, h.0)
utf8_valid-ascii (a ∷ b ∷ []) h = ground (arith, h.0, utf8_valid-ascii (b ∷ []) h.1)
utf8_valid-ascii (a ∷ b ∷ c ∷ []) h = ground (arith, h.0, utf8_valid-ascii (b ∷ c ∷ []) h.1)
utf8_valid-ascii (a ∷ b ∷ c ∷ d ∷ cs) h = ground (arith, h.0, utf8_valid-ascii (b ∷ c ∷ d ∷ cs) h.1)

IsAscii-append : (xs ys : List ℕ) → IsAscii xs → IsAscii ys → IsAscii (xs ++ ys)
IsAscii-append [] ys h k = k
IsAscii-append (x ∷ xs) ys h k = (h.0, IsAscii-append xs ys h.1 k)

digits-IsAscii : (fuel n : ℕ) → IsAscii (digits fuel n)
unfolding digits
digits-IsAscii zero n = tt
digits-IsAscii (suc fuel) n = elim (Bool-cases (ltb n 10)) [
  | inl small ↦ rw small (ground arith, tt)
  | inr large ↦
      rw large
        (IsAscii-append (digits fuel (n / 10)) _ (digits-IsAscii fuel (n / 10)) (omega arith, tt))
]

itoa-IsAscii : (n : ℤ) → IsAscii (itoa n)
unfolding itoa
itoa-IsAscii (pos n) = digits-IsAscii (suc n) n
itoa-IsAscii (negsuc n) = (omega arith, digits-IsAscii (suc (suc n)) (suc n))

append-any : (xs : List ℕ) (c : ℕ) → xs ++ c ∷ [] ≢ []
append-any [] c = ground arith
append-any (x ∷ xs) c = ground arith

digits-any : (fuel n : ℕ) → digits (suc fuel) n ≢ []
unfolding digits
digits-any fuel n = elim (Bool-cases (ltb n 10)) [
  | inl small ↦ rw small (ground arith)
  | inr large ↦ rw large (append-any (digits fuel (n / 10)) (b'0' + n % 10))
]

itoa-any : (n : ℤ) → itoa n ≢ []
unfolding itoa
itoa-any (pos n) = digits-any n n
itoa-any (negsuc n) = ground arith

base64_encode-any : (b : ℕ) (bytes : List ℕ) → base64_encode (b ∷ bytes) ≢ []
unfolding base64_encode
base64_encode-any a [] = ground arith
base64_encode-any a (b ∷ []) = ground arith
base64_encode-any a (b ∷ c ∷ bytes) = ground arith

envelope_key-valid :
    (key : List ℕ) (partition : ℤ)
    → AreBytes key
    → (utf8_valid (envelope_key key partition) ≡ true) × (envelope_key key partition ≢ [])
unfolding envelope_key
envelope_key-valid [] partition h =
    (utf8_valid-ascii (itoa partition) (itoa-IsAscii partition), itoa-any partition)
envelope_key-valid (b ∷ bytes) partition h = elim (Bool-cases (utf8_valid (b ∷ bytes))) [
  | inl valid ↦ rw valid (valid, ground arith)
  | inr binary ↦ rw binary (
    utf8_valid-ascii (base64_encode (b ∷ bytes)) (base64_encode-IsAscii (b ∷ bytes) h),
    base64_encode-any b bytes,
  )
]

-- For every record whose key is made of bytes (also for none, or one that is no UTF-8), the
-- envelope's key is valid UTF-8 and not empty, and its partition and offset are the record's.
pub extract_envelope-valid :
    (r : Record)
    → AreBytes r.key
    → let e = extract_envelope r in
      (utf8_valid e.key ≡ true) × (e.key ≢ []) × (e.partition ≡ r.partition) × (e.offset ≡ r.offset)
unfolding extract_envelope
extract_envelope-valid r h =
    let valid = envelope_key-valid r.key r.partition h in (valid.0, valid.1, refl, refl)

key_binary :
    (b : ℕ) (bytes : List ℕ) (p : ℤ)
    → utf8_valid (b ∷ bytes) ≡ false
    → envelope_key (b ∷ bytes) p ≡ base64_encode (b ∷ bytes)
unfolding envelope_key
key_binary b bytes p h = rw h refl

decoded :
    (key : List ℕ) (p : ℤ)
    → AreBytes key
    → utf8_valid key ≡ false
    → base64_decode (envelope_key key p) ≡ key
decoded [] p h binary = absurd (unfold utf8_valid in ground (arith, binary))
decoded (b ∷ bytes) p h binary =
    rw (key_binary b bytes p binary) (base64_decode-encode (b ∷ bytes) h)

-- A binary key can be read back: the base64 decoding of the envelope's key of a record whose key is
-- made of bytes and is no UTF-8 is that key.
pub extract_envelope-decoded :
    (r : Record)
    → AreBytes r.key
    → utf8_valid r.key ≡ false
    → base64_decode (extract_envelope r).key ≡ r.key
unfolding extract_envelope
extract_envelope-decoded r h binary = decoded r.key r.partition h binary
