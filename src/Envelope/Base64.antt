-- ===== src/Envelope/Base64.antt =====
-- base64 as ExtractEnvelope uses it: two different byte keys have two different encodings.
use llingr_adapter_franz.Prelude.{
  ℕ, ◌+◌, ◌-◌, ◌*◌, ◌/◌, ◌%◌, ◌<◌, ◌≤◌, ltb, nat_beq, false, if◌then◌else◌, List, [], ◌∷◌, ◌≡◌, ◌≢◌,
  refl, sym, ap, ◌∙◌, arith,
}
use llingr_adapter_franz.Envelope.{base64_char, base64_encode}

abbrev pub AreBytes : List ℕ → Type 0
AreBytes [] = Unit {0}
AreBytes (b ∷ bytes) = (b < 256) × AreBytes bytes

-- The six bits of a character.
abbrev six_bits : ℕ → ℕ
six_bits c =
    if nat_beq c b'/'
    then 63
    else if nat_beq c b'+'
    then 62
    else if ltb c b'A'
    then c - b'0' + 52
    else if ltb c b'a'
    then c - b'A'
    else c - b'a' + 26

six_bits-base64_char : (n : ℕ) → n < 64 → six_bits (base64_char n) ≡ n
unfolding base64_char
six_bits-base64_char n h = ground arith

base64_char-injective : (n m : ℕ) → n < 64 → m < 64 → base64_char n ≡ base64_char m → n ≡ m
base64_char-injective n m h k e =
    sym (six_bits-base64_char n h) ∙ ap six_bits e ∙ six_bits-base64_char m k

base64_char-below :
    (n : ℕ) → n < 64 → (base64_char n < 128) × (43 ≤ base64_char n) × (base64_char n ≢ b'=')
unfolding base64_char
base64_char-below n h = ground arith

abbrev first_byte : ℕ → ℕ → ℕ
first_byte s t = s * 4 + t / 16

abbrev second_byte : ℕ → ℕ → ℕ
second_byte t u = t % 16 * 16 + u / 4

abbrev third_byte : ℕ → ℕ → ℕ
third_byte u v = u % 4 * 64 + v

pub base64_decode : List ℕ → List ℕ
base64_decode (c ∷ d ∷ e ∷ f ∷ rest) =
    let later = base64_decode rest in
    let s = six_bits c in
    let t = six_bits d in
    let u = six_bits e in
    let v = six_bits f in
    if nat_beq e b'='
    then first_byte s t ∷ []
    else if nat_beq f b'='
    then first_byte s t ∷ second_byte t u ∷ []
    else first_byte s t ∷ second_byte t u ∷ third_byte u v ∷ later
base64_decode _ = []

not_padding : (n : ℕ) → n < 64 → nat_beq (base64_char n) b'=' ≡ false
not_padding n h = ground (arith, base64_char-below n h)

first_byte_lem : (a b : ℕ) → b < 256 → first_byte (a / 4) (a % 4 * 16 + b / 16) ≡ a
first_byte_lem a b h = omega (arith, h)

second_byte_lem :
    (a b c : ℕ) → b < 256 → c < 256 → second_byte (a % 4 * 16 + b / 16) (b % 16 * 4 + c / 64) ≡ b
second_byte_lem a b c h k = omega (arith, h, k)

third_byte_lem : (b c : ℕ) → c < 256 → third_byte (b % 16 * 4 + c / 64) (c % 64) ≡ c
third_byte_lem b c h = omega (arith, h)

pub base64_decode-encode :
    (bytes : List ℕ) → AreBytes bytes → base64_decode (base64_encode bytes) ≡ bytes
unfolding base64_decode base64_encode
base64_decode-encode [] h = refl
base64_decode-encode (a ∷ []) h =
    rw
      (
        six_bits-base64_char (a / 4) (omega (arith, h.0)),
        six_bits-base64_char (a % 4 * 16) (omega arith),
      )
      (ap (λ x. x ∷ []) (omega arith))
base64_decode-encode (a ∷ b ∷ []) h =
    rw
      (
        six_bits-base64_char (a / 4) (omega (arith, h.0)),
        six_bits-base64_char (a % 4 * 16 + b / 16) (omega (arith, h.1.0)),
        not_padding (b % 16 * 4) (omega arith),
        six_bits-base64_char (b % 16 * 4) (omega arith),
      )
      (rw (first_byte_lem a b h.1.0) (ap (λ x. a ∷ x ∷ []) (omega (arith, h.1.0))))
base64_decode-encode (a ∷ b ∷ c ∷ bytes) h =
    rw
      (
        six_bits-base64_char (a / 4) (omega (arith, h.0)),
        six_bits-base64_char (a % 4 * 16 + b / 16) (omega (arith, h.1.0)),
        not_padding (b % 16 * 4 + c / 64) (omega (arith, h.1.1.0)),
        six_bits-base64_char (b % 16 * 4 + c / 64) (omega (arith, h.1.1.0)),
        not_padding (c % 64) (omega arith),
        six_bits-base64_char (c % 64) (omega arith),
        base64_decode-encode bytes h.1.1.1,
      )
      (rw
        (first_byte_lem a b h.1.0, second_byte_lem a b c h.1.0 h.1.1.0, third_byte_lem b c h.1.1.0))

-- ASCII text.
abbrev pub IsAscii : List ℕ → Type 0
IsAscii [] = Unit {0}
IsAscii (c ∷ cs) = (c < 128) × IsAscii cs

pub base64_encode-IsAscii : (bytes : List ℕ) → AreBytes bytes → IsAscii (base64_encode bytes)
unfolding base64_encode
base64_encode-IsAscii [] h = tt
base64_encode-IsAscii (a ∷ []) h = (
  (base64_char-below (a / 4) (omega (arith, h.0))).0,
  ((base64_char-below (a % 4 * 16) (omega arith)).0, (omega arith, (omega arith, tt))),
)
base64_encode-IsAscii (a ∷ b ∷ []) h = (
  (base64_char-below (a / 4) (omega (arith, h.0))).0,
  (
    (base64_char-below (a % 4 * 16 + b / 16) (omega (arith, h.1.0))).0,
    ((base64_char-below (b % 16 * 4) (omega arith)).0, (omega arith, tt)),
  ),
)
base64_encode-IsAscii (a ∷ b ∷ c ∷ bytes) h = (
  (base64_char-below (a / 4) (omega (arith, h.0))).0,
  (
    (base64_char-below (a % 4 * 16 + b / 16) (omega (arith, h.1.0))).0,
    (
      (base64_char-below (b % 16 * 4 + c / 64) (omega (arith, h.1.1.0))).0,
      ((base64_char-below (c % 64) (omega arith)).0, base64_encode-IsAscii bytes h.1.1.1),
    ),
  ),
)
