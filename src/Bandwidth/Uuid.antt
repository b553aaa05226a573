-- ===== src/Bandwidth/Uuid.antt =====
-- franzadapter/bandwidth.go, generateUUID: the text of a packet's identifier, from sixteen random bytes.
use llingr_adapter_franz.Prelude.{
  ℕ, zero, suc, ◌+◌, ◌-◌, ◌/◌, ◌%◌, ltb, nat_beq, if◌then◌else◌, length, GoString, text, some, [],
  ◌∷◌, ◌++◌, ◌≡◌, ◌⊎◌, refl, arith,
}
use llingr_adapter_franz.ClientLog.{at}

unfoldable pub hex_digit : ℕ → ℕ
hex_digit n = if ltb n 10 then b'0' + n else b'a' + (n - 10)

-- uuid[6] & 0x0f | 0x40 and uuid[8] & 0x3f | 0x80
unfoldable pub versioned : (ℕ → ℕ) → ℕ → ℕ
versioned random i =
    if nat_beq i 6
    then random 6 % 16 + 0x40
    else if nat_beq i 8
    then random 8 % 64 + 0x80
    else random i

-- `%x` of the bytes uuid[from : from + count]
unfoldable pub hex : (ℕ → ℕ) → ℕ → ℕ → GoString
unfolding hex_digit
hex uuid from zero = []
hex uuid from (suc count) =
    hex_digit (uuid from / 16) ∷ hex_digit (uuid from % 16) ∷ hex uuid (1 + from) count

unfoldable pub generate_uuid : (ℕ → ℕ) → GoString
unfolding hex versioned
generate_uuid random =
    let uuid = versioned random in
    hex uuid 0 4
    ++ (text "-"
        ++ (hex uuid 4 2
            ++ (text "-"
                ++ (hex uuid 6 2 ++ (text "-" ++ (hex uuid 8 2 ++ (text "-" ++ hex uuid 10 6)))))))

high_version : (n : ℕ) → hex_digit ((n % 16 + 0x40) / 16) ≡ b'4'
unfolding hex_digit
high_version n = ground arith

high_variant :
    (n : ℕ)
    → let c = hex_digit ((n % 64 + 0x80) / 16) in (c ≡ b'8') ⊎ (c ≡ b'9') ⊎ (c ≡ b'a') ⊎ (c ≡ b'b')
unfolding hex_digit
high_variant n = ground arith

-- Whatever the sixteen random bytes are, the identifier has 36 characters, dashes behind the 8th, 12th,
-- 16th and 20th digit, the version digit 4 and a variant digit that is 8, 9, a or b.
generate_uuid_v4 :
    (random : ℕ → ℕ)
    → let id = generate_uuid random in
      (length id ≡ 36)
      × (at 8 id ≡ some b'-')
      × (at 13 id ≡ some b'-')
      × (at 18 id ≡ some b'-')
      × (at 23 id ≡ some b'-')
      × (at 14 id ≡ some b'4')
      × ((at 19 id ≡ some b'8')
          ⊎ (at 19 id ≡ some b'9')
          ⊎ (at 19 id ≡ some b'a')
          ⊎ (at 19 id ≡ some b'b'))
unfolding generate_uuid at
generate_uuid_v4 random = (
  refl,
  refl,
  refl,
  refl,
  refl,
  rw (high_version (random 6)) refl,
  ground (arith, high_variant (random 8)),
)
