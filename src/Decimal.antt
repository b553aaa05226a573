-- ===== src/Decimal.antt =====
-- strconv.Itoa and FormatInt in base ten, as franzadapter/broker_port.go and bandwidth.go use them.
use llingr_adapter_franz.Prelude.{
  ℕ, zero, suc, ◌+◌, ◌-◌, ◌*◌, ◌/◌, ◌%◌, ◌<◌, ltb, ℤ, pos, negsuc, GoString, Bool-cases,
  if◌then◌else◌, [], ◌∷◌, ◌++◌, ◌≡◌, ◌≢◌, refl, sym, ap, ◌∙◌, inl, inr, arith,
}

-- The digits of a number, the most significant first; the fuel bounds their count.
unfoldable pub digits : ℕ → ℕ → GoString
digits zero n = []
digits (suc fuel) n =
    let rest = digits fuel (n / 10) in
    if ltb n 10 then (b'0' + n) ∷ [] else rest ++ (b'0' + n % 10) ∷ []

unfoldable pub itoa : ℤ → GoString
unfolding digits
itoa (pos n) = digits (suc n) n
itoa (negsuc n) = b'-' ∷ digits (suc (suc n)) (suc n)

-- The number that a text of digits stands for.
value_from : ℕ → GoString → ℕ
value_from acc [] = acc
value_from acc (c ∷ cs) = value_from (acc * 10 + (c - b'0')) cs

value_from-append :
    (acc : ℕ) (xs : GoString) (c : ℕ)
    → value_from acc (xs ++ c ∷ []) ≡ value_from acc xs * 10 + (c - b'0')
unfolding value_from
value_from-append acc [] c = refl
value_from-append acc (x ∷ xs) c = value_from-append (acc * 10 + (x - b'0')) xs c

value_from-digits : (fuel n : ℕ) → n < fuel → value_from 0 (digits fuel n) ≡ n
unfolding digits
value_from-digits zero n h = absurd (omega arith)
value_from-digits (suc fuel) n h = elim (Bool-cases (ltb n 10)) [
  | inl small ↦ rw small (unfold value_from in ground arith)
  | inr large ↦
      rw (large, value_from-append 0 (digits fuel (n / 10)) (b'0' + n % 10))
        (ground (arith, value_from-digits fuel (n / 10)))
]

-- Two numbers that are not negative and print alike are one.
pub itoa-injective : (n m : ℕ) → itoa (pos n) ≡ itoa (pos m) → n ≡ m
unfolding itoa
itoa-injective n m e =
    sym (value_from-digits (suc n) n (omega arith))
    ∙ ap (value_from 0) e
    ∙ value_from-digits (suc m) m (omega arith)

-- No character of a text is the given one.
abbrev pub Lacks : ℕ → GoString → Type 0
Lacks c [] = Unit {0}
Lacks c (x ∷ xs) = (x ≢ c) × Lacks c xs

Lacks-append : (c : ℕ) (xs ys : GoString) → Lacks c xs → Lacks c ys → Lacks c (xs ++ ys)
Lacks-append c [] ys h k = k
Lacks-append c (x ∷ xs) ys h k = (h.0, Lacks-append c xs ys h.1 k)

digits-Lacks : (fuel n : ℕ) → Lacks b'-' (digits fuel n)
unfolding digits
digits-Lacks zero n = tt
digits-Lacks (suc fuel) n = elim (Bool-cases (ltb n 10)) [
  | inl small ↦ rw small (omega arith, tt)
  | inr large ↦
      rw large
        (Lacks-append b'-' (digits fuel (n / 10)) _ (digits-Lacks fuel (n / 10)) (omega arith, tt))
]

pub itoa-Lacks : (n : ℕ) → Lacks b'-' (itoa (pos n))
unfolding itoa
itoa-Lacks n = digits-Lacks (suc n) n
