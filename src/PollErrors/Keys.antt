-- ===== src/PollErrors/Keys.antt =====
-- franzadapter/broker_port.go: the "topic-partition" keys of the streak maps.
use llingr_adapter_franz.Prelude.{ℕ, pos, GoString, [], ◌∷◌, ◌++◌, ◌≡◌, refl, arith}
use llingr_adapter_franz.Decimal.{itoa-injective, Lacks, itoa-Lacks}
use llingr_adapter_franz.PollErrors.{partition_key}

Lacks-split : (c : ℕ) (ys xs zs : GoString) → Lacks c ys → ys ≡ xs ++ c ∷ zs → ⊥
Lacks-split c [] [] zs h e = cc
Lacks-split c [] (x ∷ xs) zs h e = cc
Lacks-split c (y ∷ ys) [] zs h e = ground arith
Lacks-split c (y ∷ ys) (x ∷ xs) zs h e = Lacks-split c ys xs zs h.1 (ground arith)

-- A text is cut at its last separator in one way.
cut_unique :
    (c : ℕ) (xs xs' ys ys' : GoString)
    → Lacks c ys
    → Lacks c ys'
    → xs ++ c ∷ ys ≡ xs' ++ c ∷ ys'
    → (xs ≡ xs') × (ys ≡ ys')
cut_unique c [] [] ys ys' h k e = (refl, ground arith)
cut_unique c [] (x ∷ xs') ys ys' h k e = absurd (Lacks-split c ys xs' ys' h (ground arith))
cut_unique c (x ∷ xs) [] ys ys' h k e = absurd (Lacks-split c ys' xs ys k (ground arith))
cut_unique c (x ∷ xs) (x' ∷ xs') ys ys' h k e =
    let (p, q) = cut_unique c xs xs' ys ys' h k (ground arith) in (ground arith, q)

-- Two partitions with the same key are one: for partitions that are not negative the key determines
-- both the topic, whatever characters it holds (dashes and digits too), and the partition.
pub partition_key-injective :
    (t u : GoString) (p q : ℕ)
    → partition_key t (pos p) ≡ partition_key u (pos q)
    → (t ≡ u) × (p ≡ q)
unfolding partition_key
partition_key-injective t u p q e =
    let (same, digits) = cut_unique b'-' t u _ _ (itoa-Lacks p) (itoa-Lacks q) e in
    (same, itoa-injective p q digits)
