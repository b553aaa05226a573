-- ===== src/Prelude/Listings.antt =====
-- Two listings of one Go map: the orders in which two iterations over it may run.
use mathlib.Core.Path.{◌≡◌, refl, sym, ◌∙◌}
use mathlib.Core.Bool.{true, false}
use mathlib.Core.Option.{none, some}
use mathlib.Core.Logic.{inl, inr, ∥∥₁_elim}
use mathlib.Core.List.{
  List, [], ◌∷◌, Perm, Permᴰ, Perm-prop, flat_map, perm_append_comm, append_assoc,
}
use mathlib.Core.List.Perm
use native.Mathlib.Omega.{arith}
use llingr_adapter_franz.Prelude.Tests.{Bool-cases}
use llingr_adapter_franz.Prelude.Equality.{HasTest, ◌==◌}
use llingr_adapter_franz.Prelude.Maps.{Map, IsMap, lookup, delete, lookup-delete}

module _ {ℓ κ} {K : Type ℓ} {V : Type κ} ⦃o : HasTest K⦄ where
  abbrev pub SameMap : Map K V → Map K V → Type (ℓ ⊔ κ)
  SameMap m n = (k : K) → lookup k m ≡ lookup k n

  delete_absent : (k : K) (m : Map K V) → lookup k m ≡ none → delete k m ≡ m
  unfolding lookup delete
  delete_absent k [] h = refl
  delete_absent k ((j, w) ∷ m) h = ground (arith, delete_absent k m)

  delete-IsMap : (k : K) (m : Map K V) → IsMap m → IsMap (delete k m)
  unfolding delete
  delete-IsMap k [] h = h
  delete-IsMap k ((j, w) ∷ m) h = ground (arith, delete-IsMap k m h.1, lookup-delete k j m)

  delete_head :
      (k j : K) (v w : V) (m : Map K V)
      → (j == k) ≡ true
      → lookup k ((j, w) ∷ m) ≡ some v
      → IsMap ((j, w) ∷ m)
      → (k, v) ∷ delete k ((j, w) ∷ m) ≡ (j, w) ∷ m
  unfolding lookup delete
  delete_head k j v w m same h u = ground (arith, o.same_iff j k, delete_absent k m)

  delete_later :
      (k j : K) (w : V) (m : Map K V)
      → (j == k) ≡ false
      → delete k ((j, w) ∷ m) ≡ (j, w) ∷ delete k m
  unfolding delete
  delete_later k j w m other = ground arith

  -- A key that is found can be listed first.
  found_first :
      (k : K) (v : V) (m : Map K V) → lookup k m ≡ some v → IsMap m → Perm m ((k, v) ∷ delete k m)
  unfolding lookup
  found_first k v [] h u = absurd (ground arith)
  found_first k v ((j, w) ∷ m) h u = elim (Bool-cases (j == k)) [
    | inl same ↦ rw (delete_head k j v w m same h u) Perm.rfl
    | inr other ↦ rw (delete_later k j w m other) (
        Perm.trans (Perm.cons (j, w) (found_first k v m (ground (arith, h, other)) u.1))
          (Perm.swap (k, v) (j, w) (delete k m)))
  ]

  lookup_head : (k : K) (v : V) (m : Map K V) → lookup k ((k, v) ∷ m) ≡ some v
  unfolding lookup
  lookup_head k v m = ground (arith, o.same_iff k k)

  SameMap-tail :
      (k : K) (v : V) (m n : Map K V)
      → IsMap ((k, v) ∷ m)
      → SameMap ((k, v) ∷ m) n
      → SameMap m (delete k n)
  unfolding lookup
  SameMap-tail k v m n u h j = ground (arith, h j, lookup-delete k j n, u.0, o.same_iff k j)

  -- Two listings of one map are permutations of each other.
  pub SameMap-Perm : (m n : Map K V) → IsMap m → IsMap n → SameMap m n → Perm m n
  unfolding lookup
  SameMap-Perm [] [] u w h = Perm.rfl
  SameMap-Perm [] ((k, v) ∷ n) u w h = absurd (ground (arith, h k, lookup_head k v n))
  SameMap-Perm ((k, v) ∷ m) n u w h =
      Perm.trans
        (Perm.cons (k, v)
          (SameMap-Perm m (delete k n) u.1 (delete-IsMap k n w) (SameMap-tail k v m n u h)))
        (Perm.symm (found_first k v n (sym (h k) ∙ lookup_head k v m) w))

module _ {ℓ κ} {A : Type ℓ} {B : Type κ} (f : A → List B) where
  flat_map-Permᴰ : {m n : List A} → Permᴰ m n → Perm (flat_map f m) (flat_map f n)
  unfolding flat_map
  flat_map-Permᴰ Permᴰ.nil = Perm.rfl
  flat_map-Permᴰ (Permᴰ.cons {a} {b} e p) = rw e (Perm.append_left (f b) (flat_map-Permᴰ p))
  flat_map-Permᴰ (Permᴰ.swap {a} {b} {a'} {b'} {l} e k) =
      rw
        (
          e,
          k,
          sym (append_assoc (f b') (f a') (flat_map f l)),
          sym (append_assoc (f a') (f b') (flat_map f l)),
        )
        (Perm.append_right (flat_map f l) (perm_append_comm (f b') (f a')))
  flat_map-Permᴰ (Permᴰ.trans p q) = Perm.trans (flat_map-Permᴰ p) (flat_map-Permᴰ q)

  pub flat_map-Perm : {m n : List A} → Perm m n → Perm (flat_map f m) (flat_map f n)
  flat_map-Perm p = ∥∥₁_elim p Perm-prop flat_map-Permᴰ
