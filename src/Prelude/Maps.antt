-- ===== src/Prelude/Maps.antt =====
-- Go maps as association lists. A map is iterated in the order of its list, and since Go leaves the
-- order open, statements range over every list.
use mathlib.Core.Path.{◌≡◌, refl}
use mathlib.Core.Bool.{Bool, true, false}
use mathlib.Core.Option.{Option, none, some}
use mathlib.Core.Logic.{inl, inr}
use mathlib.Core.List.{List, [], ◌∷◌}
use native.Mathlib.Omega.{arith}
use llingr_adapter_franz.Prelude.Tests.{if◌then◌else◌, Bool-cases}
use llingr_adapter_franz.Prelude.Equality.{HasTest, ◌==◌}

abbrev pub Map {ℓ κ} : Type ℓ → Type κ → Type (ℓ ⊔ κ)
Map K V = List (K × V)

module _ {ℓ κ} {K : Type ℓ} {V : Type κ} where
  unfoldable pub keys : Map K V → List K
  keys [] = []
  keys ((k, v) ∷ m) = k ∷ keys m

  abbrev pub is_empty : Map K V → Bool
  is_empty [] = true
  is_empty (_ ∷ _) = false

beq_sym {ℓ} : {K : Type ℓ} ⦃o : HasTest K⦄ (a b : K) → (a == b) ≡ false → (b == a) ≡ false
beq_sym ⦃o⦄ a b h = ground (arith, o.same_iff a b, o.same_iff b a)

module _ {ℓ κ} {K : Type ℓ} {V : Type κ} ⦃o : HasTest K⦄ where
  -- `v, ok := m[key]`
  unfoldable pub lookup : K → Map K V → Option V
  lookup key [] = none
  lookup key ((here, value) ∷ rest) = if here == key then some value else lookup key rest

  -- `m[key] = new`
  unfoldable pub insert : K → V → Map K V → Map K V
  insert key new [] = (key, new) ∷ []
  insert key new ((here, value) ∷ rest) =
      let later = insert key new rest in
      if here == key then (here, new) ∷ rest else (here, value) ∷ later

  -- `delete(m, key)`
  unfoldable pub delete : K → Map K V → Map K V
  delete key [] = []
  delete key ((here, value) ∷ rest) =
      let later = delete key rest in if here == key then later else (here, value) ∷ later

  pub lookup-delete :
      (key asked : K) (m : Map K V)
      → lookup asked (delete key m) ≡ (if key == asked then none else lookup asked m)
  unfolding lookup delete
  lookup-delete key asked [] = ground arith
  lookup-delete key asked ((here, value) ∷ rest) =
      let later = lookup-delete key asked rest in
      ground (arith, later, o.same_iff here asked, o.same_iff here key, o.same_iff key asked)

  pub lookup-insert :
      (key asked : K) (new : V) (m : Map K V)
      → lookup asked (insert key new m) ≡ (if key == asked then some new else lookup asked m)
  unfolding lookup insert
  lookup-insert key asked new [] = refl
  lookup-insert key asked new ((here, value) ∷ rest) =
      let later = lookup-insert key asked new rest in
      ground (arith, later, o.same_iff here asked, o.same_iff here key, o.same_iff key asked)

  -- No key is listed twice, as in a Go map.
  abbrev pub IsMap : Map K V → Type κ
  IsMap [] = Unit
  IsMap ((k, _) ∷ m) = (lookup k m ≡ none) × IsMap m

  lookup-insert_ne :
      (j k : K) (v : V) (m : Map K V)
      → lookup j m ≡ none
      → (j == k) ≡ false
      → lookup j (insert k v m) ≡ none
  lookup-insert_ne j k v m h ne = rw (lookup-insert, beq_sym j k ne) h

  pub insert-IsMap : (k : K) (v : V) (m : Map K V) → IsMap m → IsMap (insert k v m)
  unfolding insert
  insert-IsMap k v [] h = unfold lookup in (refl, tt)
  insert-IsMap k v ((j, w) ∷ m) h = elim (Bool-cases (j == k)) [
    | inl same ↦ rw same h
    | inr other ↦ rw other (lookup-insert_ne j k v m h.0 other, insert-IsMap k v m h.1)
  ]
