-- ===== src/Effects/Counting.antt =====
-- How often an effect of some kind is in a list of effects.
use llingr_adapter_franz.Prelude.{ℕ, suc, ◌+◌, Bool, if◌then◌else◌, List, [], ◌∷◌, ◌++◌, ◌≡◌, arith}
use llingr_adapter_franz.Effects.{Effect}

abbrev pub how_often : (Effect → Bool) → List Effect → ℕ
how_often test [] = 0
how_often test (e ∷ effects) =
    let rest = how_often test effects in if test e then suc rest else rest

pub how_often-append :
    (test : Effect → Bool) (xs ys : List Effect)
    → how_often test (xs ++ ys) ≡ how_often test xs + how_often test ys
how_often-append test [] ys = omega arith
how_often-append test (x ∷ xs) ys = ground (arith, how_often-append test xs ys)
