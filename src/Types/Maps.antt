-- ===== src/Types/Maps.antt =====
-- Allocations whose accounts have maps for their storage.
use mathlib.Core.Option.{some-injective}
use substate_cli.Prelude.{◌≡◌, subst, inl, inr, some, [], ◌∷◌, ◌==◌, nat_eq, Bool-cases}
use substate_cli.GoMap.{lookup, Distinct}
use substate_cli.Types.{Address, Account, Alloc}

-- No account of an allocation has a slot twice.
abbrev pub HasMaps : Alloc → Type 0
HasMaps [] = Unit
HasMaps ((a, v) ∷ alloc) = Distinct v.storage × HasMaps alloc

pub HasMaps-lookup :
    (alloc : Alloc) (a : Address)
    → HasMaps alloc
    → (v : Account) → lookup a alloc ≡ some v
    → Distinct v.storage
unfolding lookup
HasMaps-lookup [] a h v e = cc
HasMaps-lookup ((b, u) ∷ alloc) a h v e = elim (Bool-cases (b == a)) [
  | inl here ↦
      let same : u ≡ v = some-injective _ _ (rw here at e) in
      subst (λ (w : Account). Distinct w.storage) same h.0
  | inr further ↦ HasMaps-lookup alloc a h.1 v (rw further at e)
]
