-- ===== src/GoMap.antt =====
-- Go's built-in maps: an association list with one entry for each key, in the order in which a
-- `range` loop meets the entries. Go leaves that order open, so theorems hold for every list.
pub mod Laws
use substate_cli.Prelude.{
  ℕ, ◌≡◌, Bool, true, false, Option, none, some, List, [], ◌∷◌, Eq, ◌==◌, is_some, if◌then◌else◌,
}

abbrev pub GoMap {ℓ κ} : Type ℓ → Type κ → Type (ℓ ⊔ κ)
GoMap K V = List (K × V)

-- `for k, v := range m { body }`, a loop that is never left early.
unfoldable pub range {ℓ κ μ} :
    {K : Type ℓ} {V : Type κ} {S : Type μ} → (S → K → V → S) → GoMap K V → S → S
range body [] s = s
range body ((k, v) ∷ m) s = range body m (body s k v)

module _ {ℓ κ} {K : Type ℓ} {V : Type κ} ⦃e : Eq K⦄ where
  -- `v, exists := m[k]`
  unfoldable pub lookup : K → GoMap K V → Option V
  lookup j [] = none
  lookup j ((k, v) ∷ m) = if k == j then some v else lookup j m

  -- `_, exists := m[k]`
  unfoldable pub has : K → GoMap K V → Bool
  unfolding lookup
  has j m = is_some (lookup j m)

  -- `m[k]`, with the zero value of a missing key
  unfoldable pub get_or : K → GoMap K V → V → V
  unfolding lookup
  get_or j m zero_value = elim (lookup j m) [ none ↦ zero_value | some v ↦ v ]

  -- `m[k] = v`
  unfoldable pub put : K → V → GoMap K V → GoMap K V
  put k v [] = (k, v) ∷ []
  put k v ((j, w) ∷ m) = if j == k then (k, v) ∷ m else (j, w) ∷ put k v m

  -- `delete(m, k)`
  unfoldable pub delete : K → GoMap K V → GoMap K V
  delete k [] = []
  delete k ((j, w) ∷ m) = if j == k then m else (j, w) ∷ delete k m

  -- No key twice: what makes a list a map.
  abbrev pub Distinct : GoMap K V → Type κ
  Distinct [] = Unit
  Distinct ((k, v) ∷ m) = (lookup k m ≡ none) × Distinct m
