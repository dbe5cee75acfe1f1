-- ===== src/GoMap/Laws.antt =====
-- The laws of map reads, writes and deletes, and of the loops over a map.
use substate_cli.Prelude.{
  ◌≡◌, refl, ◌∙◌, inl, inr, true, Option, none, some, [], ◌∷◌, arith, Eq, ◌==◌, ==_refl, Bool-cases,
  if◌then◌else◌,
}
use substate_cli.GoMap.{GoMap, range, lookup, has, put, delete, Distinct}

module _ {ℓ κ} {K : Type ℓ} {V : Type κ} ⦃e : Eq K⦄ where
  pub lookup-nil : (j : K) → lookup {V = V} j [] ≡ none
  unfolding lookup
  lookup-nil j = refl

  pub lookup-put :
      (j k : K) (v : V) (m : GoMap K V)
      → lookup j (put k v m) ≡ (if k == j then some v else lookup j m)
  unfolding lookup put
  lookup-put j k v [] = refl
  lookup-put j k v ((i, w) ∷ m) =
      ground (arith, e.equal_iff k j, e.equal_iff i k, e.equal_iff i j, lookup-put j k v m)

  pub lookup-put_self : (k : K) (v : V) (m : GoMap K V) → lookup k (put k v m) ≡ some v
  lookup-put_self k v m = rw (lookup-put, ==_refl k)

  pub has-put :
      (j k : K) (v : V) (m : GoMap K V) → has j (put k v m) ≡ (if k == j then true else has j m)
  unfolding has
  has-put j k v m = ground (arith, lookup-put j k v m)

  pub lookup-delete :
      (j k : K) (m : GoMap K V)
      → Distinct m
      → lookup j (delete k m) ≡ (if k == j then none else lookup j m)
  unfolding lookup delete
  lookup-delete j k [] d = ground arith
  lookup-delete j k ((i, w) ∷ m) d =
      ground
        (arith, e.equal_iff k j, e.equal_iff i k, e.equal_iff i j, lookup-delete j k m d.1, d.0)

  pub put-Distinct : (k : K) (v : V) (m : GoMap K V) → Distinct m → Distinct (put k v m)
  unfolding lookup put
  put-Distinct k v [] d = (refl, tt)
  put-Distinct k v ((i, w) ∷ m) d = elim (Bool-cases (i == k)) [
    | inl p ↦ rw p (rw (← (e.equal_iff i k).0 p) d)
    | inr n ↦ rw n (
      rw (lookup-put i k v m) (ground (arith, e.equal_iff k i, e.equal_iff i k)),
      put-Distinct k v m d.1,
    )
  ]

  pub delete-Distinct : (k : K) (m : GoMap K V) → Distinct m → Distinct (delete k m)
  unfolding lookup delete
  delete-Distinct k [] d = tt
  delete-Distinct k ((i, w) ∷ m) d = elim (Bool-cases (i == k)) [
    | inl p ↦ rw p d.1
    | inr n ↦ rw n (rw (lookup-delete i k m d.1) (ground (arith, d.0)), delete-Distinct k m d.1)
  ]

-- One round's change `g` at the entry of a key, or none if the key has no entry.
abbrev pub at_key {ℓ κ} : {V : Type ℓ} {B : Type κ} → (V → B → B) → Option V → B → B
at_key g none b = b
at_key g (some v) b = g v b

pub absorbed {ℓ κ} :
    {V : Type ℓ} {B : Type κ} (g : V → B → B)
    → ((v w : V) (b : B) → g w (g v b) ≡ g v b)
    → (v : V) (b : B) (o : Option V) → at_key g o (g v b) ≡ g v b
absorbed g absorbs v b none = refl
absorbed g absorbs v b (some w) = absorbs v w b

-- What a loop does to one observable `obs` of its state, when each round changes it at one key
-- only: if the map has the key, the loop's effect is the one round at that key.
pub range_observe {ℓ κ μ ν} :
    {K : Type ℓ} {V : Type κ} {S : Type μ} {B : Type ν} ⦃e : Eq K⦄
    → (body : S → K → V → S) (obs : S → B) (a : K) (g : V → B → B)
    → ((s : S) (k : K) (v : V) → obs (body s k v) ≡ (if k == a then g v (obs s) else obs s))
    → (m : GoMap K V) (s : S) → Distinct m
    → obs (range body m s) ≡ at_key g (lookup a m) (obs s)
unfolding range lookup
range_observe body obs a g h [] s d = refl
range_observe ⦃e⦄ body obs a g h ((k, v) ∷ m) s d = elim (Bool-cases (k == a)) [
  | inl p ↦
      let missing : lookup a m ≡ none = rw (← (e.equal_iff k a).0 p) d.0 in
      rw p (range_observe body obs a g h m (body s k v) d.1 ∙ rw (missing, h s k v, p))
  | inr n ↦ rw n (range_observe body obs a g h m (body s k v) d.1 ∙ rw (h s k v, n))
]

-- The same where later rounds at the key change nothing more, for any list.
pub range_observe_first {ℓ κ μ ν} :
    {K : Type ℓ} {V : Type κ} {S : Type μ} {B : Type ν} ⦃e : Eq K⦄
    → (body : S → K → V → S) (obs : S → B) (a : K) (g : V → B → B)
    → ((s : S) (k : K) (v : V) → obs (body s k v) ≡ (if k == a then g v (obs s) else obs s))
    → ((v w : V) (b : B) → g w (g v b) ≡ g v b)
    → (m : GoMap K V) (s : S) → obs (range body m s) ≡ at_key g (lookup a m) (obs s)
unfolding range lookup
range_observe_first body obs a g h absorbs [] s = refl
range_observe_first body obs a g h absorbs ((k, v) ∷ m) s = elim (Bool-cases (k == a)) [
  | inl p ↦ rw p (
      range_observe_first body obs a g h absorbs m (body s k v)
      ∙ rw (h s k v, p) (absorbed g absorbs v (obs s) (lookup a m)))
  | inr n ↦ rw n (range_observe_first body obs a g h absorbs m (body s k v) ∙ rw (h s k v, n))
]

-- An invariant of every round is one of the loop.
pub range_inv {ℓ κ μ ν} :
    {K : Type ℓ} {V : Type κ} {S : Type μ} (P : S → Type ν) (body : S → K → V → S)
    → ((s : S) (k : K) (v : V) → P s → P (body s k v))
    → (m : GoMap K V) (s : S) → P s
    → P (range body m s)
unfolding range
range_inv P body h [] s p = p
range_inv P body h ((k, v) ∷ m) s p = range_inv P body h m (body s k v) (h s k v p)
