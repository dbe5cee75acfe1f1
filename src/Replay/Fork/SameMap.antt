-- ===== src/Replay/Fork/SameMap.antt =====
-- The comparison of two maps by their sizes and one loop over the first: it finds out whether the
-- two have the same keys and their values match.
use substate_cli.Prelude.{
  suc, ◌≤◌, ◌≡◌, ◌↔◌, refl, sym, ◌∙◌, subst, inl, inr, Bool, true, false, ◌&&◌, Option, none, some,
  [], ◌∷◌, arith, Eq, ◌==◌, length, nat_eq, nat_eqb_iff, is_some, Option-cases, Bool-cases,
}
use substate_cli.GoMap.{GoMap, lookup, has, delete, Distinct}
use substate_cli.GoMap.Laws.{lookup-delete, delete-Distinct}

module _ {V : Type 0} where
  -- Both have no value, or both have one and the test passes.
  abbrev pub Matches : (V → V → Bool) → Option V → Option V → Type 0
  Matches test none none = Unit
  Matches test (some v) (some w) = test v w ≡ true
  Matches test none (some w) = ⊥
  Matches test (some v) none = ⊥

  Matches-is_some :
      (test : V → V → Bool) (o p : Option V) → Matches test o p → is_some o ≡ is_some p
  Matches-is_some test none none h = refl
  Matches-is_some test (some v) (some w) h = refl
  Matches-is_some test none (some w) h = elim h [ ]
  Matches-is_some test (some v) none h = elim h [ ]

module _ {K V : Type 0} ⦃e : Eq K⦄ where
  pub KeysIn : GoMap K V → GoMap K V → Type 0
  KeysIn [] n = Unit
  KeysIn ((k, v) ∷ m) n = (has k n ≡ true) × KeysIn m n

  length-delete : (k : K) (n : GoMap K V) → has k n ≡ true → suc (length (delete k n)) ≡ length n
  unfolding has lookup delete
  length-delete k [] h = cc
  length-delete k ((j, w) ∷ n) h = ground (arith, length-delete k n)

  KeysIn-delete :
      (j : K) (m n : GoMap K V)
      → Distinct n
      → lookup j m ≡ none
      → KeysIn m n
      → KeysIn m (delete j n)
  unfolding KeysIn has lookup
  KeysIn-delete j [] n d absent h = tt
  KeysIn-delete j ((k, v) ∷ m) n d absent h = (
    ground (arith, lookup-delete k j n d, e.equal_iff j k, e.equal_iff k j, h.0),
    KeysIn-delete j m n d (ground arith) h.1,
  )

  pub length-le_of_KeysIn :
      (m n : GoMap K V) → Distinct m → Distinct n → KeysIn m n → length m ≤ length n
  unfolding KeysIn
  length-le_of_KeysIn [] n d f h = omega arith
  length-le_of_KeysIn ((k, v) ∷ m) n d f h = omega (
    arith,
    length-delete k n h.0,
    length-le_of_KeysIn m (delete k n) d.1 (delete-Distinct k n f) (KeysIn-delete k m n f d.0 h.1),
  )

  -- With all the keys of a map that is not smaller, there is no room for another.
  no_other_key :
      (m n : GoMap K V) (k : K)
      → Distinct m
      → Distinct n
      → KeysIn m n
      → length n ≤ length m
      → lookup k m ≡ none
      → lookup k n ≡ none
  unfolding KeysIn lookup
  no_other_key [] [] k d f h le absent = refl
  no_other_key [] (x ∷ n) k d f h le absent = absurd (omega arith)
  no_other_key ((j, v) ∷ m) n k d f h le absent = ground (
    arith,
    no_other_key m (delete j n) k d.1 (delete-Distinct j n f) (KeysIn-delete j m n f d.0 h.1)
        (omega (arith, length-delete j n h.0)),
    lookup-delete k j n f,
  )

  pub KeysIn-by_matches :
      (m n : GoMap K V)
      → Distinct m
      → ((k : K) → is_some (lookup k m) ≡ true → is_some (lookup k n) ≡ true)
      → KeysIn m n
  unfolding KeysIn has lookup
  KeysIn-by_matches [] n d h = tt
  KeysIn-by_matches ((j, u) ∷ m) n d h = (
    h j (ground (arith, e.equal_iff j j)),
    KeysIn-by_matches m n d.1 (λ k p. h k (ground (arith, e.equal_iff j k, d.0))),
  )

  module _ (test : V → V → Bool) where
    -- The loop over the first map.
    unfoldable pub check_all : GoMap K V → GoMap K V → Bool
    check_all [] n = true
    check_all ((k, v) ∷ m) n = elim (lookup k n) [
      | none ↦ false
      | some w ↦ test v w && check_all m n
    ]

    check_all-KeysIn : (m n : GoMap K V) → check_all m n ≡ true → KeysIn m n
    unfolding check_all KeysIn has
    check_all-KeysIn [] n h = tt
    check_all-KeysIn ((k, v) ∷ m) n h = (ground arith, check_all-KeysIn m n (ground arith))

    check_all-found :
        (m n : GoMap K V) (k : K) (v : V)
        → check_all m n ≡ true
        → lookup k m ≡ some v
        → Matches test (some v) (lookup k n)
    unfolding check_all lookup
    check_all-found [] n k v h found = cc
    check_all-found ((j, u) ∷ m) n k v h found = elim (Option-cases (lookup j n)) [
      | inl missing ↦ ground arith
      | inr (w, present) ↦ elim (Bool-cases (j == k)) [
        | inl same ↦
            let at : lookup k n ≡ some w = ground (arith, e.equal_iff j k) in rw at (ground arith)
        | inr other ↦ check_all-found m n k v (ground arith) (ground arith)
      ]
    ]

    -- All that the first map has matches: the loop says so.
    all_match :
        (m n : GoMap K V)
        → Distinct m
        → ((k : K) (v : V) → lookup k m ≡ some v → Matches test (some v) (lookup k n))
        → check_all m n ≡ true
    unfolding check_all lookup
    all_match [] n d h = refl
    all_match ((j, u) ∷ m) n d h =
        let first : Matches test (some u) (lookup j n) = h j u (ground (arith, e.equal_iff j j)) in
        let others : check_all m n ≡ true =
          all_match m n d.1 (λ k v found. h k v (ground (arith, e.equal_iff j k, d.0))) in
        elim (Option-cases (lookup j n)) [
          | inl missing ↦ absurd (rw missing at first)
          | inr (w, present) ↦
              let passed : test u w ≡ true = rw present at first in
              rw (present, check_all) (ground arith)
        ]

    -- For two maps without a key twice: the sizes are equal and the loop passes exactly if at each
    -- key both maps have no value, or both have one and the test passes.
    pub check_all_iff :
        (m n : GoMap K V)
        → Distinct m
        → Distinct n
        → ((length m == length n && check_all m n) ≡ true)
          ↔ ((k : K) → Matches test (lookup k m) (lookup k n))
    check_all_iff m n d f = (sound, complete)
      where
        sound :
            (length m == length n && check_all m n) ≡ true
            → (k : K) → Matches test (lookup k m) (lookup k n)
        sound h k =
            let size : length m ≡ length n = ground (arith, nat_eqb_iff (length m) (length n)) in
            let loop : check_all m n ≡ true = ground arith in
            elim (Option-cases (lookup k m)) [
              | inr (v, found) ↦ rw found (check_all-found m n k v loop found)
              | inl absent ↦
                  rw
                    (
                      absent,
                      no_other_key m n k d f (check_all-KeysIn m n loop) (omega (arith, size))
                          absent,
                    )
                    tt
            ]

        complete :
            ((k : K) → Matches test (lookup k m) (lookup k n))
            → (length m == length n && check_all m n) ≡ true
        complete h =
            let there : (k : K) → is_some (lookup k m) ≡ is_some (lookup k n) =
              λ k. Matches-is_some test (lookup k m) (lookup k n) (h k) in
            let small =
              length-le_of_KeysIn m n d f (KeysIn-by_matches m n d (λ k p. sym (there k) ∙ p)) in
            let large =
              length-le_of_KeysIn n m f d (KeysIn-by_matches n m f (λ k p. there k ∙ p)) in
            let size : length m ≡ length n = omega (arith, small, large) in
            let loop =
              all_match m n d (λ k v found. subst (λ o. Matches test o (lookup k n)) found (h k)) in
            ground (arith, nat_eqb_iff (length m) (length n), size, loop)
