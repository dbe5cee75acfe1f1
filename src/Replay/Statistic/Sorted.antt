-- ===== src/Replay/Statistic/Sorted.antt =====
-- `sort.Slice` by `<`: the counts of a statistic in ascending order.
use mathlib.Core.List.{Perm}
use mathlib.Core.List.Perm
use substate_cli.Prelude.{ℕ, ◌≤◌, inl, inr, List, [], ◌∷◌, arith, leb, Bool-cases}
use substate_cli.Replay.Statistic.{insert_sorted, sort}

abbrev pub IsBelow : ℕ → List ℕ → Type 0
IsBelow x [] = Unit
IsBelow x (y ∷ ys) = (x ≤ y) × IsBelow x ys

-- Each number is at most all that follow it.
abbrev pub IsSorted : List ℕ → Type 0
IsSorted [] = Unit
IsSorted (x ∷ xs) = IsBelow x xs × IsSorted xs

IsBelow-trans : (x y : ℕ) (xs : List ℕ) → x ≤ y → IsBelow y xs → IsBelow x xs
IsBelow-trans x y [] h b = tt
IsBelow-trans x y (z ∷ xs) h b = (omega (arith, h, b.0), IsBelow-trans x y xs h b.1)

insert_sorted-IsBelow :
    (z x : ℕ) (xs : List ℕ) → z ≤ x → IsBelow z xs → IsBelow z (insert_sorted x xs)
unfolding insert_sorted
insert_sorted-IsBelow z x [] h b = (h, tt)
insert_sorted-IsBelow z x (y ∷ ys) h b = elim (Bool-cases (leb x y)) [
  | inl le ↦ rw le (h, b)
  | inr gt ↦ rw gt (b.0, insert_sorted-IsBelow z x ys h b.1)
]

insert_sorted-IsSorted : (x : ℕ) (xs : List ℕ) → IsSorted xs → IsSorted (insert_sorted x xs)
unfolding insert_sorted
insert_sorted-IsSorted x [] s = (tt, tt)
insert_sorted-IsSorted x (y ∷ ys) s = elim (Bool-cases (leb x y)) [
  | inl le ↦ let h : x ≤ y = ground (arith, le) in rw le ((h, IsBelow-trans x y ys h s.0), s)
  | inr gt ↦
      let h : y ≤ x = ground (arith, gt) in
      rw gt (insert_sorted-IsBelow y x ys h s.0, insert_sorted-IsSorted x ys s.1)
]

pub sort-IsSorted : (xs : List ℕ) → IsSorted (sort xs)
unfolding sort
sort-IsSorted [] = tt
sort-IsSorted (x ∷ xs) = insert_sorted-IsSorted x (sort xs) (sort-IsSorted xs)

insert_sorted-perm : (x : ℕ) (xs : List ℕ) → Perm (insert_sorted x xs) (x ∷ xs)
unfolding insert_sorted
insert_sorted-perm x [] = Perm.rfl
insert_sorted-perm x (y ∷ ys) = elim (Bool-cases (leb x y)) [
  | inl le ↦ rw le Perm.rfl
  | inr gt ↦ rw gt (Perm.trans (Perm.cons y (insert_sorted-perm x ys)) (Perm.swap x y ys))
]

pub sort-perm : (xs : List ℕ) → Perm (sort xs) xs
unfolding sort
sort-perm [] = Perm.rfl
sort-perm (x ∷ xs) = Perm.trans (insert_sorted-perm x (sort xs)) (Perm.cons x (sort-perm xs))
