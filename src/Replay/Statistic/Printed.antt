-- ===== src/Replay/Statistic/Printed.antt =====
-- `PrintSummary`: the distribution that it prints, and when it panics.
use substate_cli.Prelude.{
  ℕ, zero, suc, ◌+◌, ◌*◌, ◌/◌, ◌≤◌, ◌<◌, ◌≡◌, ◌↔◌, refl, sym, ◌∙◌, ap, none, some, List, [], ◌∷◌,
  arith, length, get_elem?,
}
use mathlib.Core.List.{Perm}
use substate_cli.Replay.Statistic.Sorted.{IsSorted, sort-IsSorted, sort-perm}
use substate_cli.Replay.Statistic.{
  AccessStatistics, insert_sorted, sort, prefix_sums, counts, total, frequency_rows, Summary,
  last_of, print_summary,
}

-- The first `n` numbers of a list.
abbrev pub take : ℕ → List ℕ → List ℕ
take zero xs = []
take (suc n) [] = []
take (suc n) (x ∷ xs) = x ∷ take n xs

length-insert_sorted : (x : ℕ) (xs : List ℕ) → length (insert_sorted x xs) ≡ suc (length xs)
unfolding insert_sorted
length-insert_sorted x [] = refl
length-insert_sorted x (y ∷ ys) = ground (arith, length-insert_sorted x ys)

pub length-sort : (xs : List ℕ) → length (sort xs) ≡ length xs
unfolding sort
length-sort [] = refl
length-sort (x ∷ xs) = omega (arith, length-insert_sorted x (sort xs), length-sort xs)

total-insert_sorted : (x : ℕ) (xs : List ℕ) → total (insert_sorted x xs) ≡ x + total xs
unfolding insert_sorted total
total-insert_sorted x [] = refl
total-insert_sorted x (y ∷ ys) = ground (arith, total-insert_sorted x ys)

pub total-sort : (xs : List ℕ) → total (sort xs) ≡ total xs
unfolding sort total
total-sort [] = refl
total-sort (x ∷ xs) = omega (arith, total-insert_sorted x (sort xs), total-sort xs)

length-prefix_sums : (acc : ℕ) (xs : List ℕ) → length (prefix_sums acc xs) ≡ length xs
unfolding prefix_sums
length-prefix_sums acc [] = refl
length-prefix_sums acc (x ∷ xs) = omega (arith, length-prefix_sums (acc + x) xs)

pub length-counts : {T : Type 0} (a : AccessStatistics T) → length (counts a) ≡ length a
unfolding counts
length-counts [] = refl
length-counts ((r, n) ∷ a) = omega (arith, length-counts a)

last_of-prefix_sums :
    (acc x : ℕ) (xs : List ℕ) → last_of (prefix_sums acc (x ∷ xs)) ≡ some (acc + (x + total xs))
unfolding prefix_sums last_of total
last_of-prefix_sums acc x [] = ap some (omega arith)
last_of-prefix_sums acc x (y ∷ ys) = last_of-prefix_sums (acc + x) y ys ∙ ap some (omega arith)

get_elem?-prefix_sums :
    (acc : ℕ) (xs : List ℕ) (i : ℕ)
    → i < length xs
    → get_elem? (prefix_sums acc xs) i ≡ some (acc + total (take (suc i) xs))
unfolding prefix_sums total
get_elem?-prefix_sums acc [] i h = absurd (omega arith)
get_elem?-prefix_sums acc (x ∷ xs) zero h = ap some (omega arith)
get_elem?-prefix_sums acc (x ∷ xs) (suc i) h =
    get_elem?-prefix_sums (acc + x) xs i (omega arith) ∙ ap some (omega arith)

in_range : (i n : ℕ) → i < 100 → 0 < n → i * n / 100 < n
in_range i n h p = let bound : i * n ≤ 99 * n = grind arith in omega (arith, bound)

abbrev RowsOf : List ℕ → ℕ → ℕ → List ℕ → Type 0
RowsOf list rounds i rows =
    (length rows ≡ rounds)
    × ((j : ℕ) → j < rounds → get_elem? rows j ≡ get_elem? list ((i + j) * length list / 100))

RowsOf-cons :
    (list : List ℕ) (rounds i v : ℕ) (rows : List ℕ)
    → get_elem? list (i * length list / 100) ≡ some v
    → RowsOf list rounds (i + 1) rows
    → RowsOf list (suc rounds) i (v ∷ rows)
RowsOf-cons list rounds i v rows found (long, each) = (ap suc long, at)
  where
    at :
        (j : ℕ)
        → j < suc rounds
        → get_elem? (v ∷ rows) j ≡ get_elem? list ((i + j) * length list / 100)
    at zero h = let e : i + zero ≡ i = omega arith in rw e (sym found)
    at (suc j) h = let e : i + suc j ≡ i + 1 + j = omega arith in rw e (each j (omega arith))

frequency_rows-suc :
    (list rows : List ℕ) (rounds i v : ℕ)
    → get_elem? list (i * length list / 100) ≡ some v
    → frequency_rows list rounds (i + 1) ≡ some rows
    → frequency_rows list (suc rounds) i ≡ some (v ∷ rows)
unfolding frequency_rows
frequency_rows-suc list rows rounds i v found made =
    rw (found, frequency_rows) (rw (made, frequency_rows))

frequency_rows-some :
    (list : List ℕ) (rounds i : ℕ)
    → ((j : ℕ) → j < length list → (v : ℕ) × (get_elem? list j ≡ some v))
    → 0 < length list
    → i + rounds ≤ 100
    → (rows : List ℕ) × (frequency_rows list rounds i ≡ some rows) × RowsOf list rounds i rows
unfolding frequency_rows
frequency_rows-some list zero i full p h = ([], refl, (refl, λ j k. absurd (omega arith)))
frequency_rows-some list (suc rounds) i full p h =
    let (v, found) = full (i * length list / 100) (in_range i (length list) (omega arith) p) in
    let (rows, made, of) = frequency_rows-some list rounds (i + 1) full p (omega arith) in
    (
      v ∷ rows,
      frequency_rows-suc list rows rounds i v found made,
      RowsOf-cons list rounds i v rows found of,
    )

-- What a summary must say of a statistic: it counts the targets and sums the references, the last
-- value of the distribution is that sum, and the row for `i` percent is the sum of the first
-- `i * n / 100 + 1` counts, of `n`, when they are put in ascending order.
pub record Describes {T : Type 0} (a : AccessStatistics T) (s : Summary) : Type 0 where
  pub targets : s.count ≡ length a
  pub references : s.sum ≡ total (counts a)
  pub whole : s.last ≡ s.sum
  pub ordered : List ℕ
  pub same_counts : Perm ordered (counts a)
  pub ascending : IsSorted ordered
  pub hundred : length s.rows ≡ 100
  pub row :
      (i : ℕ)
      → i < 100
      → get_elem? s.rows i ≡ some (total (take (suc (i * length a / 100)) ordered))

last_of-some : (list : List ℕ) → 0 < length list → last_of (prefix_sums 0 list) ≡ some (total list)
last_of-some [] h = absurd (omega arith)
last_of-some (x ∷ xs) h = last_of-prefix_sums 0 x xs ∙ (unfold total in ap some (omega arith))

print_summary-some :
    {T : Type 0} (a : AccessStatistics T) (rows : List ℕ) (last : ℕ)
    → frequency_rows (prefix_sums 0 (sort (counts a))) 100 0 ≡ some rows
    → last_of (prefix_sums 0 (sort (counts a))) ≡ some last
    → print_summary a
      ≡ some (record { rows = rows; last = last; count = length a; sum = total (counts a) })
unfolding print_summary
print_summary-some a rows last made found = rw (made, print_summary) (rw (found, print_summary))

-- If the statistic has a target, the summary is printed without a panic and describes it: the number
-- of targets, the sum of the references, the same sum as the last value, and for each percent the
-- sum of the counts up to that place of the counts in ascending order.
pub print_summary-Describes :
    {T : Type 0} (a : AccessStatistics T)
    → 0 < length a
    → (s : Summary) × (print_summary a ≡ some s) × Describes a s
print_summary-Describes a h =
    let sorted = sort (counts a) in
    let list = prefix_sums 0 sorted in
    let long : length list ≡ length a =
      length-prefix_sums 0 sorted ∙ length-sort (counts a) ∙ length-counts a in
    let many : length sorted ≡ length a = length-sort (counts a) ∙ length-counts a in
    let at : (j : ℕ) → j < length list → get_elem? list j ≡ some (total (take (suc j) sorted)) =
      λ j k. get_elem?-prefix_sums 0 sorted j (omega (arith, long, many)) ∙ ap some (omega arith) in
    let (rows, made, of) =
      frequency_rows-some list 100 0 (λ j k. (total (take (suc j) sorted), at j k))
        (omega (arith, long)) (omega arith) in
    let zero_first : (i : ℕ) → 0 + i ≡ i = λ i. omega arith in
    let last = last_of-some sorted (omega (arith, many)) in
    (
      record { rows = rows; last = total sorted; count = length a; sum = total (counts a) },
      print_summary-some a rows (total sorted) made last,
      record {
        targets = refl;
        references = refl;
        whole = total-sort (counts a);
        ordered = sorted;
        same_counts = sort-perm (counts a);
        ascending = sort-IsSorted (counts a);
        hundred = of.0;
        row = λ i k.
            of.1 i k
            ∙ rw (zero_first i) (
                rw (ap (λ n. i * n / 100) long)
                  (at (i * length a / 100) (rw long (in_range i (length a) k h))));
      },
    )

-- The summary panics exactly if the statistic has no target: the index is then out of range.
pub print_summary-none_iff :
    {T : Type 0} (a : AccessStatistics T) → (print_summary a ≡ none) ↔ (length a ≡ 0)
print_summary-none_iff [] = (λ _. refl, λ _. unfold print_summary in refl)
print_summary-none_iff ((r, n) ∷ a) =
    let (s, printed, _) = print_summary-Describes ((r, n) ∷ a) (omega arith) in
    (λ panics. cc (panics, printed), λ e. absurd (omega (arith, e)))
