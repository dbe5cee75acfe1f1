-- ===== src/Replay/KeyLength/Distribution.antt =====
-- `printKeyValueDistribution`: how many keys there are of each length, and how often they are
-- accessed. The counters are numbers without a bound.
use substate_cli.Prelude.{
  ℕ, zero, suc, ◌+◌, ◌^◌, ◌≤◌, ◌<◌, ◌≡◌, refl, ◌∙◌, ap, Option, none, some, List, [], ◌∷◌, arith,
  ◌==◌, nat_eq, nat_eqb_iff, length, get_elem?, if◌then◌else◌,
}
use substate_cli.Types.{Hash}
use substate_cli.Replay.Statistic.{AccessStatistics}
use substate_cli.Replay.KeyLength.{get_length, get_length_lem}

-- `a[i] += v`; `none` is the panic on an index out of range.
unfoldable pub add_at : ℕ → ℕ → List ℕ → Option (List ℕ)
add_at i v [] = none
add_at zero v (x ∷ xs) = some ((x + v) ∷ xs)
add_at (suc i) v (x ∷ xs) = elim (add_at i v xs) [ none ↦ none | some ys ↦ some (x ∷ ys) ]

-- The loop over `stats.accesses`.
unfoldable pub distribute : AccessStatistics Hash → List ℕ → List ℕ → Option (List ℕ × List ℕ)
unfolding add_at
distribute [] counts accesses = some (counts, accesses)
distribute ((key, value) ∷ rest) counts accesses = elim (add_at (get_length key) 1 counts) [
  | none ↦ none
  | some counts' ↦ elim (add_at (get_length key) value accesses) [
    | none ↦ none
    | some accesses' ↦ distribute rest counts' accesses'
  ]
]

abbrev pub zeros : ℕ → List ℕ
zeros zero = []
zeros (suc n) = 0 ∷ zeros n

-- The two columns that are printed, from the arrays of `common.HashLength + 1` zeros.
unfoldable pub print_key_value_distribution : AccessStatistics Hash → Option (List ℕ × List ℕ)
unfolding distribute
print_key_value_distribution stats = distribute stats (zeros 33) (zeros 33)

-- The keys of a length, and their accesses.
abbrev pub keys_of : ℕ → AccessStatistics Hash → ℕ
keys_of i [] = 0
keys_of i ((key, value) ∷ rest) = (if get_length key == i then 1 else 0) + keys_of i rest

abbrev pub accesses_of : ℕ → AccessStatistics Hash → ℕ
accesses_of i [] = 0
accesses_of i ((key, value) ∷ rest) =
    (if get_length key == i then value else 0) + accesses_of i rest

abbrev pub AllHashes : AccessStatistics Hash → Type 0
AllHashes [] = Unit
AllHashes ((key, value) ∷ rest) = (key < 256 ^ 32) × AllHashes rest

-- What an addition leaves at each index.
abbrev Added : ℕ → ℕ → List ℕ → List ℕ → Type 0
Added i v xs ys =
    (length ys ≡ length xs)
    × ((j w : ℕ) → get_elem? xs j ≡ some w → get_elem? ys j ≡ some ((if i == j then v else 0) + w))

Added-cons : (i v x : ℕ) (xs ys : List ℕ) → Added i v xs ys → Added (suc i) v (x ∷ xs) (x ∷ ys)
Added-cons i v x xs ys of = (ap suc of.0, at)
  where
    at :
        (j w : ℕ)
        → get_elem? (x ∷ xs) j ≡ some w
        → get_elem? (x ∷ ys) j ≡ some ((if suc i == j then v else 0) + w)
    at zero w e = ground arith
    at (suc j) w e = ground (arith, of.1 j w e, nat_eqb_iff i j, nat_eqb_iff (suc i) (suc j))

add_at-some :
    (i v : ℕ) (xs : List ℕ)
    → i < length xs
    → (ys : List ℕ) × (add_at i v xs ≡ some ys) × Added i v xs ys
unfolding add_at
add_at-some i v [] h = absurd (omega arith)
add_at-some zero v (x ∷ xs) h = ((x + v) ∷ xs, refl, (refl, at))
  where
    at :
        (j w : ℕ)
        → get_elem? (x ∷ xs) j ≡ some w
        → get_elem? ((x + v) ∷ xs) j ≡ some ((if zero == j then v else 0) + w)
    at zero w e = ground arith
    at (suc j) w e = ground arith
add_at-some (suc i) v (x ∷ xs) h =
    let (ys, made, of) = add_at-some i v xs (omega arith) in
    (x ∷ ys, rw (made, add_at), Added-cons i v x xs ys of)

-- The loop over a statistic of hashes does not leave the arrays, and counts each entry.
distribute-some :
    (stats : AccessStatistics Hash) (counts accesses : List ℕ)
    → AllHashes stats
    → length counts ≡ 33
    → length accesses ≡ 33
    → (c : List ℕ) × (a : List ℕ) × (distribute stats counts accesses ≡ some (c, a))
      × ((j w : ℕ) → get_elem? counts j ≡ some w → get_elem? c j ≡ some (keys_of j stats + w))
      × ((j w : ℕ) → get_elem? accesses j ≡ some w → get_elem? a j ≡ some (accesses_of j stats + w))
unfolding distribute
distribute-some [] counts accesses all lc la =
    (counts, accesses, refl, λ j w e. e ∙ ap some (omega arith), λ j w e. e ∙ ap some (omega arith))
distribute-some ((key, value) ∷ rest) counts accesses all lc la =
    let short : get_length key ≤ 32 = (get_length_lem key all.0).0 in
    let (counts', made_c, add_c) = add_at-some (get_length key) 1 counts (omega arith) in
    let (accesses', made_a, add_a) = add_at-some (get_length key) value accesses (omega arith) in
    let (c, a, done, rows_c, rows_a) =
      distribute-some rest counts' accesses' all.1 (add_c.0 ∙ lc) (add_a.0 ∙ la) in
    (
      c,
      a,
      rw (made_c, made_a, distribute) done,
      λ j w e. rows_c j _ (add_c.1 j w e) ∙ ap some (omega arith),
      λ j w e. rows_a j _ (add_a.1 j w e) ∙ ap some (omega arith),
    )

get_elem?-zeros : (n i : ℕ) → i < n → get_elem? (zeros n) i ≡ some 0
get_elem?-zeros zero i h = absurd (omega arith)
get_elem?-zeros (suc n) zero h = refl
get_elem?-zeros (suc n) (suc i) h = get_elem?-zeros n i (omega arith)

-- For a statistic of 32-byte keys no index is out of range, and the two columns have for each
-- length up to 32 the number of keys of this length and the sum of their accesses.
pub print_key_value_distribution-rows :
    (stats : AccessStatistics Hash)
    → AllHashes stats
    → (c : List ℕ) × (a : List ℕ) × (print_key_value_distribution stats ≡ some (c, a))
      × ((i : ℕ)
          → i < 33
          → (get_elem? c i ≡ some (keys_of i stats)) × (get_elem? a i ≡ some (accesses_of i stats)))
unfolding print_key_value_distribution
print_key_value_distribution-rows stats all =
    let (c, a, done, rows_c, rows_a) = distribute-some stats (zeros 33) (zeros 33) all refl refl in
    (
      c,
      a,
      done,
      λ i h. (
        rows_c i 0 (get_elem?-zeros 33 i h) ∙ ap some (omega arith),
        rows_a i 0 (get_elem?-zeros 33 i h) ∙ ap some (omega arith),
      ),
    )
