-- ===== src/Replay/Statistic.antt =====
-- cmd/substate-cli/replay/statistic.go: how often each reference is accessed, and the summary.
-- Its counters are ints that count events in memory; they are numbers without a bound here.
pub mod Counts
pub mod Sorted
pub mod Printed
pub mod Order
use substate_cli.Prelude.{
  ℕ, zero, suc, ◌+◌, ◌*◌, ◌/◌, Bool, true, false, Option, none, some, List, [], ◌∷◌, ◌++◌, map, Eq,
  ◌==◌, nat_eq, length, get_elem?, leb, if◌then◌else◌,
}
use substate_cli.GoMap.{GoMap, range, lookup, get_or, put}

-- `AccessStatistics[T]`, its field `accesses`
abbrev pub AccessStatistics : Type 0 → Type 0
AccessStatistics T = GoMap T ℕ

module _ {T : Type 0} ⦃e : Eq T⦄ where
  -- `a.accesses[*reference]++`
  unfoldable pub register_access : T → AccessStatistics T → AccessStatistics T
  register_access reference a = put reference (get_or reference a 0 + 1) a

  -- `runStatCollector`: the references that come through the channel, in their order.
  unfoldable pub run_stat_collector : List T → AccessStatistics T → AccessStatistics T
  run_stat_collector [] stats = stats
  run_stat_collector (reference ∷ src) stats =
      run_stat_collector src (register_access reference stats)

  -- `for _, reference := range extract(&info) { accessed_references[reference] = 0 }`
  unfoldable pub accessed_references : List T → GoMap T ℕ → GoMap T ℕ
  accessed_references [] accessed = accessed
  accessed_references (reference ∷ rest) accessed =
      accessed_references rest (put reference 0 accessed)

  -- `for reference := range accessed_references { dest <- reference }`
  unfoldable pub report_keys : GoMap T ℕ → List T
  report_keys [] = []
  report_keys ((reference, _) ∷ rest) = reference ∷ report_keys rest

  -- `collectStats`: what one transaction sends, given what `extract` finds in it.
  unfoldable pub collect_stats : List T → List T
  unfolding accessed_references report_keys
  collect_stats extracted = report_keys (accessed_references extracted [])

-- `sort.Slice(list, ...)` by `<` on ints
unfoldable pub insert_sorted : ℕ → List ℕ → List ℕ
insert_sorted x [] = x ∷ []
insert_sorted x (y ∷ ys) = if leb x y then x ∷ y ∷ ys else y ∷ insert_sorted x ys

unfoldable pub sort : List ℕ → List ℕ
unfolding insert_sorted
sort [] = []
sort (x ∷ xs) = insert_sorted x (sort xs)

-- `for i := range list { list[i] = prefix_sum + list[i]; prefix_sum = list[i] }`
unfoldable pub prefix_sums : ℕ → List ℕ → List ℕ
prefix_sums prefix_sum [] = []
prefix_sums prefix_sum (x ∷ xs) = (prefix_sum + x) ∷ prefix_sums (prefix_sum + x) xs

-- The values of `a.accesses`, in the order in which the loop meets them, and their sum.
unfoldable pub counts : {T : Type 0} → AccessStatistics T → List ℕ
counts [] = []
counts ((_, count) ∷ rest) = count ∷ counts rest

unfoldable pub total : List ℕ → ℕ
total [] = 0
total (x ∷ xs) = x + total xs

-- `for i := 0; i < 100; i++ { ... list[i*len(list)/100] }` from `i` on with `rounds` rounds left;
-- `none` is the panic on an index out of range.
unfoldable pub frequency_rows : List ℕ → ℕ → ℕ → Option (List ℕ)
frequency_rows list zero i = some []
frequency_rows list (suc rounds) i = elim (get_elem? list (i * length list / 100)) [
  | none ↦ none
  | some row ↦ elim (frequency_rows list rounds (i + 1)) [
    | none ↦ none
    | some rows ↦ some (row ∷ rows)
  ]
]

-- What `PrintSummary` prints, but for the average, which is the float `sum / count`.
pub record Summary : Type 0 where
  pub rows : List ℕ
  pub last : ℕ
  pub count : ℕ
  pub sum : ℕ

-- `list[len(list)-1]`
unfoldable pub last_of : List ℕ → Option ℕ
last_of [] = none
last_of (x ∷ []) = some x
last_of (x ∷ y ∷ ys) = last_of (y ∷ ys)

unfoldable pub print_summary : {T : Type 0} → AccessStatistics T → Option Summary
unfolding counts total sort prefix_sums frequency_rows last_of
print_summary a =
    let list = prefix_sums 0 (sort (counts a)) in
    elim (frequency_rows list 100 0) [
      | none ↦ none
      | some rows ↦ elim (last_of list) [
        | none ↦ none
        | some last ↦
            some (record { rows = rows; last = last; count = length a; sum = total (counts a) })
      ]
    ]
