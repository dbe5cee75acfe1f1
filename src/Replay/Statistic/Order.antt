-- ===== src/Replay/Statistic/Order.antt =====
-- `PrintSummary` does not depend on the order in which Go's `range` meets the map of a statistic.
use mathlib.Core.Quot
use mathlib.Core.Quot.{Quot}
use substate_cli.Prelude.{
  ◌↔◌, ℕ, zero, suc, ◌+◌, ◌≡◌, refl, sym, ◌∙◌, ap, inl, inr, Option, none, some, List, [], ◌∷◌,
  arith, length, Eq, ◌==◌, ==_refl, Bool-cases,
}
use substate_cli.GoMap.{lookup, get_or, delete, Distinct}
use substate_cli.GoMap.Laws.{lookup-put, lookup-delete, delete-Distinct, put-Distinct}
use substate_cli.Replay.Statistic.{
  AccessStatistics, register_access, run_stat_collector, insert_sorted, sort, prefix_sums, counts,
  total, frequency_rows, Summary, last_of, print_summary,
}
use substate_cli.Replay.Statistic.Counts.{count, accessing, all_sent, count-all_sent}
use substate_cli.Replay.Statistic.Printed.{length-sort, total-sort, length-counts}

insert_sorted_comm :
    (x y : ℕ) (xs : List ℕ)
    → insert_sorted x (insert_sorted y xs) ≡ insert_sorted y (insert_sorted x xs)
unfolding insert_sorted
insert_sorted_comm x y [] = ground arith
insert_sorted_comm x y (z ∷ zs) = ground (arith, insert_sorted_comm x y zs)

-- What is printed of the sorted counts, the number of targets and the sum.
abbrev summary_from : List ℕ → ℕ → ℕ → Option Summary
summary_from sorted targets sum =
    let list = prefix_sums 0 sorted in
    elim (frequency_rows list 100 0) [
      | none ↦ none
      | some rows ↦ elim (last_of list) [
        | none ↦ none
        | some last ↦ some (record { rows = rows; last = last; count = targets; sum = sum })
      ]
    ]

abbrev summary_of : List ℕ → Option Summary
summary_of sorted = summary_from sorted (length sorted) (total sorted)

print_summary-summary_of :
    {T : Type 0} (a : AccessStatistics T) → print_summary a ≡ summary_of (sort (counts a))
unfolding print_summary
print_summary-summary_of a =
    let targets : length (sort (counts a)) ≡ length a = length-sort (counts a) ∙ length-counts a in
    ap (λ n. summary_from (sort (counts a)) n (total (counts a))) (sym targets)
    ∙ ap (summary_from (sort (counts a)) (length (sort (counts a)))) (sym (total-sort (counts a)))

-- The entry for a reference that is accessed so often.
abbrev pub tallied : ℕ → Option ℕ
tallied zero = none
tallied (suc n) = some (suc n)

nothing_tallied : (n : ℕ) → none ≡ tallied n → n ≡ 0
nothing_tallied zero h = refl
nothing_tallied (suc n) h = absurd cc

abbrev counted : Option ℕ → ℕ → Option ℕ
counted none n = tallied n
counted (some m) n = some (m + n)

module _ {T : Type 0} ⦃e : Eq T⦄ where
  sort-counts-delete :
      (r : T) (n : ℕ) (a : AccessStatistics T)
      → lookup r a ≡ some n
      → sort (counts a) ≡ insert_sorted n (sort (counts (delete r a)))
  unfolding lookup sort counts delete
  sort-counts-delete r n [] h = absurd cc
  sort-counts-delete r n ((q, m) ∷ a) h = elim (Bool-cases (q == r)) [
    | inl here ↦ rw here (ground arith)
    | inr other ↦ rw other (
        ap (insert_sorted m) (sort-counts-delete r n a (rw other at h))
        ∙ insert_sorted_comm m n (sort (counts (delete r a))))
  ]

  abbrev pub SameMap : AccessStatistics T → AccessStatistics T → Type 0
  SameMap a b = (r : T) → lookup r a ≡ lookup r b

  sort-counts-SameMap :
      (a b : AccessStatistics T)
      → Distinct a
      → Distinct b
      → SameMap a b
      → sort (counts a) ≡ sort (counts b)
  unfolding lookup sort counts
  sort-counts-SameMap [] [] d f h = refl
  sort-counts-SameMap [] ((q, m) ∷ b) d f h = absurd (cc (h q, ==_refl q))
  sort-counts-SameMap ((q, m) ∷ a) b d f h =
      let found : lookup q b ≡ some m = sym (h q) ∙ rw (==_refl q) refl in
      let rest =
        sort-counts-SameMap a (delete q b) d.1 (delete-Distinct q b f)
          (λ r. ground (arith, lookup-delete r q b f, h r, d.0, e.equal_iff q r)) in
      ap (insert_sorted m) rest ∙ sym (sort-counts-delete q m b found)

  -- Two lists that are the same map print the same summary, whatever their order.
  pub print_summary-SameMap :
      (a b : AccessStatistics T)
      → Distinct a
      → Distinct b
      → SameMap a b
      → print_summary a ≡ print_summary b
  print_summary-SameMap a b d f h =
      print_summary-summary_of a
      ∙ ap summary_of (sort-counts-SameMap a b d f h)
      ∙ sym (print_summary-summary_of b)

-- A statistic as Go sees it: a map, whose entries have no order.
abbrev pub CountMap : (T : Type 0) → ⦃e : Eq T⦄ → Type 0
CountMap T = (a : AccessStatistics T) × Distinct a

abbrev pub Statistic : (T : Type 0) → ⦃e : Eq T⦄ → Type 0
Statistic T = Quot (λ (a b : CountMap T). SameMap a.0 b.0)

module _ {T : Type 0} ⦃e : Eq T⦄ where
  -- `PrintSummary` is a function of the map alone: there is a function on maps without an order that
  -- it is, on each list of entries.
  pub print_summary-lifts :
      (f : Statistic T → Option Summary) × ((a : CountMap T) → f (Quot.mk a) ≡ print_summary a.0)
  print_summary-lifts = (
    Quot.lift (hlevel) (λ (a : CountMap T). print_summary a.0)
        (λ a b h. print_summary-SameMap a.0 b.0 a.1 b.1 h),
    λ a. refl,
  )

  run_stat_collector-Distinct :
      (src : List T) (stats : AccessStatistics T)
      → Distinct stats
      → Distinct (run_stat_collector src stats)
  unfolding run_stat_collector register_access
  run_stat_collector-Distinct [] stats d = d
  run_stat_collector-Distinct (x ∷ src) stats d =
      run_stat_collector-Distinct src (register_access x stats) (put-Distinct x _ stats d)

  lookup-run_stat_collector :
      (r : T) (src : List T) (stats : AccessStatistics T)
      → lookup r (run_stat_collector src stats) ≡ counted (lookup r stats) (count r src)
  unfolding run_stat_collector register_access get_or lookup
  lookup-run_stat_collector r [] stats = ground arith
  lookup-run_stat_collector r (x ∷ src) stats =
      lookup-run_stat_collector r src (register_access x stats)
      ∙ rw (lookup-put r x (get_or x stats 0 + 1) stats) (ground (arith, e.equal_iff x r))

  -- The statistic has each reference that the transactions access once, with their number, and no
  -- other.
  abbrev pub Tally : List (List T) → AccessStatistics T → Type 0
  Tally txs stats = Distinct stats × ((r : T) → lookup r stats ≡ tallied (accessing r txs))

  pub get_or-Tally :
      (r : T) (txs : List (List T)) (stats : AccessStatistics T)
      → Tally txs stats
      → get_or r stats 0 ≡ accessing r txs
  unfolding get_or
  get_or-Tally r txs stats (d, at) = rw (get_or, at r) (or_none (accessing r txs))
    where
      or_none : (n : ℕ) → elim (tallied n) [ none ↦ 0 | some v ↦ v ] ≡ n
      or_none zero = refl
      or_none (suc n) = refl

  pub Tally-nil_iff :
      (txs : List (List T)) (stats : AccessStatistics T)
      → Tally txs stats
      → (length stats ≡ 0) ↔ ((r : T) → accessing r txs ≡ 0)
  unfolding lookup
  Tally-nil_iff txs [] (d, at) = (λ _ r. nothing_tallied (accessing r txs) (at r), λ _. refl)
  Tally-nil_iff txs ((k, v) ∷ stats) (d, at) =
      (λ h. absurd (omega (arith, h)), λ h. absurd (cc (at k, ==_refl k, ap tallied (h k))))

  pub run_stat_collector-Tally :
      (txs : List (List T)) (received : List T)
      → ((r : T) → count r received ≡ count r (all_sent txs))
      → Tally txs (run_stat_collector received [])
  run_stat_collector-Tally txs received h = (
    run_stat_collector-Distinct received [] tt,
    λ r.
        lookup-run_stat_collector r received []
        ∙ (unfold lookup in ap tallied (h r ∙ count-all_sent r txs)),
  )

  -- The summary that is printed depends on how often each reference is received, and not on the order.
  pub print_summary-received :
      (xs ys : List T)
      → ((r : T) → count r xs ≡ count r ys)
      → print_summary (run_stat_collector xs []) ≡ print_summary (run_stat_collector ys [])
  print_summary-received xs ys h =
      print_summary-SameMap (run_stat_collector xs []) (run_stat_collector ys [])
        (run_stat_collector-Distinct xs [] tt) (run_stat_collector-Distinct ys [] tt)
        (λ r.
          lookup-run_stat_collector r xs []
          ∙ ap (counted (lookup r [])) (h r)
          ∙ sym (lookup-run_stat_collector r ys []))
