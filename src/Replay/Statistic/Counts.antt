-- ===== src/Replay/Statistic/Counts.antt =====
-- The counts of a statistic, against the transactions that access a reference.
use substate_cli.Prelude.{
  ℕ, ◌+◌, ◌≡◌, refl, ◌∙◌, Bool, false, ◌||◌, List, [], ◌∷◌, ◌++◌, arith, Eq, ◌==◌, if◌then◌else◌,
}
use substate_cli.GoMap.{GoMap, lookup, has, get_or, put, Distinct}
use substate_cli.GoMap.Laws.{lookup-put, has-put, put-Distinct}
use substate_cli.Replay.Statistic.{
  AccessStatistics, register_access, run_stat_collector, accessed_references, report_keys,
  collect_stats,
}

module _ {T : Type 0} ⦃e : Eq T⦄ where
  -- How often a reference occurs.
  abbrev pub count : T → List T → ℕ
  count r [] = 0
  count r (x ∷ xs) = (if x == r then 1 else 0) + count r xs

  abbrev pub contains : T → List T → Bool
  contains r [] = false
  contains r (x ∷ xs) = x == r || contains r xs

  pub contains-append :
      (r : T) (xs ys : List T) → contains r (xs ++ ys) ≡ (contains r xs || contains r ys)
  contains-append r [] ys = refl
  contains-append r (x ∷ xs) ys = ground (arith, contains-append r xs ys)

  pub get_or-run_stat_collector :
      (r : T) (src : List T) (stats : AccessStatistics T)
      → get_or r (run_stat_collector src stats) 0 ≡ get_or r stats 0 + count r src
  unfolding run_stat_collector
  get_or-run_stat_collector r [] stats = omega arith
  get_or-run_stat_collector r (x ∷ src) stats =
      get_or-run_stat_collector r src (register_access x stats)
      ∙ (unfold register_access get_or in
          ground (arith, lookup-put r x (get_or x stats 0 + 1) stats, e.equal_iff x r))

  has-accessed_references :
      (r : T) (refs : List T) (accessed : GoMap T ℕ)
      → has r (accessed_references refs accessed) ≡ (contains r refs || has r accessed)
  unfolding accessed_references
  has-accessed_references r [] accessed = refl
  has-accessed_references r (x ∷ refs) accessed =
      has-accessed_references r refs (put x 0 accessed) ∙ rw (has-put r x 0 accessed) (ground arith)

  accessed_references-Distinct :
      (refs : List T) (accessed : GoMap T ℕ)
      → Distinct accessed
      → Distinct (accessed_references refs accessed)
  unfolding accessed_references
  accessed_references-Distinct [] accessed d = d
  accessed_references-Distinct (x ∷ refs) accessed d =
      accessed_references-Distinct refs (put x 0 accessed) (put-Distinct x 0 accessed d)

  count-report_keys :
      (r : T) (m : GoMap T ℕ) → Distinct m → count r (report_keys m) ≡ (if has r m then 1 else 0)
  unfolding report_keys has lookup
  count-report_keys r [] d = refl
  count-report_keys r ((x, n) ∷ m) d =
      ground (arith, count-report_keys r m d.1, e.equal_iff x r, d.0)

  -- A transaction reports each reference that it accesses exactly once, however often the
  -- extractor finds it, and no other.
  pub count-collect_stats :
      (r : T) (extracted : List T)
      → count r (collect_stats extracted) ≡ (if contains r extracted then 1 else 0)
  unfolding collect_stats
  count-collect_stats r extracted =
      count-report_keys r (accessed_references extracted [])
        (accessed_references-Distinct extracted [] tt)
      ∙ rw (has-accessed_references r extracted []) (unfold has lookup in ground arith)

  -- The number of transactions that access a reference, given what is extracted from each.
  abbrev pub accessing : T → List (List T) → ℕ
  accessing r [] = 0
  accessing r (tx ∷ txs) = (if contains r tx then 1 else 0) + accessing r txs

  -- All that the transactions send, one after the other.
  abbrev pub all_sent : List (List T) → List T
  all_sent [] = []
  all_sent (tx ∷ txs) = collect_stats tx ++ all_sent txs

  count-append : (r : T) (xs ys : List T) → count r (xs ++ ys) ≡ count r xs + count r ys
  count-append r [] ys = omega arith
  count-append r (x ∷ xs) ys = omega (arith, count-append r xs ys)

  pub count-all_sent : (r : T) (txs : List (List T)) → count r (all_sent txs) ≡ accessing r txs
  count-all_sent r [] = refl
  count-all_sent r (tx ∷ txs) = omega (
    arith,
    count-append r (collect_stats tx) (all_sent txs),
    count-collect_stats r tx,
    count-all_sent r txs,
  )

  -- Let the collector receive the references in any order, each as often as the transactions send
  -- it. Then the statistic has for each reference the number of transactions that access it.
  pub run_stat_collector-accessing :
      (txs : List (List T)) (received : List T) (r : T)
      → count r received ≡ count r (all_sent txs)
      → get_or r (run_stat_collector received []) 0 ≡ accessing r txs
  run_stat_collector-accessing txs received r h =
      get_or-run_stat_collector r received []
      ∙ (unfold get_or lookup in omega (arith, h, count-all_sent r txs))
