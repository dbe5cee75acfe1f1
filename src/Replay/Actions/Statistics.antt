-- ===== src/Replay/Actions/Statistics.antt =====
-- statistic.go: the action behind address-stats, key-stats and location-stats.
use substate_cli.Prelude.{
  ◌↔◌, ◌≢◌, inl, Option-cases, ℕ, ◌≡◌, ◌<◌, subst, length, refl, sym, ◌∙◌, ap, inr, Bool, false,
  Option, none, some, List, [], ◌∷◌, arith, Eq,
}
use substate_cli.GoMap.{get_or}
use substate_cli.Substate.{Substate}
use substate_cli.Replay.Statistic.{
  AccessStatistics, register_access, run_stat_collector, Summary, print_summary,
}
use substate_cli.Replay.Statistic.Printed.{print_summary-Describes, print_summary-none_iff}
use substate_cli.Replay.Statistic.Counts.{count, accessing, all_sent, run_stat_collector-accessing}
use substate_cli.Replay.Statistic.Order.{
  Tally-nil_iff, print_summary-received, Tally, run_stat_collector-Tally,
}
use substate_cli.Replay.Pipeline.{collected, return_error, Pipe, receive_all, Reach, initial}
use substate_cli.Replay.Pipeline.Ends.{pipeline-ends}
use substate_cli.Replay.Pipeline.Runs.{collected-receive_all, HasEnded}
use substate_cli.Replay.Actions.{
  Transaction, TaskPool, ActionError, pool_error, refused, range, read_arguments,
}

-- `refs := make(chan T, 100)`
abbrev pub refs_capacity : ℕ
refs_capacity = 100

module _ {T : Type 0} ⦃e : Eq T⦄ where
  -- What the extractor finds in each transaction.
  abbrev pub extracted : (Substate → List T) → List Transaction → List (List T)
  extracted extract [] = []
  extracted extract (t ∷ ts) = extract t.substate ∷ extracted extract ts

  -- The collector in the background, while the pool runs the tasks and after that.
  abbrev pub StatsReach : Bool → List T → Pipe T (AccessStatistics T) → Type 0
  StatsReach fails items =
      Reach register_access refs_capacity fails return_error
        (initial register_access refs_capacity fails return_error items [])

  -- `getReferenceStatsActionWithConsumer`, given what the collector has at the end: the summary and
  -- what the consumer prints, if it comes to that, and the error; `none` is a panic.
  unfoldable pub get_reference_stats_action_with_consumer :
      {C : Type 0}
      → (AccessStatistics T → Option C)
      → TaskPool
      → List (List ℕ)
      → AccessStatistics T
      → Option (Option (Summary × C) × Option ActionError)
  unfolding read_arguments
  get_reference_stats_action_with_consumer consume pool args stats = elim (read_arguments args) [
    | refused e ↦ some (none, some e)
    | range first last ↦ elim (pool.error first last) [
      | some e ↦ some (none, some (pool_error e))
      | none ↦ elim (print_summary stats) [
        | none ↦ none
        | some summary ↦ elim (consume stats) [
          | none ↦ none
          | some consumed ↦ some (some (summary, consumed), none)
        ]
      ]
    ]
  ]

  -- `getReferenceStatsAction`, whose consumer does nothing.
  unfoldable pub get_reference_stats_action :
      TaskPool
      → List (List ℕ)
      → AccessStatistics T
      → Option (Option (Summary × Unit {0}) × Option ActionError)
  unfolding get_reference_stats_action_with_consumer
  get_reference_stats_action = get_reference_stats_action_with_consumer (λ stats. some tt)

  -- Past the wait of an action whose pool returns no error, on a statistic that has a target.
  pub get_reference_stats_action_with_consumer-some :
      {C : Type 0} (consume : AccessStatistics T → Option C) (consumed : C) (pool : TaskPool)
      (args : List (List ℕ)) (first last : ℕ) (stats : AccessStatistics T)
      → read_arguments args ≡ range first last
      → pool.error first last ≡ none
      → 0 < length stats
      → consume stats ≡ some consumed
      → (summary : Summary) × (print_summary stats ≡ some summary)
        × (get_reference_stats_action_with_consumer consume pool args stats
            ≡ some (some (summary, consumed), none))
  unfolding get_reference_stats_action_with_consumer
  get_reference_stats_action_with_consumer-some consume consumed pool args first last stats r p n
        c =
      let (summary, printed, _) = print_summary-Describes stats n in
      (summary, printed, rw (get_reference_stats_action_with_consumer, r, p, printed, c) refl)

  receive_all-run_stat_collector :
      (items : List T) (stats : AccessStatistics T)
      → receive_all register_access items stats ≡ run_stat_collector items stats
  unfolding receive_all run_stat_collector
  receive_all-run_stat_collector [] stats = refl
  receive_all-run_stat_collector (x ∷ items) stats =
      receive_all-run_stat_collector items (register_access x stats)

  -- Let the pool return no error and its tasks send, in any order, each reference as often as the
  -- transactions send it. Whatever the schedule of tasks and collector, once the action is past its
  -- wait the statistic that it prints has for each reference the number of the transactions in
  -- which the extractor finds it.
  pub collected-accessing :
      (extract : Substate → List T) (txs : List Transaction) (items : List T)
      (s : Pipe T (AccessStatistics T)) (r : T)
      → count r items ≡ count r (all_sent (extracted extract txs))
      → StatsReach false items s
      → s.stage ≡ collected
      → get_or r s.state 0 ≡ accessing r (extracted extract txs)
  collected-accessing extract txs items s r h reached e =
      ap (λ (m : AccessStatistics T). get_or r m 0)
        (collected-receive_all register_access refs_capacity false return_error items [] s refl
            reached e
          ∙ receive_all-run_stat_collector items [])
      ∙ run_stat_collector-accessing (extracted extract txs) items r h

  -- Past its wait, the action has each reference that the transactions access once.
  pub collected-Tally :
      (found : List (List T)) (items : List T) (s : Pipe T (AccessStatistics T))
      → ((r : T) → count r items ≡ count r (all_sent found))
      → StatsReach false items s
      → s.stage ≡ collected
      → Tally found s.state
  collected-Tally found items s h reached e =
      subst (Tally found)
        (sym (
          collected-receive_all register_access refs_capacity false return_error items [] s refl
            reached e
          ∙ receive_all-run_stat_collector items []))
        (run_stat_collector-Tally found items h)

  -- Let the arguments be a range on which the pool returns no error. Its tasks find some references
  -- in each transaction, and send in any order each as often as the transactions send it. Whatever
  -- the schedule, the action of the statistics without a consumer panics past its wait exactly if
  -- nothing is found in any transaction, and otherwise prints a summary and returns no error.
  pub get_reference_stats_action-none_iff :
      (pool : TaskPool) (args : List (List ℕ)) (first last : ℕ) (found : List (List T))
      (items : List T) (s : Pipe T (AccessStatistics T))
      → read_arguments args ≡ range first last
      → pool.error first last ≡ none
      → ((r : T) → count r items ≡ count r (all_sent found))
      → StatsReach false items s
      → s.stage ≡ collected
      → ((get_reference_stats_action pool args s.state ≡ none) ↔ ((r : T) → accessing r found ≡ 0))
        × ((get_reference_stats_action pool args s.state ≢ none)
            → (summary : Summary) × (get_reference_stats_action pool args s.state
                ≡ some (some (summary, tt), none)))
  unfolding get_reference_stats_action get_reference_stats_action_with_consumer
  get_reference_stats_action-none_iff pool args first last found items s r p h reached e =
      let nil = Tally-nil_iff found s.state (collected-Tally found items s h reached e) in
      elim (Option-cases (print_summary s.state)) [
        | inl panics ↦
            let stuck : get_reference_stats_action pool args s.state ≡ none =
              rw (get_reference_stats_action_with_consumer, r, p, panics) refl in
            (
              (λ _. nil.0 ((print_summary-none_iff s.state).0 panics), λ _. stuck),
              λ n. absurd (n stuck),
            )
        | inr (summary, printed) ↦
            let shown : get_reference_stats_action pool args s.state
                ≡ some (some (summary, tt), none) =
              rw (get_reference_stats_action_with_consumer, r, p, printed) refl in
            (
              (
                λ n. absurd (cc (n, shown)),
                λ z. absurd (cc (printed, (print_summary-none_iff s.state).1 (nil.1 z))),
              ),
              λ _. (summary, shown),
            )
      ]

  -- Whether the pool fails or not, the action does not block: from every state that it reaches, in
  -- whatever order, it can reach one where it has received everything or returned the error.
  pub statistics-ends :
      (fails : Bool) (items : List T) (s : Pipe T (AccessStatistics T))
      → StatsReach fails items s
      → (t : Pipe T (AccessStatistics T)) × Reach register_access refs_capacity fails return_error s
          t
        × HasEnded t.stage
  statistics-ends fails items s reached =
      pipeline-ends register_access refs_capacity fails return_error (omega arith) (inr refl) items
        [] s reached

  -- Let the pool return no error in two runs of the action, whose tasks send each reference equally
  -- often, in any order. Whatever the two schedules, the runs print the same summary.
  pub collected-print_summary :
      (xs ys : List T) (s t : Pipe T (AccessStatistics T))
      → ((r : T) → count r xs ≡ count r ys)
      → StatsReach false xs s
      → StatsReach false ys t
      → s.stage ≡ collected
      → t.stage ≡ collected
      → print_summary s.state ≡ print_summary t.state
  collected-print_summary xs ys s t h reached reached' c c' =
      let received : (zs : List T) (u : Pipe T (AccessStatistics T))
          → StatsReach false zs u
          → u.stage ≡ collected
          → u.state ≡ run_stat_collector zs [] =
        λ zs u r e.
          collected-receive_all register_access refs_capacity false return_error zs [] u refl r e
          ∙ receive_all-run_stat_collector zs [] in
      ap print_summary (received xs s reached c)
      ∙ print_summary-received xs ys h
      ∙ sym (ap print_summary (received ys t reached' c'))
