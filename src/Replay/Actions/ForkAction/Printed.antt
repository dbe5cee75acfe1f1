-- ===== src/Replay/Actions/ForkAction/Printed.antt =====
-- The lines that replay-fork prints at its end.
use Prim.Native.String.{String}
use substate_cli.Prelude.{
  ℕ, ◌+◌, ◌≡◌, refl, sym, ◌∙◌, ap, inl, inr, Bool, false, ◌||◌, Option, none, some, List, [], ◌∷◌,
  arith, ◌==◌, if◌then◌else◌, Bool-cases,
}
use substate_cli.GoMap.{lookup, get_or, Distinct}
use substate_cli.GoMap.Laws.{lookup-put, put-Distinct}
use substate_cli.Replay.Fork.{
  ReplayForkStat, ReplayForkStatMap, string_eq, record_stat, collect_fork_stats,
}
use substate_cli.Replay.Fork.Collected.{sent}
use substate_cli.Replay.Pipeline.{collected, wait_open, Pipe}
use substate_cli.Replay.Pipeline.Runs.{collected-receive_all}
use substate_cli.Replay.Actions.ForkAction.{
  fork_capacity, ForkReach, print_stats, finish_replay_fork, receive_all-collect_fork_stats,
}

-- The counts of the lines with a text.
abbrev pub counts_of : String → List (ℕ × String) → List ℕ
counts_of text [] = []
counts_of text ((count, err_str) ∷ lines) =
    let rest = counts_of text lines in if err_str == text then count ∷ rest else rest

-- A statistic with the text is among those sent.
abbrev pub is_sent : String → List ReplayForkStat → Bool
is_sent text [] = false
is_sent text (s ∷ stats) = s.err_str == text || is_sent text stats

abbrev as_list : Option ℕ → List ℕ
as_list none = []
as_list (some n) = n ∷ []

counts_of-print_stats :
    (text : String) (stats : ReplayForkStatMap)
    → Distinct stats
    → counts_of text (print_stats stats) ≡ as_list (lookup text stats)
unfolding print_stats lookup
counts_of-print_stats text [] d = refl
counts_of-print_stats text ((err_str, count) ∷ stats) d = elim (Bool-cases (err_str == text)) [
  | inl here ↦
      let absent : lookup text stats ≡ none =
        ap (λ t. lookup t stats) (sym ((string_eq.equal_iff err_str text).0 here)) ∙ d.0 in
      rw here (ap (λ l. count ∷ l) (counts_of-print_stats text stats d.1 ∙ ap as_list absent))
  | inr other ↦ rw other (counts_of-print_stats text stats d.1)
]

collect_fork_stats-Distinct :
    (items : List ReplayForkStat) (stats : ReplayForkStatMap)
    → Distinct stats
    → Distinct (collect_fork_stats items stats)
unfolding collect_fork_stats record_stat
collect_fork_stats-Distinct [] stats d = d
collect_fork_stats-Distinct (s ∷ items) stats d =
    collect_fork_stats-Distinct items (record_stat s stats) (put-Distinct s.err_str _ stats d)

-- The entry of a text after the statistics are received.
abbrev entry_after : String → List ReplayForkStat → Option ℕ → Option ℕ
entry_after text items (some n) = some (n + sent text items)
entry_after text items none = if is_sent text items then some (sent text items) else none

lookup-collect_fork_stats :
    (text : String) (items : List ReplayForkStat) (stats : ReplayForkStatMap)
    → lookup text (collect_fork_stats items stats) ≡ entry_after text items (lookup text stats)
unfolding collect_fork_stats record_stat get_or
lookup-collect_fork_stats text [] stats = ground arith
lookup-collect_fork_stats text (s ∷ items) stats =
    lookup-collect_fork_stats text items (record_stat s stats)
    ∙ rw (lookup-put text s.err_str (get_or s.err_str stats 0 + s.count) stats)
        (ground (arith, string_eq.equal_iff s.err_str text))

-- If the pool returns no error then, whatever the schedule of tasks and collector, the action past
-- its wait prints for each text that is sent exactly one line, with the sum of the counts sent with
-- it, and none for any other text, and returns no error.
pub finish_replay_fork-sent :
    (items : List ReplayForkStat) (s : Pipe ReplayForkStat ReplayForkStatMap) (text : String)
    → ForkReach false items s
    → s.stage ≡ collected
    → (counts_of text (finish_replay_fork s.state none).0
        ≡ (if is_sent text items then sent text items ∷ [] else []))
      × ((finish_replay_fork s.state none).1 ≡ none)
unfolding finish_replay_fork lookup
finish_replay_fork-sent items s text reached e =
    let state : s.state ≡ collect_fork_stats items [] =
      collected-receive_all record_stat fork_capacity false wait_open items [] s refl reached e
      ∙ receive_all-collect_fork_stats items [] in
    (
      ap (λ m. counts_of text (print_stats m)) state
          ∙ counts_of-print_stats text (collect_fork_stats items [])
              (collect_fork_stats-Distinct items [] tt)
          ∙ ap as_list (lookup-collect_fork_stats text items [])
          ∙ ground arith,
      refl,
    )
