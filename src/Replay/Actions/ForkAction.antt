-- ===== src/Replay/Actions/ForkAction.antt =====
-- replay_fork.go: the action, from its arguments to the printed statistics.
pub mod Printed
use Prim.Native.String.{String}
use substate_cli.Prelude.{
  ℕ, nat_eq, ◌≡◌, ◌↔◌, refl, sym, ◌∙◌, ap, inl, Bool, true, false, Option, List, [], ◌∷◌, arith,
  if◌then◌else◌, is_some,
}
use substate_cli.GoMap.{has, get_or, lookup}
use substate_cli.Replay.Fork.{
  ReplayForkStat, ReplayForkStatMap, string_eq, record_stat, collect_fork_stats,
}
use substate_cli.Replay.Fork.Collected.{sent, get_or-collect_fork_stats}
use substate_cli.Replay.Fork.HardFork.{hard_fork_name, fork_rules, fork_rules_iff}
use substate_cli.Replay.Pipeline.{collected, wait_open, Pipe, receive_all, Reach, initial}
use substate_cli.Replay.Pipeline.Ends.{pipeline-ends}
use substate_cli.Replay.Pipeline.Runs.{HasEnded, collected-receive_all, waits_for_ever}
use substate_cli.Replay.Actions.{
  ActionError, returned, invalid_hard_fork, Arguments, refused, range, read_arguments,
}

-- The range with the name of the rules that are set, or the error.
pub data ForkStart : Type 0 where
  stops : ActionError → ForkStart
  starts : ℕ → ℕ → Option String → ForkStart

-- `replayForkAction` up to the pool. The number of the flag is not negative.
unfoldable pub start_replay_fork : List (List ℕ) → ℕ → ForkStart
unfolding read_arguments fork_rules
start_replay_fork args hard_fork = elim (read_arguments args) [
  | refused e ↦ stops e
  | range first last ↦
      if has hard_fork hard_fork_name
      then starts first last (fork_rules hard_fork)
      else stops invalid_hard_fork
]

-- `make(chan *ReplayForkStat, 1_000_000)`
abbrev pub fork_capacity : ℕ
fork_capacity = 1000000

-- The collector, while the pool runs the tasks and after that.
abbrev pub ForkReach : Bool → List ReplayForkStat → Pipe ReplayForkStat ReplayForkStatMap → Type 0
ForkReach fails items =
    Reach record_stat fork_capacity fails wait_open
      (initial record_stat fork_capacity fails wait_open items [])

-- The loop that prints a line for each text of the statistic.
unfoldable pub print_stats : ReplayForkStatMap → List (ℕ × String)
print_stats [] = []
print_stats ((err_str, count) ∷ stats) = (count, err_str) ∷ print_stats stats

-- `replayForkAction` past its wait: the lines, and the error of the pool.
unfoldable pub finish_replay_fork :
    ReplayForkStatMap → Option String → List (ℕ × String) × Option ActionError
unfolding print_stats
finish_replay_fork stats err = (print_stats stats, returned err)

pub receive_all-collect_fork_stats :
    (items : List ReplayForkStat) (stats : ReplayForkStatMap)
    → receive_all record_stat items stats ≡ collect_fork_stats items stats
unfolding receive_all collect_fork_stats
receive_all-collect_fork_stats [] stats = refl
receive_all-collect_fork_stats (x ∷ items) stats =
    receive_all-collect_fork_stats items (record_stat x stats)

-- If the pool returns no error then, whatever the schedule of tasks and collector, once the action
-- is past its wait the count that it prints for a text is the sum of the counts sent with it.
pub collected-sent :
    (items : List ReplayForkStat) (s : Pipe ReplayForkStat ReplayForkStatMap) (text : String)
    → ForkReach false items s
    → s.stage ≡ collected
    → get_or text s.state 0 ≡ sent text items
unfolding get_or lookup
collected-sent items s text reached e =
    ap (λ (m : ReplayForkStatMap). get_or text m 0)
      (collected-receive_all record_stat fork_capacity false wait_open items [] s refl reached e
        ∙ receive_all-collect_fork_stats items [])
    ∙ get_or-collect_fork_stats text items []
    ∙ omega arith

-- If the pool returns an error, the action never gets past its wait and does not return, whatever
-- the schedule: the channel stays open.
pub replay_fork-waits :
    (items : List ReplayForkStat) (s : Pipe ReplayForkStat ReplayForkStatMap)
    → ForkReach true items s
    → ¬ HasEnded s.stage
replay_fork-waits items s reached =
    waits_for_ever record_stat fork_capacity true wait_open items [] s refl refl reached

-- If the pool returns no error, then from every state that the pipeline reaches, in whatever order,
-- the action can get past its wait.
pub replay_fork-ends :
    (items : List ReplayForkStat) (s : Pipe ReplayForkStat ReplayForkStatMap)
    → ForkReach false items s
    → (t : Pipe ReplayForkStat ReplayForkStatMap) × Reach record_stat fork_capacity false wait_open
        s t
      × HasEnded t.stage
replay_fork-ends items s reached =
    pipeline-ends record_stat fork_capacity false wait_open (omega arith) (inl refl) items [] s
      reached

-- The action starts exactly if its two arguments are a range and the number of the hard fork is in
-- the table, and it then always has set rules.
pub start_replay_fork_iff :
    (args : List (List ℕ)) (hard_fork first last : ℕ) (rules : Option String)
    → (start_replay_fork args hard_fork ≡ starts first last rules) ↔ (
        (read_arguments args ≡ range first last)
        × (rules ≡ fork_rules hard_fork)
        × (is_some rules ≡ true))
unfolding start_replay_fork
start_replay_fork_iff args hard_fork first last rules = (
  accepted (read_arguments args) refl,
  λ h.
      rw (h.0, (fork_rules_iff hard_fork).1 (ap is_some (sym h.1) ∙ h.2), h.1, start_replay_fork)
        refl,
)
  where
    accepted :
        (a : Arguments)
        → read_arguments args ≡ a
        → start_replay_fork args hard_fork ≡ starts first last rules
        → (read_arguments args ≡ range first last)
          × (rules ≡ fork_rules hard_fork)
          × (is_some rules ≡ true)
    accepted (refused e) r h = absurd (cc (rw (r, start_replay_fork) at h))
    accepted (range f l) r h =
        ground (arith, r, rw (r, start_replay_fork) at h, fork_rules_iff hard_fork)
