-- ===== src/Replay/Fork/Collected.antt =====
-- The statistics that the collector of replay-fork keeps.
use Prim.Native.String.{String}
use substate_cli.Prelude.{ℕ, ◌+◌, ◌≡◌, ◌∙◌, List, [], ◌∷◌, arith, ◌==◌, if◌then◌else◌}
use substate_cli.GoMap.{get_or}
use substate_cli.GoMap.Laws.{lookup-put}
use substate_cli.Replay.Fork.{
  ReplayForkStat, string_eq, ReplayForkStatMap, record_stat, collect_fork_stats,
}

-- The sum of the counts that are sent with a text.
abbrev pub sent : String → List ReplayForkStat → ℕ
sent text [] = 0
sent text (s ∷ stats) = (if s.err_str == text then s.count else 0) + sent text stats

-- After the collector has received any statistics, its count for each text is the one that it had
-- before, or 0, and the sum of the counts received with the text.
pub get_or-collect_fork_stats :
    (text : String) (received : List ReplayForkStat) (stats : ReplayForkStatMap)
    → get_or text (collect_fork_stats received stats) 0 ≡ get_or text stats 0 + sent text received
unfolding collect_fork_stats
get_or-collect_fork_stats text [] stats = omega arith
get_or-collect_fork_stats text (s ∷ received) stats =
    get_or-collect_fork_stats text received (record_stat s stats)
    ∙ (unfold record_stat get_or in
        ground (
          arith,
          lookup-put text s.err_str (get_or s.err_str stats 0 + s.count) stats,
          string_eq.equal_iff s.err_str text,
        ))
