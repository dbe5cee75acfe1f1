-- ===== src/Tests/Actions.antt =====
-- The replay action with all its profiles, on the blocks 5 and 6.
use Prim.Native.String.{String}
use substate_cli.Prelude.{ℕ, ◌≡◌, refl, true, false, Option, none, some, List, [], ◌∷◌}
use substate_cli.Replay.Config.{set_block_range, parse_uint}
use substate_cli.Replay.Actions.{read_arguments}
use substate_cli.Replay.Actions.Replaying.{ReplayConfig, ReplayFlags, Resource, replay_action}
use substate_cli.Replay.Actions.Replaying.Held.{held, executions}
use substate_cli.Replay.Actions.Replaying.Released.{runs_of, replay_action-releases}

abbrev all_profiles : ReplayFlags
all_profiles = record {
  profile_evm_call = true;
  micro_profiling = true;
  basic_block_profiling = true;
  database_name = b'd' ∷ [];
  channel_buffer_size = 100;
  cpu_profiling = b'c' ∷ [];
  config = record {
    vm_impl = b'l' ∷ b'-' ∷ b's' ∷ b't' ∷ b'a' ∷ b't' ∷ b's' ∷ [];
    only_successful = true;
    use_in_memory_db = false;
  };
}

abbrev writable : List ℕ → Option String
writable name = none

abbrev stopping : ReplayConfig → ℕ → ℕ → Option String
stopping config first last = some "stopped"

abbrev arguments : List (List ℕ)
arguments = (b'5' ∷ []) ∷ (b'6' ∷ []) ∷ []

-- The pool is run on this range.
runs_once :
    runs_of writable stopping all_profiles (read_arguments arguments)
    ≡ (all_profiles.config, 5, 6) ∷ []
unfolding read_arguments set_block_range parse_uint
runs_once = refl

replay_action-releases_example :
    ((r : Resource)
      → held r (replay_action writable stopping all_profiles arguments).0 (some false) ≡ some false)
    × (executions (replay_action writable stopping all_profiles arguments).0
        ≡ runs_of writable stopping all_profiles (read_arguments arguments))
replay_action-releases_example = replay_action-releases writable stopping all_profiles arguments
