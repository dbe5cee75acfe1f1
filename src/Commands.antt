-- ===== src/Commands.antt =====
-- cmd/substate-cli/main.go, and the declarations of the commands and of their flags, which stand at
-- the top of the files of the commands and in config.go. The texts for the user are left out, and
-- the flags of the substate package are known by their variables only.
use Prim.Native.String.{String}
use substate_cli.Prelude.{ℕ, Bool, true, Option, none, some, List, [], ◌∷◌}
use substate_cli.Replay.Fork.HardFork.{hard_fork_name, hard_fork_flag_default}

-- `cli.BoolFlag`, `cli.IntFlag`, `cli.Int64Flag` and `cli.StringFlag`: a flag, with its `Value` where it
-- has one.
pub data Flag : Type 0 where
  bool_flag : (name : String) → Flag
  int_flag int64_flag : (name : String) (value : ℕ) → Flag
  string_flag : (name value : String) → Flag

abbrev pub chain_id_flag : Flag
chain_id_flag = Flag.int_flag "chainid" 250

abbrev pub profile_evm_call_flag : Flag
profile_evm_call_flag = Flag.bool_flag "profiling-call"

abbrev pub micro_profiling_flag : Flag
micro_profiling_flag = Flag.bool_flag "micro-profiling"

abbrev pub basic_block_profiling_flag : Flag
basic_block_profiling_flag = Flag.bool_flag "basic-block-profiling"

abbrev pub only_successful_flag : Flag
only_successful_flag = Flag.bool_flag "only-successful"

abbrev pub interpreter_impl_flag : Flag
interpreter_impl_flag = Flag.string_flag "interpreter" ""

abbrev pub cpu_profiling_flag : Flag
cpu_profiling_flag = Flag.string_flag "cpuprofile" ""

abbrev pub use_in_memory_state_db_flag : Flag
use_in_memory_state_db_flag = Flag.bool_flag "faststatedb"

abbrev pub database_name_flag : Flag
database_name_flag = Flag.string_flag "db" "./profiling.db"

abbrev pub channel_buffer_size_flag : Flag
channel_buffer_size_flag = Flag.int_flag "buffer-size" 100000

abbrev pub contract_db_flag : Flag
contract_db_flag = Flag.string_flag "contractdb" "./contracts.db"

-- Its default panics on a table without a block above 0.
abbrev pub hard_fork_flag : Flag
hard_fork_flag =
    Flag.int64_flag "hard-fork"
      (elim (hard_fork_flag_default hard_fork_name) [ none ↦ 0 | some v ↦ v ])

-- The flags of the substate package that the commands list.
pub data SubstateFlag : Type 0 where
  workers skip_transfer_txs skip_call_txs skip_create_txs substate_dir : SubstateFlag

pub data Listed : Type 0 where
  own : Flag → Listed
  substate : SubstateFlag → Listed

-- The actions of the commands.
pub data Action : Type 0 where
  replay storage_size code code_size dump address_stats key_stats location_stats replay_fork :
      Action
  clone compact : Action

pub record Command : Type 0 where
  pub action : Action
  pub name : String
  pub args_usage : List String
  pub flags : List Listed

abbrev block_range : List String
block_range = "blockNumFirst" ∷ "blockNumLast" ∷ []

-- The flags of the commands that only measure.
abbrev measuring_flags : List Listed
measuring_flags = substate workers ∷ substate substate_dir ∷ own chain_id_flag ∷ []

abbrev pub replay_command : Command
replay_command = record {
  action = replay;
  name = "replay";
  args_usage = block_range;
  flags =
      substate workers
      ∷ substate skip_transfer_txs
      ∷ substate skip_call_txs
      ∷ substate skip_create_txs
      ∷ substate substate_dir
      ∷ own chain_id_flag
      ∷ own profile_evm_call_flag
      ∷ own micro_profiling_flag
      ∷ own basic_block_profiling_flag
      ∷ own database_name_flag
      ∷ own channel_buffer_size_flag
      ∷ own interpreter_impl_flag
      ∷ own only_successful_flag
      ∷ own cpu_profiling_flag
      ∷ own use_in_memory_state_db_flag
      ∷ [];
}

abbrev pub get_storage_update_size_command : Command
get_storage_update_size_command = record {
  action = storage_size;
  name = "storage-size";
  args_usage = block_range;
  flags = measuring_flags;
}

abbrev pub get_code_command : Command
get_code_command = record {
  action = code;
  name = "code";
  args_usage = block_range;
  flags = substate workers ∷ substate substate_dir ∷ own contract_db_flag ∷ own chain_id_flag ∷ [];
}

abbrev pub get_code_size_command : Command
get_code_size_command = record {
  action = code_size;
  name = "code-size";
  args_usage = block_range;
  flags = measuring_flags;
}

abbrev pub substate_dump_command : Command
substate_dump_command = record {
  action = dump;
  name = "dump";
  args_usage = block_range;
  flags = substate workers ∷ substate substate_dir ∷ [];
}

abbrev pub get_address_stats_command : Command
get_address_stats_command = record {
  action = address_stats;
  name = "address-stats";
  args_usage = block_range;
  flags = measuring_flags;
}

abbrev pub get_key_stats_command : Command
get_key_stats_command = record {
  action = key_stats;
  name = "key-stats";
  args_usage = block_range;
  flags = measuring_flags;
}

abbrev pub get_location_stats_command : Command
get_location_stats_command = record {
  action = location_stats;
  name = "location-stats";
  args_usage = block_range;
  flags = measuring_flags;
}

abbrev pub replay_fork_command : Command
replay_fork_command = record {
  action = replay_fork;
  name = "replay-fork";
  args_usage = block_range;
  flags =
      substate workers
      ∷ substate skip_transfer_txs
      ∷ substate skip_call_txs
      ∷ substate skip_create_txs
      ∷ own hard_fork_flag
      ∷ substate substate_dir
      ∷ [];
}

abbrev pub clone_command : Command
clone_command = record {
  action = clone;
  name = "clone";
  args_usage = "srcPath" ∷ "dstPath" ∷ block_range;
  flags = substate workers ∷ [];
}

abbrev pub compact_command : Command
compact_command = record {
  action = compact;
  name = "compact";
  args_usage = "dbPath" ∷ [];
  flags = [];
}

-- `dbCommand`, by its subcommands.
abbrev pub db_command : List Command
db_command = clone_command ∷ compact_command ∷ []

-- The commands that `main` gives to the application, but for `dbCommand`.
abbrev pub commands : List Command
commands =
    replay_command ∷ get_storage_update_size_command ∷ get_code_command ∷ get_code_size_command
    ∷ substate_dump_command ∷ get_address_stats_command ∷ get_key_stats_command
    ∷ get_location_stats_command ∷ []

-- `main`, given what `app.Run` returns on `substate.RecordReplay`, commands and arguments: the text
-- on the standard error, and the exit code.
unfoldable pub main :
    (Bool → List Command → List Command → List String → Option String)
    → List String
    → Option String × ℕ
main run args = elim (run true commands db_command args) [
  | none ↦ (none, 0)
  | some err ↦ (some err, 1)
]
