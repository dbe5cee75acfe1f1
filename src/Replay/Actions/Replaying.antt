-- ===== src/Replay/Actions/Replaying.antt =====
-- replay.go: the action of the replay command, as what it does in order, its deferred calls included.
-- The file for the CPU profile and the task pool are parameters; profiling is go-ethereum's.
pub mod Held
pub mod Released
use Prim.Native.String.{String}
use substate_cli.Prelude.{
  ℕ, Bool, true, false, ◌||◌, not, Option, none, some, List, [], ◌∷◌, ◌++◌, map, if◌then◌else◌,
}
use substate_cli.Types.{Code}
use substate_cli.Replay.Fork.{bytes_equal}
use substate_cli.Replay.Actions.{
  ActionError, wrong_arguments, pool_error, Arguments, refused, range, read_arguments,
}

-- A text is the list of its bytes.
pub record ReplayConfig : Type 0 where
  pub vm_impl : List ℕ
  pub only_successful : Bool
  pub use_in_memory_db : Bool

-- The values of the flags that the action reads.
pub record ReplayFlags : Type 0 where
  pub profile_evm_call : Bool
  pub micro_profiling : Bool
  pub basic_block_profiling : Bool
  pub database_name : List ℕ
  pub channel_buffer_size : ℕ
  pub cpu_profiling : List ℕ
  pub config : ReplayConfig

pub data Profile : Type 0 where
  micro basic_block : Profile

-- What has to be given back: the collectors of the two profiles, which run in the background, the
-- substate database and the CPU profile.
pub data Resource : Type 0 where
  collector : Profile → ℕ → Resource
  substate_db cpu_profile : Resource

pub data Event : Type 0 where
  acquire release : Resource → Event
  -- `<-(dcc[i].ch)`, `stats.Merge(dcc[i].stats)` and `stats.Dump`
  finished merged : Profile → ℕ → Event
  dumped : Profile → Event
  set_profile_call reset_duration print_duration print_instructions : Event
  set_profiling : Profile → (buffer_size : ℕ) (database_name : List ℕ) → Event
  execute : ReplayConfig → (first last : ℕ) → Event

pub data ReplayError : Type 0 where
  action_error : ActionError → ReplayError
  create_error : String → ReplayError

-- `for i := 0; i < 5; i++`
abbrev pub rounds : List ℕ
rounds = 0 ∷ 1 ∷ 2 ∷ 3 ∷ 4 ∷ []

abbrev pub cancels : Profile → List ℕ → List Event
cancels p [] = []
cancels p (i ∷ is) = release (collector p i) ∷ finished p i ∷ cancels p is

abbrev pub starts : Profile → List ℕ → List Event
starts p [] = []
starts p (i ∷ is) = acquire (collector p i) ∷ starts p is

abbrev pub merges : Profile → List ℕ → List Event
merges p [] = []
merges p (i ∷ is) = merged p i ∷ merges p is

-- The collectors that a profile starts, and the deferred function that ends them.
unfoldable pub start_collectors : Bool → Profile → List Event
start_collectors wanted p = if wanted then starts p rounds else []

unfoldable pub stop_collectors : Bool → Profile → List Event
stop_collectors wanted p =
    if wanted then cancels p rounds ++ (merges p rounds ++ dumped p ∷ []) else []

-- `strings.HasSuffix(s, suffix)`
unfoldable pub has_suffix : List ℕ → List ℕ → Bool
unfolding bytes_equal
has_suffix [] suffix = bytes_equal [] suffix
has_suffix (c ∷ s) suffix = bytes_equal (c ∷ s) suffix || has_suffix s suffix

-- "-stats"
abbrev pub stats_suffix : List ℕ
stats_suffix = b'-' ∷ b's' ∷ b't' ∷ b'a' ∷ b't' ∷ b's' ∷ []

abbrev pub pool_result : Option String → Option ReplayError
pool_result none = none
pool_result (some e) = some (action_error (pool_error e))

abbrev pub is_empty : List ℕ → Bool
is_empty [] = true
is_empty (c ∷ s) = false

module _ (create : List ℕ → Option String) (execute_pool : ReplayConfig → ℕ → ℕ → Option String)
    (flags : ReplayFlags) where
  -- From `resetVmDuration` on.
  unfoldable pub replay_range : ℕ → ℕ → List Event × Option ReplayError
  unfolding has_suffix
  replay_range first last = (
    reset_duration
        ∷ execute flags.config first last
        ∷ print_duration
        ∷ (if has_suffix flags.config.vm_impl stats_suffix then print_instructions ∷ [] else []),
    pool_result (execute_pool flags.config first last),
  )

  -- From the CPU profile on.
  unfoldable pub replay_profiled : ℕ → ℕ → List Event × Option ReplayError
  unfolding replay_range
  replay_profiled first last =
      if is_empty flags.cpu_profiling
      then replay_range first last
      else elim (create flags.cpu_profiling) [
        | some err ↦ ([], some (create_error err))
        | none ↦
            let (ran, err) = replay_range first last in
            (acquire cpu_profile ∷ (ran ++ release cpu_profile ∷ []), err)
      ]

  abbrev pub settings : List Event
  settings =
      (if flags.profile_evm_call then set_profile_call ∷ [] else [])
      ++ ((if flags.micro_profiling
            then set_profiling micro flags.channel_buffer_size flags.database_name ∷ []
            else [])
          ++ (if flags.basic_block_profiling
              then set_profiling basic_block flags.channel_buffer_size flags.database_name ∷ []
              else []))

  -- From `SetBlockRange` on.
  unfoldable pub replay_arguments : Arguments → List Event × Option ReplayError
  unfolding replay_profiled
  replay_arguments (refused e) = ([], some (action_error e))
  replay_arguments (range first last) =
      let (ran, err) = replay_profiled first last in
      (settings ++ (acquire substate_db ∷ (ran ++ release substate_db ∷ [])), err)

  -- `replayAction`. The deferred calls run at its end, the last first.
  unfoldable pub replay_action : List (List ℕ) → List Event × Option ReplayError
  unfolding replay_arguments start_collectors stop_collectors read_arguments
  replay_action (first_arg ∷ last_arg ∷ []) =
      let (ran, err) = replay_arguments (read_arguments (first_arg ∷ last_arg ∷ [])) in
      (
        start_collectors flags.micro_profiling micro
            ++ (start_collectors flags.basic_block_profiling basic_block
                ++ (ran
                    ++ (stop_collectors flags.basic_block_profiling basic_block
                        ++ stop_collectors flags.micro_profiling micro))),
        err,
      )
  replay_action _ = ([], some (action_error wrong_arguments))
