-- ===== src/Replay/Actions/Replaying/Released.antt =====
-- The replay action gives back what it takes, and runs the pool once.
use mathlib.Core.List.{append-nil}
use Prim.Native.String.{String}
use substate_cli.Prelude.{
  ℕ, ◌≡◌, refl, Bool, true, false, Option, none, some, List, [], ◌∷◌, ◌++◌, arith, nat_eq,
  if◌then◌else◌,
}
use substate_cli.Replay.Actions.{Arguments, refused, range, read_arguments}
use substate_cli.Replay.Actions.Replaying.{
  ReplayConfig, ReplayFlags, Profile, micro, basic_block, Resource, collector, substate_db,
  cpu_profile, Event, start_collectors, stop_collectors, is_empty, replay_range, replay_profiled,
  replay_arguments, replay_action,
}
use substate_cli.Replay.Actions.Replaying.Held.{
  held, executions, held-append, executions-append, collectors-cycle, others_kept,
}

module _ (create : List ℕ → Option String) (execute_pool : ReplayConfig → ℕ → ℕ → Option String)
    (flags : ReplayFlags) where
  arguments_kept :
      (a : Arguments) (p : Profile) (i : ℕ) (b : Bool)
      → held (collector p i) (replay_arguments create execute_pool flags a).0 (some b) ≡ some b
  unfolding replay_arguments replay_profiled replay_range
  arguments_kept (refused e) p i b = refl
  arguments_kept (range first last) p i b = ground arith

  arguments-cycle :
      (a : Arguments)
      → (held substate_db (replay_arguments create execute_pool flags a).0 (some false)
          ≡ some false)
        × (held cpu_profile (replay_arguments create execute_pool flags a).0 (some false)
            ≡ some false)
  unfolding replay_arguments replay_profiled replay_range
  arguments-cycle (refused e) = (refl, refl)
  arguments-cycle (range first last) = (ground arith, ground arith)

  -- The runs that an action with these arguments should make.
  abbrev pub runs_of : Arguments → List (ReplayConfig × ℕ × ℕ)
  runs_of (refused e) = []
  runs_of (range first last) =
      if is_empty flags.cpu_profiling
      then (flags.config, first, last) ∷ []
      else elim (create flags.cpu_profiling) [
        | some err ↦ []
        | none ↦ (flags.config, first, last) ∷ []
      ]

  executions-arguments :
      (a : Arguments) → executions (replay_arguments create execute_pool flags a).0 ≡ runs_of a
  unfolding replay_arguments replay_profiled replay_range
  executions-arguments (refused e) = refl
  executions-arguments (range first last) = ground arith

  executions-collectors :
      (wanted : Bool) (p : Profile)
      → (executions (start_collectors wanted p) ≡ []) × (executions (stop_collectors wanted p) ≡ [])
  unfolding start_collectors stop_collectors
  executions-collectors false p = (refl, refl)
  executions-collectors true p = (refl, refl)

  -- The trace of the action, for two arguments.
  abbrev trace : Arguments → List Event
  trace a =
      start_collectors flags.micro_profiling micro
      ++ (start_collectors flags.basic_block_profiling basic_block
          ++ ((replay_arguments create execute_pool flags a).0
              ++ (stop_collectors flags.basic_block_profiling basic_block
                  ++ stop_collectors flags.micro_profiling micro)))

  held-trace :
      (r : Resource) (a : Arguments) (b c : Bool)
      → held r (start_collectors flags.micro_profiling micro) (some false) ≡ some b
      → held r (start_collectors flags.basic_block_profiling basic_block) (some b) ≡ some c
      → held r (replay_arguments create execute_pool flags a).0 (some c) ≡ some c
      → held r (stop_collectors flags.basic_block_profiling basic_block) (some c) ≡ some b
      → held r (stop_collectors flags.micro_profiling micro) (some b) ≡ some false
      → held r (trace a) (some false) ≡ some false
  held-trace r a b c h1 h2 h3 h4 h5 =
      rw
        (
          held-append r (start_collectors flags.micro_profiling micro),
          h1,
          held-append r (start_collectors flags.basic_block_profiling basic_block),
          h2,
          held-append r (replay_arguments create execute_pool flags a).0,
          h3,
          held-append r (stop_collectors flags.basic_block_profiling basic_block),
          h4,
        )
        h5

  trace-cycle : (r : Resource) (a : Arguments) → held r (trace a) (some false) ≡ some false
  trace-cycle (collector micro i) a =
      let (b, begun, ended) = collectors-cycle flags.micro_profiling micro i in
      let (s, t) = others_kept flags.basic_block_profiling basic_block (collector micro i) b refl in
      held-trace (collector micro i) a b b begun s (arguments_kept a micro i b) t ended
  trace-cycle (collector basic_block i) a =
      let (c, begun, ended) = collectors-cycle flags.basic_block_profiling basic_block i in
      let (s, t) = others_kept flags.micro_profiling micro (collector basic_block i) false refl in
      held-trace (collector basic_block i) a false c s begun (arguments_kept a basic_block i c)
        ended t
  trace-cycle substate_db a =
      let (s, t) = others_kept flags.micro_profiling micro substate_db false refl in
      let (u, v) = others_kept flags.basic_block_profiling basic_block substate_db false refl in
      held-trace substate_db a false false s u (arguments-cycle a).0 v t
  trace-cycle cpu_profile a =
      let (s, t) = others_kept flags.micro_profiling micro cpu_profile false refl in
      let (u, v) = others_kept flags.basic_block_profiling basic_block cpu_profile false refl in
      held-trace cpu_profile a false false s u (arguments-cycle a).1 v t

  executions-trace : (a : Arguments) → executions (trace a) ≡ runs_of a
  executions-trace a =
      let (s, t) = executions-collectors flags.micro_profiling micro in
      let (u, v) = executions-collectors flags.basic_block_profiling basic_block in
      rw
        (
          executions-append (start_collectors flags.micro_profiling micro),
          s,
          executions-append (start_collectors flags.basic_block_profiling basic_block),
          u,
          executions-append (replay_arguments create execute_pool flags a).0,
          executions-arguments a,
          executions-append (stop_collectors flags.basic_block_profiling basic_block),
          v,
          t,
        )
        (append-nil (runs_of a))

  -- Whatever the flags and the arguments are, and on every error path: each collector of a profile,
  -- the substate database and the CPU profile are never taken while they are held, given back only
  -- while they are held, and not held at the end. The pool is run once, with the configuration of
  -- the flags, if the arguments are a range and the file for the CPU profile can be made where one
  -- is asked for, and not otherwise.
  pub replay_action-releases :
      (args : List (List ℕ))
      → ((r : Resource)
          → held r (replay_action create execute_pool flags args).0 (some false) ≡ some false)
        × (executions (replay_action create execute_pool flags args).0
            ≡ runs_of (read_arguments args))
  unfolding replay_action read_arguments
  replay_action-releases [] = (λ r. refl, refl)
  replay_action-releases (x ∷ []) = (λ r. refl, refl)
  replay_action-releases (x ∷ y ∷ []) = (
    λ r. trace-cycle r (read_arguments (x ∷ y ∷ [])),
    executions-trace (read_arguments (x ∷ y ∷ [])),
  )
  replay_action-releases (x ∷ y ∷ z ∷ zs) = (λ r. refl, refl)
