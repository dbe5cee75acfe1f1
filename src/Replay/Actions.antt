-- ===== src/Replay/Actions.antt =====
-- The actions of the commands: their arguments, and the task pool of go-ethereum that they start.
-- The flags, the lines about the build, and opening the substate database are not here.
pub mod Measuring
pub mod CodeDb
pub mod Statistics
pub mod KeyStats
pub mod LocationStats
pub mod ForkAction
pub mod Replaying
use Prim.Native.String.{String}
use substate_cli.Prelude.{ℕ, ◌≤◌, ◌≡◌, ap, Bool, Option, none, some, List, [], ◌∷◌}
use substate_cli.Substate.{Substate}
use substate_cli.Replay.Config.{RangeError, set_block_range, IsNumber, set_block_range_iff}

-- A recorded transaction with its place.
pub record Transaction : Type 0 where
  pub block : ℕ
  pub tx : ℕ
  pub substate : Substate

-- What `NewSubstateTaskPool(...).Execute()` does on a range, for a task that returns no error: the
-- transactions that it hands to the task, in their order, and the error that it returns.
pub record TaskPool : Type 0 where
  pub handed : ℕ → ℕ → List Transaction
  pub error : ℕ → ℕ → Option String

pub data ActionError : Type 0 where
  wrong_arguments invalid_hard_fork : ActionError
  bad_range : RangeError → ActionError
  pool_error : String → ActionError

-- `ctx.Args().Len() != 2` and `SetBlockRange`: the range, or the error.
pub data Arguments : Type 0 where
  refused : ActionError → Arguments
  range : ℕ → ℕ → Arguments

abbrev as_range : ℕ × ℕ × Option RangeError → Arguments
as_range (first, last, none) = range first last
as_range (first, last, some e) = refused (bad_range e)

unfoldable pub read_arguments : List (List ℕ) → Arguments
read_arguments (first_arg ∷ last_arg ∷ []) = as_range (set_block_range first_arg last_arg)
read_arguments _ = refused wrong_arguments

abbrev pub returned : Option String → Option ActionError
returned none = none
returned (some e) = some (pool_error e)

abbrev pub substates : List Transaction → List Substate
substates [] = []
substates (t ∷ ts) = t.substate ∷ substates ts

pub read_arguments-range :
    (first_arg last_arg : List ℕ) (first last : ℕ)
    → IsNumber first_arg first
    → IsNumber last_arg last
    → first ≤ last
    → read_arguments (first_arg ∷ last_arg ∷ []) ≡ range first last
unfolding read_arguments
read_arguments-range first_arg last_arg first last f l h =
    ap as_range ((set_block_range_iff first_arg last_arg first last).1 (f, l, h))
