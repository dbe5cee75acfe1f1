-- ===== src/Replay/Actions/Measuring.antt =====
-- storage.go, codesize.go and substate_dump.go: the actions that print lines for each transaction.
use substate_cli.Prelude.{ℕ, ◌≡◌, ◌≤◌, refl, ◌∙◌, ap, Option, some, List, [], ◌∷◌, ◌++◌, nat_eq}
use substate_cli.GoMap.{Distinct}
use substate_cli.Types.{Address}
use substate_cli.Substate.{Substate}
use substate_cli.Replay.Accounts.{lines_of, lines_of-append}
use substate_cli.Replay.Storage.{Metric, get_storage_update_size_task}
use substate_cli.Replay.Storage.Lines.{line_of, get_storage_update_size_task-lines}
use substate_cli.Replay.CodeSize.{CodeLine, get_code_size_task}
use substate_cli.Replay.Config.{IsNumber}
use substate_cli.Replay.Actions.{
  Transaction, TaskPool, ActionError, refused, range, read_arguments, returned,
  read_arguments-range,
}

-- What the task prints for the transactions that the pool hands to it.
unfoldable pub run_task : {L : Type 0} → (ℕ → ℕ → Substate → List L) → List Transaction → List L
run_task task [] = []
run_task task (t ∷ ts) = task t.block t.tx t.substate ++ run_task task ts

-- An action around a task: the lines, and the error that it returns.
unfoldable pub task_action :
    {L : Type 0}
    → (ℕ → ℕ → Substate → List L)
    → TaskPool
    → List (List ℕ)
    → List L × Option ActionError
unfolding run_task read_arguments
task_action task pool args = elim (read_arguments args) [
  | refused e ↦ ([], some e)
  | range first last ↦ (run_task task (pool.handed first last), returned (pool.error first last))
]

-- `getStorageUpdateSizeAction`
unfoldable pub get_storage_update_size_action :
    TaskPool → List (List ℕ) → List Metric × Option ActionError
unfolding task_action
get_storage_update_size_action pool args = task_action get_storage_update_size_task pool args

-- `getCodeSizeAction`
unfoldable pub get_code_size_action : TaskPool → List (List ℕ) → List CodeLine × Option ActionError
unfolding task_action
get_code_size_action pool args = task_action get_code_size_task pool args

-- The parts of a record that `substateDumpTask` prints, each by `MarshalIndent`.
pub data Part : Type 0 where
  input_substate input_environment input_message output_substate output_result : Part

module _ {Json : Type 0} (marshal : Part → Substate → Json) where
  -- `substateDumpTask`: the block, the transaction and the five texts.
  unfoldable pub substate_dump_task : ℕ → ℕ → Substate → List (ℕ × ℕ × List (Part × Json))
  substate_dump_task block tx recording =
      (
        block,
        tx,
        (input_substate, marshal input_substate recording)
            ∷ (input_environment, marshal input_environment recording)
            ∷ (input_message, marshal input_message recording)
            ∷ (output_substate, marshal output_substate recording)
            ∷ (output_result, marshal output_result recording)
            ∷ [],
      )
      ∷ []

  -- `substateDumpAction`
  unfoldable pub substate_dump_action :
      TaskPool → List (List ℕ) → List (ℕ × ℕ × List (Part × Json)) × Option ActionError
  unfolding task_action substate_dump_task
  substate_dump_action pool args = task_action substate_dump_task pool args

-- Neither allocation of any of the transactions has a key twice.
abbrev pub AllMaps : List Transaction → Type 0
AllMaps [] = Unit
AllMaps (t ∷ ts) = Distinct t.substate.output_alloc × Distinct t.substate.input_alloc × AllMaps ts

-- The lines that an account should have, transaction by transaction.
abbrev pub account_lines : Address → List Transaction → List Metric
account_lines a [] = []
account_lines a (t ∷ ts) = line_of t.block t.tx t.substate a ++ account_lines a ts

run_task-lines :
    (a : Address) (ts : List Transaction)
    → AllMaps ts
    → lines_of (λ (l : Metric). l.wallet) a (run_task get_storage_update_size_task ts)
      ≡ account_lines a ts
unfolding run_task lines_of
run_task-lines a [] d = refl
run_task-lines a (t ∷ ts) d =
    lines_of-append (λ (l : Metric). l.wallet) a
      (get_storage_update_size_task t.block t.tx t.substate) _
    ∙ (rw (get_storage_update_size_task-lines t.block t.tx t.substate a d.0 d.1)
        (ap (λ ls. line_of t.block t.tx t.substate a ++ ls) (run_task-lines a ts d.2)))

task_action-range :
    {L : Type 0} (task : ℕ → ℕ → Substate → List L) (pool : TaskPool) (args : List (List ℕ))
    (first last : ℕ)
    → read_arguments args ≡ range first last
    → task_action task pool args
      ≡ (run_task task (pool.handed first last), returned (pool.error first last))
unfolding task_action
task_action-range task pool args first last h = rw (h, task_action) refl

-- If the two arguments are block numbers, the first not larger than the last, and no transaction
-- that the pool hands out has an allocation with a key twice, then the storage action prints for
-- each account, transaction by transaction, the line of its storage before and after, and returns
-- what the pool returns.
pub get_storage_update_size_action-lines :
    (pool : TaskPool) (first_arg last_arg : List ℕ) (first last : ℕ) (a : Address)
    → IsNumber first_arg first
    → IsNumber last_arg last
    → first ≤ last
    → AllMaps (pool.handed first last)
    → (lines_of
          (λ (l : Metric). l.wallet)
          a
          (get_storage_update_size_action pool (first_arg ∷ last_arg ∷ [])).0
        ≡ account_lines a (pool.handed first last))
      × ((get_storage_update_size_action pool (first_arg ∷ last_arg ∷ [])).1
          ≡ returned (pool.error first last))
unfolding get_storage_update_size_action
get_storage_update_size_action-lines pool first_arg last_arg first last a f l h d =
    let ran =
      task_action-range get_storage_update_size_task pool (first_arg ∷ last_arg ∷ []) first last
        (read_arguments-range first_arg last_arg first last f l h) in
    (
      ap (λ r. lines_of (λ (l : Metric). l.wallet) a r.0) ran
          ∙ run_task-lines a (pool.handed first last) d,
      ap (λ r. r.1) ran,
    )
