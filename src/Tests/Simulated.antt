-- ===== src/Tests/Simulated.antt =====
-- The in-memory database against one that also counts its snapshots, and has an intermediate root.
use substate_cli.Prelude.{ℕ, ◌+◌, ◌≡◌, Option, none, some}
use substate_cli.Types.{Alloc}
use substate_cli.InMemory.Frame.{InMemoryStateDb, make_in_memory_state_db}
use substate_cli.InMemory.Journal.{snapshot, revert_to_snapshot}
use substate_cli.InMemory.Access.{get_logs}
use substate_cli.InMemory.Effects.{get_substate_post_alloc}
use substate_cli.InMemory.Run.{prepare, finalise}
use substate_cli.Tests.Replayed.{machine}
use substate_cli.Replay.Evm.{StateDb, Machine}
use substate_cli.Replay.Task.Simulation.{Simulation}

abbrev count_snapshot : InMemoryStateDb × ℕ → (InMemoryStateDb × ℕ) × ℕ
count_snapshot (db, count) = (((snapshot db).0, count + 1), (snapshot db).1)

abbrev with_count : ℕ → Option InMemoryStateDb → Option (InMemoryStateDb × ℕ)
with_count count none = none
with_count count (some db) = some (db, count)

abbrev counting : StateDb
counting = record {
  State = InMemoryStateDb × ℕ;
  prepare = λ h i s. (prepare h i s.0, s.1);
  snapshot = count_snapshot;
  revert_to_snapshot = λ n s. with_count s.1 (revert_to_snapshot n s.0);
  finalise = λ b s. some (finalise b s.0, s.1);
  intermediate_root = λ b s. some (s, 7);
  get_logs = λ h b s. get_logs s.0;
  get_substate_post_alloc =
      λ s. (((get_substate_post_alloc s.0).0, s.1), (get_substate_post_alloc s.0).1);
}

abbrev SameDb : InMemoryStateDb → InMemoryStateDb × ℕ → Type 0
SameDb s t = s ≡ t.0

abbrev SameId : ℕ → ℕ → InMemoryStateDb → InMemoryStateDb × ℕ → Type 0
SameId m n s t = (m ≡ n) × SameDb s t

-- The machine on the counting database.
abbrev counting_machine : Machine (InMemoryStateDb × ℕ)
counting_machine context hash_of msg gas (db, count) = elim (machine context hash_of msg gas db) [
  | none ↦ none
  | some (db', nums, applied) ↦ some ((db', count), nums, applied)
]

abbrev make_counting : Alloc → ℕ → InMemoryStateDb × ℕ
make_counting alloc block = (make_in_memory_state_db alloc block, 0)
