-- ===== src/InMemory/Journal.antt =====
-- `Snapshot` and `RevertToSnapshot` of `inMemoryStateDB`.
use substate_cli.Prelude.{ℕ, ◌+◌, Option, none, some, List, [], ◌∷◌, ◌==◌, nat_eq, if◌then◌else◌}
use substate_cli.InMemory.Frame.{Snapshot, InMemoryStateDb, chain, make_snapshot}

-- The identifier of the current snapshot, on top of which a new one is put.
unfoldable pub snapshot : InMemoryStateDb → InMemoryStateDb × ℕ
unfolding make_snapshot
snapshot db = (
  record db {
    snapshot_counter = db.snapshot_counter + 1;
    state = make_snapshot (some db.state) (db.snapshot_counter + 1);
    parents = db.state ∷ db.parents;
  },
  db.state.id,
)

-- `for ; db.state != nil && db.state.id != id; db.state = db.state.parent {}`
unfoldable pub pop_to : ℕ → List Snapshot → List Snapshot
pop_to id [] = []
pop_to id (s ∷ rest) = if s.id == id then s ∷ rest else pop_to id rest

-- `none` is the panic on an identifier that the chain does not have.
unfoldable pub revert_to_snapshot : ℕ → InMemoryStateDb → Option InMemoryStateDb
unfolding pop_to
revert_to_snapshot id db = elim (pop_to id (chain db)) [
  | [] ↦ none
  | s ∷ rest ↦ some (record db { state = s; parents = rest })
]
