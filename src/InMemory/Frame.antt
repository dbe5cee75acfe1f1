-- ===== src/InMemory/Frame.antt =====
-- The types of state/in_memory_state_db.go and the walk along its chain of snapshots.
use substate_cli.Prelude.{ℕ, Bool, false, ◌||◌, Option, none, some, List, [], ◌∷◌}
use substate_cli.Prelude.Int.{ℤ}
use substate_cli.GoMap.{GoMap}
use substate_cli.Types.{Address, Hash, Code, Slot, Alloc, Log}

-- `snapshot`, without its link `parent`: the chain is a list, innermost snapshot first.
pub record Snapshot : Type 0 where
  pub id : ℕ
  pub touched : GoMap Address ℕ
  pub balances : GoMap Address ℤ
  pub nonces : GoMap Address ℕ
  pub codes : GoMap Address Code
  pub suicided : GoMap Address ℕ
  pub storage : GoMap Slot Hash
  pub accessed_accounts : GoMap Address ℕ
  pub accessed_slots : GoMap Slot ℕ
  pub logs : List Log
  pub refund : ℕ

-- `makeSnapshot(parent, id)`: all maps empty, the refund taken from the parent if there is one.
unfoldable pub make_snapshot : Option Snapshot → ℕ → Snapshot
make_snapshot parent n = record {
  id = n;
  touched = [];
  balances = [];
  nonces = [];
  codes = [];
  suicided = [];
  storage = [];
  accessed_accounts = [];
  accessed_slots = [];
  logs = [];
  refund = elim parent [ none ↦ 0 | some p ↦ p.refund ];
}

-- `inMemoryStateDB`: `state` is the current snapshot, `parents` the chain behind its `parent`.
pub record InMemoryStateDb : Type 0 where
  pub alloc : Alloc
  pub state : Snapshot
  pub parents : List Snapshot
  pub snapshot_counter : ℕ
  pub touched_slots : GoMap Slot ℕ
  pub created_account : GoMap Address ℕ
  pub block_num : ℕ

abbrev pub chain : InMemoryStateDb → List Snapshot
chain db = db.state ∷ db.parents

-- `MakeInMemoryStateDB(alloc, block)`
unfoldable pub make_in_memory_state_db : Alloc → ℕ → InMemoryStateDb
unfolding make_snapshot
make_in_memory_state_db alloc block = record {
  alloc = alloc;
  state = make_snapshot none 0;
  parents = [];
  snapshot_counter = 0;
  touched_slots = [];
  created_account = [];
  block_num = block;
}

-- `for state := db.state; state != nil; state = state.parent` with a `return` in its body: the
-- first snapshot of the chain that gives a value.
unfoldable pub first_in {ℓ} : {A : Type ℓ} → (Snapshot → Option A) → List Snapshot → Option A
first_in read [] = none
first_in read (s ∷ rest) = elim (read s) [ some v ↦ some v | none ↦ first_in read rest ]

-- The same loop where its body returns `true`.
unfoldable pub any_in : (Snapshot → Bool) → List Snapshot → Bool
any_in test [] = false
any_in test (s ∷ rest) = test s || any_in test rest
