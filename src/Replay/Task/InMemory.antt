-- ===== src/Replay/Task/InMemory.antt =====
-- The replay on the in-memory database, by a machine that only uses the database's calls.
pub mod Accepts
use Prim.Native.String.{String}
use substate_cli.Prelude.{
  ℕ, ◌<◌, ◌≡◌, refl, ◌∙◌, inl, inr, Bool, true, false, ◌&&◌, not, Option, none, some, List, [], ◌∷◌,
  arith, ◌==◌, nat_eq, if◌then◌else◌, Bool-cases, Option-cases,
}
use substate_cli.GoMap.{Distinct}
use substate_cli.Types.{Address, Hash, Alloc}
use substate_cli.Substate.{Result, Message, Substate, receipt_successful}
use substate_cli.InMemory.Frame.{InMemoryStateDb, make_in_memory_state_db}
use substate_cli.InMemory.Accounts.{
  get_balance, get_nonce, get_code, get_state, has_suicided, exist,
}
use substate_cli.InMemory.Access.{get_logs}
use substate_cli.InMemory.Journal.{snapshot, revert_to_snapshot}
use substate_cli.InMemory.Effects.{get_substate_post_alloc}
use substate_cli.InMemory.Effects.Merged.{seen}
use substate_cli.InMemory.Effects.Replayed.{post_alloc-run}
use substate_cli.InMemory.Nesting.{make_in_memory_state_db-IsOrdered}
use substate_cli.InMemory.Nesting.Restore.{RevertsAbove, revert-run-snapshot}
use substate_cli.InMemory.Op.{Op}
use substate_cli.InMemory.Run.{step, run, prepare, finalise, intermediate_root}
use substate_cli.Replay.Diff.Results.{print_result_diff_summary-Reports}
use substate_cli.Replay.Evm.{StateDb, BlockContext, Applied, Machine, ChainConfig, Hashing}
use substate_cli.Replay.Task.{
  Outcome, apply_error, hash_error, hash_01, hash_02, note_hashes, get_hash, block_context,
  evm_result, settle, compare_with_record, after_apply, replay_task,
}

-- `MakeInMemoryStateDB` and the methods of its database, as a task calls them.
abbrev pub in_memory_state_db : StateDb
in_memory_state_db = record {
  State = InMemoryStateDb;
  prepare = prepare;
  snapshot = snapshot;
  revert_to_snapshot = revert_to_snapshot;
  finalise = λ delete_empty db. some (finalise delete_empty db);
  intermediate_root = intermediate_root;
  get_logs = λ tx_hash block_hash db. get_logs db;
  get_substate_post_alloc = get_substate_post_alloc;
}

-- The machine changes the database by its calls, and reverts only to snapshots that it has taken,
-- whose identifiers are not below that of the database that it is given.
abbrev pub OnlyCalls : Machine InMemoryStateDb → Type 0
OnlyCalls apply_message =
    (context : BlockContext) (hash_of : ℕ → Hash) (msg : Message) (gas : ℕ) (db : InMemoryStateDb)
    (db' : InMemoryStateDb) (nums : List ℕ) (applied : Applied)
    → apply_message context hash_of msg gas db ≡ some (db', nums, applied)
    → (ops : List Op) × (run ops db ≡ some db') × ((n : ℕ) → n < db.state.id → RevertsAbove n ops)

pub settle-in_memory :
    (chain_config : ChainConfig) (number : ℕ) (db : InMemoryStateDb)
    → chain_config.is_byzantium number ≡ true
    → settle chain_config number in_memory_state_db db ≡ some db
unfolding settle finalise
settle-in_memory chain_config number db h = rw h refl

module _ (result_equal : Result → Result → Bool) (alloc_equal : Alloc → Alloc → Bool) where
  pub compare_with_record-some :
      (block tx : ℕ) (recording : Substate) (result : Result) (alloc : Alloc)
      → (o : Outcome) × (compare_with_record result_equal alloc_equal block tx recording result
            alloc
          ≡ some o)
  unfolding compare_with_record
  compare_with_record-some block tx recording result alloc =
      let (ls, printed, _) = print_result_diff_summary-Reports recording.result result in
      elim (Option-cases
        (compare_with_record result_equal alloc_equal block tx recording result alloc)) [
          | inl panics ↦ absurd (ground (arith, panics, printed))
          | inr found ↦ found
        ]

  module _ (hashing : Hashing) (chain_config : ChainConfig) (only_successful : Bool)
      (apply_message : Machine InMemoryStateDb) (only_calls : OnlyCalls apply_message) where
    abbrev pub replay_in_memory : ℕ → ℕ → Substate → Option Outcome
    replay_in_memory =
        replay_task result_equal alloc_equal hashing chain_config only_successful in_memory_state_db
          apply_message make_in_memory_state_db

    -- The database that the machine is given.
    abbrev pub start : ℕ → Substate → InMemoryStateDb
    start block recording = (snapshot (make_in_memory_state_db recording.input_alloc block)).0

    abbrev pub applied_to : ℕ → Substate → Option (InMemoryStateDb × List ℕ × Applied)
    applied_to block recording =
        apply_message (block_context recording.env) (get_hash recording.env) recording.message
          recording.env.gas_limit (start block recording)

    pub calls_of :
        (block : ℕ) (recording : Substate) {db : InMemoryStateDb} {nums : List ℕ}
        {applied : Applied}
        → applied_to block recording ≡ some (db, nums, applied)
        → (ops : List Op) × (run ops (start block recording) ≡ some db) × RevertsAbove 0 ops
    unfolding make_in_memory_state_db snapshot
    calls_of block recording e =
        let (ops, ran, above) = only_calls _ _ _ _ _ _ _ _ e in (ops, ran, above 0 (omega arith))

    reverted :
        (block : ℕ) (recording : Substate) {db : InMemoryStateDb} {nums : List ℕ}
        {applied : Applied}
        → applied_to block recording ≡ some (db, nums, applied)
        → (db' : InMemoryStateDb) × (revert_to_snapshot
              (snapshot (make_in_memory_state_db recording.input_alloc block)).1
              db
            ≡ some db')
    reverted block recording e =
        let (ops, ran, above) = calls_of block recording e in
        (
          _,
          revert-run-snapshot ops (make_in_memory_state_db recording.input_alloc block)
              (make_in_memory_state_db-IsOrdered recording.input_alloc block)
              (unfold make_in_memory_state_db snapshot in above) ran,
        )

    after_apply-some :
        (block tx : ℕ) (recording : Substate) (id : ℕ) (db : InMemoryStateDb) (nums : List ℕ)
        (applied : Applied)
        → chain_config.is_byzantium recording.env.number ≡ true
        → (db' : InMemoryStateDb) × (revert_to_snapshot id db ≡ some db')
        → (o : Outcome) × (after_apply result_equal alloc_equal hashing chain_config only_successful
              in_memory_state_db apply_message block tx recording id db nums applied
            ≡ some o)
    unfolding after_apply
    after_apply-some block tx recording id db nums (Applied.refused err) byzantium (db', back) =
        (record { lines = []; error = some (apply_error err) }, rw (back, after_apply) refl)
    after_apply-some block tx recording id db nums (Applied.executed failed used_gas err) byzantium
          back =
        elim (Option-cases (note_hashes recording.env none nums)) [
          | inr (e, missing) ↦
              (record { lines = []; error = some (hash_error e) }, rw (missing, after_apply) refl)
          | inl fine ↦
              let (o, made) =
                compare_with_record-some block tx recording
                  (evm_result hashing recording.message failed used_gas in_memory_state_db hash_02
                    hash_01 db)
                  (get_substate_post_alloc db).1 in
              (
                o,
                rw
                    (
                      fine,
                      settle-in_memory chain_config recording.env.number db byzantium,
                      after_apply,
                    )
                    made,
              )
        ]

    skipped : Substate → Bool
    skipped recording = only_successful && not (recording.result.status == receipt_successful)

    -- On the in-memory database, under a configuration whose rules are Byzantium's at the block, and
    -- with a machine that only uses the calls of the database and reverts to its own snapshots: if
    -- the machine returns, the task ends without a panic.
    pub replay_in_memory-some :
        (block tx : ℕ) (recording : Substate) {db : InMemoryStateDb} {nums : List ℕ}
        {applied : Applied}
        → chain_config.is_byzantium recording.env.number ≡ true
        → applied_to block recording ≡ some (db, nums, applied)
        → (o : Outcome) × (replay_in_memory block tx recording ≡ some o)
    unfolding replay_task prepare skipped
    replay_in_memory-some block tx recording {nums} {applied} byzantium e =
        elim (Bool-cases (skipped recording)) [
          | inl skip ↦ (record { lines = []; error = none }, rw (skip, replay_task) refl)
          | inr go ↦
              let (o, made) =
                after_apply-some block tx recording
                  (snapshot (make_in_memory_state_db recording.input_alloc block)).1 _ nums applied
                  byzantium (reverted block recording e) in
              (o, rw (go, e, replay_task) made)
        ]
