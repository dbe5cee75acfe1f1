-- ===== src/Replay/Task/InMemory/Accepts.antt =====
-- What a replay on the in-memory database that reports no error has found.
use Prim.Native.String.{String}
use substate_cli.Prelude.{
  ℕ, ◌≡◌, refl, ◌∙◌, inl, inr, Bool, true, false, ◌&&◌, not, none, some, List, ◌∷◌, arith, ◌==◌,
  nat_eq, if◌then◌else◌, Option-cases,
}
use substate_cli.GoMap.{Distinct}
use substate_cli.Types.{Address, Hash, Alloc}
use substate_cli.Substate.{Result, Substate, receipt_successful}
use substate_cli.InMemory.Frame.{InMemoryStateDb, make_in_memory_state_db}
use substate_cli.InMemory.Accounts.{
  get_balance, get_nonce, get_code, get_state, has_suicided, exist,
}
use substate_cli.InMemory.Journal.{snapshot, revert_to_snapshot}
use substate_cli.InMemory.Effects.{get_substate_post_alloc}
use substate_cli.InMemory.Effects.Merged.{seen}
use substate_cli.InMemory.Effects.Replayed.{post_alloc-run}
use substate_cli.InMemory.Op.{Op}
use substate_cli.InMemory.Run.{step, run, prepare}
use substate_cli.Replay.Evm.{Applied, Machine, ChainConfig, Hashing}
use substate_cli.Replay.Task.{
  Outcome, hash_01, hash_02, note_hashes, evm_result, compare_with_record, after_apply, replay_task,
}
use substate_cli.Replay.Task.InMemory.{
  in_memory_state_db, OnlyCalls, settle-in_memory, replay_in_memory, applied_to, calls_of,
}

-- The account in an allocation, with one slot, is what the getters return, or absent with it.
abbrev pub Agrees : Alloc → InMemoryStateDb → Type 0
Agrees alloc db =
    (a : Address) (k : Hash)
    → seen a k alloc ≡ (
        if has_suicided a db
        then none
        else if exist a db
        then some (get_nonce a db, get_balance a db, get_code a db, (get_state a k db).1)
        else none)

module _ (result_equal : Result → Result → Bool) (alloc_equal : Alloc → Alloc → Bool) where
  compare_with_record-none :
      (block tx : ℕ) (recording : Substate) (result : Result) (alloc : Alloc) {o : Outcome}
      → compare_with_record result_equal alloc_equal block tx recording result alloc ≡ some o
      → o.error ≡ none
      → (result_equal recording.result result ≡ true)
        × (alloc_equal recording.output_alloc alloc ≡ true)
  unfolding compare_with_record
  compare_with_record-none block tx recording result alloc {o} e h = (ground arith, ground arith)

  module _ (hashing : Hashing) (chain_config : ChainConfig) (only_successful : Bool)
      (apply_message : Machine InMemoryStateDb) (only_calls : OnlyCalls apply_message) where
    after_apply-none :
        (block tx : ℕ) (recording : Substate) (id : ℕ) (db : InMemoryStateDb) (nums : List ℕ)
        (applied : Applied) {o : Outcome}
        → chain_config.is_byzantium recording.env.number ≡ true
        → after_apply result_equal alloc_equal hashing chain_config only_successful
            in_memory_state_db apply_message block tx recording id db nums applied
          ≡ some o
        → o.error ≡ none
        → (failed : Bool) × (used_gas : ℕ) × (err : String) × (applied
            ≡ Applied.executed failed used_gas err)
          × (note_hashes recording.env none nums ≡ none)
          × (result_equal recording.result (
                evm_result hashing recording.message failed used_gas in_memory_state_db hash_02
                  hash_01 db)
              ≡ true)
          × (alloc_equal recording.output_alloc (get_substate_post_alloc db).1 ≡ true)
    unfolding after_apply
    after_apply-none block tx recording id db nums (Applied.refused err) {o} byzantium e h =
        elim (Option-cases (revert_to_snapshot id db)) [
          | inl panics ↦ absurd (ground (arith, panics))
          | inr (db', back) ↦ absurd (ground (arith, back))
        ]
    after_apply-none block tx recording id db nums (Applied.executed failed used_gas err) byzantium
          e h =
        elim (Option-cases (note_hashes recording.env none nums)) [
          | inr (missing, noted) ↦ absurd (ground (arith, noted))
          | inl fine ↦
              let made =
                rw
                  (
                    fine,
                    settle-in_memory chain_config recording.env.number db byzantium,
                    after_apply,
                  )
                  at e in
              let (r, a) = compare_with_record-none block tx recording _ _ made h in
              (failed, used_gas, err, refl, fine, r, a)
        ]

    -- On the in-memory database, under a configuration whose rules are Byzantium's at the block, with
    -- a machine that only uses the calls of the database and reverts to its own snapshots, and an
    -- equality of allocations under which equal ones read alike: let the recorded allocation have no
    -- key twice, the transaction not be skipped and the machine return. If the task then reports no
    -- error, the machine did not refuse the message, every block hash that it asked for is
    -- provided, the recorded result equals the one built from the database, and each account and
    -- each slot of the recorded output is what the getters of the database return.
    pub replay_in_memory-accepts :
        (alloc_reads : (m n : Alloc)
          → alloc_equal m n ≡ true
          → (a : Address) (k : Hash) → seen a k m ≡ seen a k n)
        (block tx : ℕ) (recording : Substate) {db : InMemoryStateDb} {nums : List ℕ}
        {applied : Applied} {o : Outcome}
        → chain_config.is_byzantium recording.env.number ≡ true
        → Distinct recording.input_alloc
        → (only_successful && not (recording.result.status == receipt_successful)) ≡ false
        → applied_to result_equal alloc_equal hashing chain_config only_successful apply_message
            only_calls block recording
          ≡ some (db, nums, applied)
        → replay_in_memory result_equal alloc_equal hashing chain_config only_successful
            apply_message only_calls block tx recording
          ≡ some o
        → o.error ≡ none
        → (failed : Bool) × (used_gas : ℕ) × (err : String) × (applied
            ≡ Applied.executed failed used_gas err)
          × (note_hashes recording.env none nums ≡ none)
          × (result_equal recording.result (
                evm_result hashing recording.message failed used_gas in_memory_state_db hash_02
                  hash_01 db)
              ≡ true)
          × Agrees recording.output_alloc db
    unfolding replay_task prepare
    replay_in_memory-accepts alloc_reads block tx recording {db} {nums} {applied} byzantium d shown
          e made h =
        let after = rw (shown, e, replay_task) at made in
        let (failed, used_gas, err, done, fine, r, equal) =
          after_apply-none block tx recording
            (snapshot (make_in_memory_state_db recording.input_alloc block)).1 db nums applied
            byzantium after h in
        let (ops, ran, _) =
          calls_of result_equal alloc_equal hashing chain_config only_successful apply_message
            only_calls block recording e in
        (
          failed,
          used_gas,
          err,
          done,
          fine,
          r,
          λ a k.
              alloc_reads recording.output_alloc (get_substate_post_alloc db).1 equal a k
              ∙ (post_alloc-run (Op.snapshot ∷ ops) recording.input_alloc block {db = db} a k d
                  (unfold run step in ran)).0,
        )
