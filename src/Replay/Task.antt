-- ===== src/Replay/Task.antt =====
-- cmd/substate-cli/replay/replay.go: the replay of a recorded transaction.
pub mod InMemory
pub mod Reports
pub mod Simulation
use Prim.Native.String.{String}
use substate_cli.Prelude.{
  ℕ, ◌*◌, ◌^◌, Bool, true, false, ◌&&◌, not, Option, none, some, List, [], ◌∷◌, ◌++◌, ◌==◌, nat_eq,
  if◌then◌else◌,
}
use substate_cli.GoMap.{lookup, get_or}
use substate_cli.Types.{Address, Hash, zero_hash, Alloc}
use substate_cli.Substate.{Env, Message, Result, Substate, receipt_successful, receipt_failed}
use substate_cli.Replay.Diff.{Line, print_result_diff_summary, print_allocation_diff_summary}
use substate_cli.Replay.Evm.{StateDb, BlockContext, Applied, Machine, ChainConfig, Hashing}

-- The errors of `getHash`.
pub data HashError : Type 0 where
  no_blockhashes block_not_provided : ℕ → HashError

-- `getHash`: the hash, and what a call leaves in `hashError`.
unfoldable pub get_hash : Env → ℕ → Hash
get_hash env num = elim env.block_hashes [
  | none ↦ zero_hash
  | some hashes ↦ get_or num hashes zero_hash
]

unfoldable pub note_hash : Env → Option HashError → ℕ → Option HashError
note_hash env hash_error num = elim env.block_hashes [
  | none ↦ some (no_blockhashes num)
  | some hashes ↦ elim (lookup num hashes) [
    | none ↦ some (block_not_provided num)
    | some h ↦ hash_error
  ]
]

-- `hashError` after calls of `getHash`, in their order.
unfoldable pub note_hashes : Env → Option HashError → List ℕ → Option HashError
unfolding note_hash
note_hashes env hash_error [] = hash_error
note_hashes env hash_error (num ∷ nums) = note_hashes env (note_hash env hash_error num) nums

-- `blockCtx`
unfoldable pub block_context : Env → BlockContext
block_context env = record {
  coinbase = env.coinbase;
  block_number = env.number;
  time = env.timestamp;
  difficulty = env.difficulty;
  gas_limit = env.gas_limit;
  base_fee = env.base_fee;
}

-- `common.Hash{0x01}` and `common.Hash{0x02}`
abbrev pub hash_01 : Hash
hash_01 = 256 ^ 31

abbrev pub hash_02 : Hash
hash_02 = 2 * 256 ^ 31

pub data TaskError : Type 0 where
  apply_error : String → TaskError
  hash_error : HashError → TaskError
  inconsistent_output : TaskError

-- What a task prints.
pub data Printed : Type 0 where
  about : (block tx : ℕ) → Printed
  inconsistent_result inconsistent_alloc : Printed
  difference : Line → Printed

pub record Outcome : Type 0 where
  pub lines : List Printed
  pub error : Option TaskError

abbrev silent : Option TaskError → Outcome
silent error = record { lines = []; error = error }

abbrev pub differences : List Line → List Printed
differences [] = []
differences (l ∷ ls) = difference l ∷ differences ls

-- `evmResult`
unfoldable pub evm_result :
    Hashing → Message → Bool → ℕ → (D : StateDb) → Hash → Hash → D.State → Result
evm_result hashing msg failed used_gas D tx_hash block_hash statedb =
    let logs = D.get_logs tx_hash block_hash statedb in
    record {
      status = if failed then receipt_failed else receipt_successful;
      bloom = hashing.logs_bloom logs;
      logs = logs;
      contract_address = elim msg.to [
        | none ↦ hashing.create_address msg.sender msg.nonce
        | some to ↦ 0
      ];
      gas_used = used_gas;
    }

-- `if chainConfig.IsByzantium(...) { Finalise } else { IntermediateRoot }`
unfoldable pub settle : ChainConfig → ℕ → (D : StateDb) → D.State → Option D.State
settle chain_config number D statedb =
    if chain_config.is_byzantium number
    then D.finalise true statedb
    else elim (D.intermediate_root (chain_config.is_eip158 number) statedb) [
      | none ↦ none
      | some (statedb', root) ↦ some statedb'
    ]

module _ (result_equal : Result → Result → Bool) (alloc_equal : Alloc → Alloc → Bool) where
  -- The comparison of the outputs, with what it prints.
  unfoldable pub compare_with_record : ℕ → ℕ → Substate → Result → Alloc → Option Outcome
  compare_with_record block tx recording result alloc =
      let r = result_equal recording.result result in
      let a = alloc_equal recording.output_alloc alloc in
      let alloc_lines : List Printed =
        if a
        then []
        else inconsistent_alloc
          ∷ differences (print_allocation_diff_summary recording.output_alloc alloc) in
      if r && a
      then some (silent none)
      else if r
      then some (record { lines = about block tx ∷ alloc_lines; error = some inconsistent_output })
      else elim (print_result_diff_summary recording.result result) [
        | none ↦ none
        | some result_lines ↦ some (record {
          lines = about block tx ∷ inconsistent_result ∷ (differences result_lines ++ alloc_lines);
          error = some inconsistent_output;
        })
      ]

  module _ (hashing : Hashing) (chain_config : ChainConfig) (only_successful : Bool) (D : StateDb)
      (apply_message : Machine D.State) where
    -- After `ApplyMessage`: `statedb` is what it leaves, `nums` the calls of `getHash`.
    unfoldable pub after_apply : ℕ → ℕ → Substate → ℕ → D.State → List ℕ → Applied → Option Outcome
    unfolding note_hashes settle evm_result compare_with_record
    after_apply block tx recording snapshot statedb nums (Applied.refused err) =
        elim (D.revert_to_snapshot snapshot statedb) [
          | none ↦ none
          | some _ ↦ some (silent (some (apply_error err)))
        ]
    after_apply block tx recording snapshot statedb nums (Applied.executed failed used_gas err) =
        elim (note_hashes recording.env none nums) [
          | some e ↦ some (silent (some (hash_error e)))
          | none ↦ elim (settle chain_config recording.env.number D statedb) [
            | none ↦ none
            | some statedb' ↦
                compare_with_record block tx recording
                  (evm_result hashing recording.message failed used_gas D hash_02 hash_01 statedb')
                  (D.get_substate_post_alloc statedb').1
          ]
        ]

    -- `replayTask`, on a database that is made from the allocation before the transaction.
    unfoldable pub replay_task : (Alloc → ℕ → D.State) → ℕ → ℕ → Substate → Option Outcome
    unfolding get_hash block_context after_apply
    replay_task make_state_db block tx recording =
        if only_successful && not (recording.result.status == receipt_successful)
        then some (silent none)
        else (let (statedb, snapshot) =
              D.snapshot (D.prepare hash_02 tx (make_state_db recording.input_alloc block)) in
            elim (apply_message (block_context recording.env) (get_hash recording.env)
              recording.message recording.env.gas_limit statedb) [
                | none ↦ none
                | some (statedb', nums, applied) ↦
                    after_apply block tx recording snapshot statedb' nums applied
              ])
