-- ===== src/Replay/Evm.antt =====
-- What the tasks of replay.go and replay_fork.go ask of go-ethereum: a state database, and a machine
-- that applies a message on it.
use Prim.Native.String.{String}
use substate_cli.Prelude.{ℕ, Bool, Option, List}
use substate_cli.Types.{Address, Hash, Alloc, Log}
use substate_cli.Substate.{Message}

-- `state.StateDB`: the methods that a task calls itself. `none` is a panic.
pub record StateDb : Type 1 where
  pub State : Type 0
  pub prepare : Hash → ℕ → State → State
  pub snapshot : State → State × ℕ
  pub revert_to_snapshot : ℕ → State → Option State
  pub finalise : Bool → State → Option State
  pub intermediate_root : Bool → State → Option (State × Hash)
  pub get_logs : Hash → Hash → State → List Log
  pub get_substate_post_alloc : State → State × Alloc

-- `vm.BlockContext`, without its two functions of go-ethereum.
pub record BlockContext : Type 0 where
  pub coinbase : Address
  pub block_number : ℕ
  pub time : ℕ
  pub difficulty : ℕ
  pub gas_limit : ℕ
  pub base_fee : Option ℕ

-- What `ApplyMessage` returns: an error by its text, or a result, with the text of its `Err`.
pub data Applied : Type 0 where
  refused : String → Applied
  executed : (failed : Bool) (used_gas : ℕ) (err : String) → Applied

-- A machine on a database: from the block, the function `GetHash`, the message and the gas, it
-- leaves the database, the numbers that it called `GetHash` with, and what `ApplyMessage` returns.
abbrev pub Machine : Type 0 → Type 0
Machine State = BlockContext → (ℕ → Hash) → Message → ℕ → State → Option (State × List ℕ × Applied)

-- The rules of a chain configuration at a block number.
pub record ChainConfig : Type 0 where
  pub is_byzantium : ℕ → Bool
  pub is_eip158 : ℕ → Bool
  pub is_london : ℕ → Bool

-- `crypto.CreateAddress` and `types.BytesToBloom(types.LogsBloom(...))`
pub record Hashing : Type 0 where
  pub create_address : Address → ℕ → Address
  pub logs_bloom : List Log → ℕ
