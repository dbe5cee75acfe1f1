-- ===== src/Substate.antt =====
-- A recorded transaction, `substate.Substate` of the go-ethereum fork: the fields that the program
-- reads.
use substate_cli.Prelude.{ℕ, Option, List}
use substate_cli.GoMap.{GoMap}
use substate_cli.Types.{Address, Hash, Alloc, Log}

-- `substate.SubstateEnv`
pub record Env : Type 0 where
  pub coinbase : Address
  pub difficulty : ℕ
  pub gas_limit : ℕ
  pub number : ℕ
  pub timestamp : ℕ
  pub block_hashes : Option (GoMap ℕ Hash)
  pub base_fee : Option ℕ

-- `substate.SubstateMessage`
pub record Message : Type 0 where
  pub nonce : ℕ
  pub sender : Address
  pub to : Option Address

-- `substate.SubstateResult`
pub record Result : Type 0 where
  pub status : ℕ
  pub bloom : ℕ
  pub logs : List Log
  pub contract_address : Address
  pub gas_used : ℕ

-- `types.ReceiptStatusFailed` and `types.ReceiptStatusSuccessful`
abbrev pub receipt_failed : ℕ
receipt_failed = 0

abbrev pub receipt_successful : ℕ
receipt_successful = 1

pub record Substate : Type 0 where
  pub input_alloc : Alloc
  pub output_alloc : Alloc
  pub env : Env
  pub message : Message
  pub result : Result
