-- ===== src/InMemory/Op.antt =====
-- The methods of the database that can change its state, or panic.
use substate_cli.Prelude.{ℕ, Bool, Option, List}
use substate_cli.Prelude.Int.{ℤ}
use substate_cli.Types.{Address, Hash, Code, Log}
use substate_cli.InMemory.Access.{AccessTuple}

-- One constructor for each method that can change the database or panic.
pub data Op : Type 0 where
  create_account : Address → Op
  sub_balance add_balance : Address → ℤ → Op
  set_nonce : Address → ℕ → Op
  set_code : Address → Code → Op
  add_refund sub_refund : ℕ → Op
  get_state : Address → Hash → Op
  set_state : Address → Hash → Hash → Op
  suicide : Address → Op
  add_address : Address → Op
  add_slot : Address → Hash → Op
  prepare_access_list : Address → Option Address → List Address → List AccessTuple → Op
  snapshot : Op
  revert : ℕ → Op
  add_log : Log → Op
  add_preimage : Hash → Code → Op
  finalise : Bool → Op
