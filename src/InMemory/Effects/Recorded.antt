-- ===== src/InMemory/Effects/Recorded.antt =====
-- Every write is recorded as a touch: what a snapshot holds for an address that it did not touch.
pub mod Writes
pub mod Step
use mathlib.Core.Option.{some-injective}
use substate_cli.Prelude.{
  ◌≡◌, refl, sym, subst, ◌∙◌, ap, inl, inr, Bool, true, false, ◌||◌, Option, none, some, List, [],
  ◌∷◌, arith, ◌==◌, nat_eq, nat_eqb_iff, is_some, if◌then◌else◌, ℕ, Bool-cases,
}
use substate_cli.Prelude.Int.{ℤ, pos, is_zero}
use substate_cli.GoMap.{lookup, has, put}
use substate_cli.GoMap.Laws.{lookup-put, has-put}
use substate_cli.Types.{Address, Hash, Code, zero_hash, Slot, slot_eq, slot_eqb_iff, Account, Alloc}
use substate_cli.InMemory.Frame.{
  Snapshot, InMemoryStateDb, chain, make_snapshot, make_in_memory_state_db, first_in, any_in,
}
use substate_cli.InMemory.Accounts.{
  create_account, get_balance, sub_balance, add_balance, set_nonce, set_code, get_state, set_state,
  suicide,
}
use substate_cli.InMemory.Accounts.Reads.{record_zero, get_state-cases}
use substate_cli.InMemory.Access.{
  AccessTuple, add_refund, sub_refund, add_address_to_access_list, add_slot_to_access_list,
  add_addresses, add_slots, add_tuples, add_destination, prepare_access_list, add_log,
}
use substate_cli.InMemory.Journal.{snapshot, pop_to, revert_to_snapshot}
use substate_cli.InMemory.Op.{Op}
use substate_cli.InMemory.Run.{step, run, run-cons}
use substate_cli.InMemory.Nesting.{revert-eq-some}

pub record IsRecorded (alloc : Alloc) (s : Snapshot) : Type 0 where
  pub balances :
      (a : Address)
      → has a s.touched ≡ false
      → has a s.suicided ≡ false
      → lookup a s.balances ≡ none
  pub nonces : (a : Address) → has a s.touched ≡ false → lookup a s.nonces ≡ none
  pub codes : (a : Address) → has a s.touched ≡ false → lookup a s.codes ≡ none
  pub storage :
      (a : Address) (k : Hash)
      → has a s.touched ≡ false
      → has a alloc ≡ true
      → lookup (record { addr = a; key = k }) s.storage ≡ none

abbrev pub AllRecorded : Alloc → List Snapshot → Type 0
AllRecorded alloc [] = Unit
AllRecorded alloc (s ∷ rest) = IsRecorded alloc s × AllRecorded alloc rest

abbrev pub IsConsistent : InMemoryStateDb → Type 0
IsConsistent db = AllRecorded db.alloc (chain db)

pub make_snapshot-IsRecorded :
    (alloc : Alloc) (parent : Option Snapshot) (id : ℕ) → IsRecorded alloc (make_snapshot parent id)
unfolding make_snapshot lookup
make_snapshot-IsRecorded alloc parent id = record {
  balances = λ a t u. refl;
  nonces = λ a t. refl;
  codes = λ a t. refl;
  storage = λ a k t p. refl;
}

pub make_in_memory_state_db-IsConsistent :
    (alloc : Alloc) (block : ℕ) → IsConsistent (make_in_memory_state_db alloc block)
unfolding make_in_memory_state_db
make_in_memory_state_db-IsConsistent alloc block = (make_snapshot-IsRecorded alloc none 0, tt)
