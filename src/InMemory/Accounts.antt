-- ===== src/InMemory/Accounts.antt =====
-- The account operations of `inMemoryStateDB`: balances, nonces, codes, storage, self-destruction.
pub mod Reads
use substate_cli.Prelude.{
  ℕ, zero, ◌+◌, ◌≡◌, Bool, true, false, ◌&&◌, Option, none, some, [], ◌==◌, nat_eq, is_some, length,
  ltb, if◌then◌else◌,
}
use substate_cli.Prelude.Int.{ℤ, pos, ◌+ℤ◌, ◌-ℤ◌, is_zero}
use substate_cli.GoMap.{GoMap, lookup, has, get_or, put}
use substate_cli.Types.{Address, Hash, zero_hash, Code, Slot, slot_eq, Account, Alloc}
use substate_cli.InMemory.Frame.{Snapshot, InMemoryStateDb, chain, first_in, any_in}

-- Beside the bookkeeping of blocks above 46051750 account creation is ignored.
unfoldable pub create_account : Address → InMemoryStateDb → InMemoryStateDb
create_account addr db =
    if ltb 46051750 db.block_num
    then record db { created_account = put addr 0 db.created_account }
    else db

unfoldable pub get_balance : Address → InMemoryStateDb → ℤ
get_balance addr db = elim (first_in (λ s. lookup addr s.balances) (chain db)) [
  | some val ↦ val
  | none ↦ elim (lookup addr db.alloc) [ none ↦ pos 0 | some account ↦ account.balance ]
]

unfoldable pub sub_balance : Address → ℤ → InMemoryStateDb → InMemoryStateDb
sub_balance addr value db = if is_zero value then db else record db {
  state = record db.state {
    touched = put addr 0 db.state.touched;
    balances = put addr (get_balance addr db -ℤ value) db.state.balances;
  };
}

unfoldable pub add_balance : Address → ℤ → InMemoryStateDb → InMemoryStateDb
add_balance addr value db = if is_zero value then db else record db {
  state = record db.state {
    touched = put addr 0 db.state.touched;
    balances = put addr (get_balance addr db +ℤ value) db.state.balances;
  };
}

unfoldable pub get_nonce : Address → InMemoryStateDb → ℕ
get_nonce addr db = elim (first_in (λ s. lookup addr s.nonces) (chain db)) [
  | some val ↦ val
  | none ↦ elim (lookup addr db.alloc) [ none ↦ 0 | some account ↦ account.nonce ]
]

unfoldable pub set_nonce : Address → ℕ → InMemoryStateDb → InMemoryStateDb
set_nonce addr value db = record db {
  state = record db.state {
    touched = put addr 0 db.state.touched;
    nonces = put addr value db.state.nonces;
  };
}

unfoldable pub get_code : Address → InMemoryStateDb → Code
get_code addr db = elim (first_in (λ s. lookup addr s.codes) (chain db)) [
  | some val ↦ val
  | none ↦ elim (lookup addr db.alloc) [ none ↦ [] | some account ↦ account.code ]
]

unfoldable pub set_code : Address → Code → InMemoryStateDb → InMemoryStateDb
set_code addr code db = record db {
  state = record db.state {
    touched = put addr 0 db.state.touched;
    codes = put addr code db.state.codes;
  };
}

unfoldable pub get_code_size : Address → InMemoryStateDb → ℕ
get_code_size addr db = length (get_code addr db)

unfoldable pub get_committed_state : Address → Hash → InMemoryStateDb → Hash
get_committed_state addr key db = elim (lookup addr db.alloc) [
  | none ↦ zero_hash
  | some account ↦ get_or key account.storage zero_hash
]

-- A read of a slot that is nowhere recorded, of an account that the allocation does not have,
-- records a zero in the current snapshot.
unfoldable pub get_state : Address → Hash → InMemoryStateDb → InMemoryStateDb × Hash
get_state addr key db =
    let slot : Slot = record { addr = addr; key = key } in
    elim (first_in (λ s. lookup slot s.storage) (chain db)) [
      | some val ↦ (db, val)
      | none ↦ elim (lookup addr db.alloc) [
        | none ↦ (
          record db { state = record db.state { storage = put slot zero_hash db.state.storage } },
          zero_hash,
        )
        | some account ↦ (db, get_or key account.storage zero_hash)
      ]
    ]

unfoldable pub set_state : Address → Hash → Hash → InMemoryStateDb → InMemoryStateDb
set_state addr key value db = record db {
  state = record db.state {
    touched = put addr 0 db.state.touched;
    storage = put (record { addr = addr; key = key }) value db.state.storage;
  };
}

unfoldable pub suicide : Address → InMemoryStateDb → InMemoryStateDb × Bool
suicide addr db = (
  record db {
    state = record db.state {
      suicided = put addr 0 db.state.suicided;
      balances = put addr (pos 0) db.state.balances;
    };
  },
  true,
)

unfoldable pub has_suicided : Address → InMemoryStateDb → Bool
has_suicided addr db = any_in (λ s. has addr s.suicided) (chain db)

unfoldable pub exist : Address → InMemoryStateDb → Bool
exist addr db = if any_in (λ s. has addr s.touched) (chain db) then true else has addr db.alloc

unfoldable pub empty : Address → InMemoryStateDb → Bool
empty addr db = get_nonce addr db == 0 && is_zero (get_balance addr db)
