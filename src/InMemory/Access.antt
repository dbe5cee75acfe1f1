-- ===== src/InMemory/Access.antt =====
-- The gas refund, the access list and the logs of `inMemoryStateDB`.
use substate_cli.Prelude.{
  ℕ, ◌+◌, ◌-◌, ◌%◌, ◌^◌, Bool, Option, none, some, List, [], ◌∷◌, ◌++◌, nat_eq, if◌then◌else◌,
}
use substate_cli.GoMap.{has, put}
use substate_cli.Types.{Address, Hash, Slot, slot_eq, Log}
use substate_cli.InMemory.Frame.{Snapshot, InMemoryStateDb, chain, any_in}

-- The refund is a uint64.
abbrev pub word : ℕ
word = 2 ^ 64

unfoldable pub add_refund : ℕ → InMemoryStateDb → InMemoryStateDb
add_refund gas db = record db {
  state = record db.state { refund = (db.state.refund + gas) % word };
}

unfoldable pub sub_refund : ℕ → InMemoryStateDb → InMemoryStateDb
sub_refund gas db = record db {
  state = record db.state { refund = (db.state.refund + word - gas) % word };
}

unfoldable pub get_refund : InMemoryStateDb → ℕ
get_refund db = db.state.refund

unfoldable pub add_address_to_access_list : Address → InMemoryStateDb → InMemoryStateDb
add_address_to_access_list addr db = record db {
  state = record db.state { accessed_accounts = put addr 0 db.state.accessed_accounts };
}

unfoldable pub add_slot_to_access_list : Address → Hash → InMemoryStateDb → InMemoryStateDb
unfolding add_address_to_access_list
add_slot_to_access_list addr key db0 =
    let db = add_address_to_access_list addr db0 in
    let slot : Slot = record { addr = addr; key = key } in
    record db {
      state = record db.state { accessed_slots = put slot 0 db.state.accessed_slots };
      touched_slots =
          if has addr db.created_account then put slot 0 db.touched_slots else db.touched_slots;
    }

unfoldable pub address_in_access_list : Address → InMemoryStateDb → Bool
address_in_access_list addr db = any_in (λ s. has addr s.accessed_accounts) (chain db)

-- Whether the address is listed, and whether the slot is.
unfoldable pub slot_in_access_list : Address → Hash → InMemoryStateDb → Bool × Bool
slot_in_access_list addr key db = (
  address_in_access_list addr db,
  any_in (λ s. has (record { addr = addr; key = key }) s.accessed_slots) (chain db),
)

-- `types.AccessTuple`
pub record AccessTuple : Type 0 where
  pub address : Address
  pub storage_keys : List Hash

-- `for _, addr := range addrs { db.AddAddressToAccessList(addr) }`
unfoldable pub add_addresses : List Address → InMemoryStateDb → InMemoryStateDb
add_addresses [] db = db
add_addresses (addr ∷ rest) db = add_addresses rest (add_address_to_access_list addr db)

-- `for _, key := range el.StorageKeys { db.AddSlotToAccessList(el.Address, key) }`
unfoldable pub add_slots : Address → List Hash → InMemoryStateDb → InMemoryStateDb
add_slots addr [] db = db
add_slots addr (key ∷ rest) db = add_slots addr rest (add_slot_to_access_list addr key db)

-- `for _, el := range txAccesses { ... }`
unfoldable pub add_tuples : List AccessTuple → InMemoryStateDb → InMemoryStateDb
add_tuples [] db = db
add_tuples (el ∷ rest) db =
    add_tuples rest
      (add_slots el.address el.storage_keys (add_address_to_access_list el.address db))

-- `if dest != nil { db.AddAddressToAccessList(*dest) }`
unfoldable pub add_destination : Option Address → InMemoryStateDb → InMemoryStateDb
add_destination none db = db
add_destination (some dest) db = add_address_to_access_list dest db

unfoldable pub prepare_access_list :
    Address → Option Address → List Address → List AccessTuple → InMemoryStateDb → InMemoryStateDb
prepare_access_list sender dest precompiles tx_accesses db =
    add_tuples tx_accesses
      (add_addresses precompiles (add_destination dest (add_address_to_access_list sender db)))

unfoldable pub add_log : Log → InMemoryStateDb → InMemoryStateDb
add_log log db = record db { state = record db.state { logs = db.state.logs ++ log ∷ [] } }

-- `collectLogs`: the logs of the outer snapshots come first.
unfoldable pub collect_logs : List Snapshot → List Log
collect_logs [] = []
collect_logs (s ∷ parents) = collect_logs parents ++ s.logs

unfoldable pub get_logs : InMemoryStateDb → List Log
get_logs db = collect_logs (chain db)
