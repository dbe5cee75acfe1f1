-- ===== src/InMemory/Effects.antt =====
-- `GetEffects` and `GetSubstatePostAlloc`: what a transaction did, and the allocation after it.
pub mod Touched
pub mod Recorded
pub mod Merged
pub mod PostAlloc
pub mod Replayed
pub mod Slots
use substate_cli.Prelude.{
  ℕ, Bool, true, false, Option, none, some, List, [], ◌∷◌, Eq, ◌==◌, nat_eq, if◌then◌else◌,
}
use substate_cli.Prelude.Int.{ℤ}
use substate_cli.GoMap.{GoMap, range, lookup, has, put, delete}
use substate_cli.Types.{Address, Hash, zero_hash, Slot, slot_eq, Account, Alloc}
use substate_cli.InMemory.Frame.{Snapshot, InMemoryStateDb, chain}
use substate_cli.InMemory.Accounts.{get_balance, get_nonce, get_code, has_suicided}

-- `for addr := range state.touched { touched[addr] = 0 }`, over the whole chain
unfoldable pub collect_touched : List Snapshot → GoMap Address ℕ → GoMap Address ℕ
collect_touched [] touched = touched
collect_touched (s ∷ rest) touched =
    collect_touched rest (range (λ t addr _. put addr 0 t) s.touched touched)

-- The variables `reported` and `cur.Storage` of the loop over the slots.
pub record Report : Type 0 where
  pub reported : GoMap Hash ℕ
  pub storage : GoMap Hash Hash

-- The body of the loop over `state.storage`: the first value met of a key is kept.
unfoldable pub report_slot : Address → Report → Slot → Hash → Report
report_slot addr r slot value =
    if slot.addr == addr
    then (if has slot.key r.reported then r else record {
      reported = put slot.key 0 r.reported;
      storage = put slot.key value r.storage;
    })
    else r

unfoldable pub report_storage : Address → List Snapshot → Report → Report
unfolding report_slot
report_storage addr [] r = r
report_storage addr (s ∷ rest) r = report_storage addr rest (range (report_slot addr) s.storage r)

-- The account `cur` of the loop over the touched addresses.
unfoldable pub account_effect : InMemoryStateDb → Address → Account
account_effect db addr = record {
  nonce = get_nonce addr db;
  balance = get_balance addr db;
  storage = (report_storage addr (chain db) (record { reported = []; storage = [] })).storage;
  code = get_code addr db;
}

unfoldable pub get_effects : InMemoryStateDb → Alloc
get_effects db =
    range (λ res addr _. put addr (account_effect db addr) res) (collect_touched (chain db) []) []

-- `entry.Balance = ...; entry.Nonce = ...; entry.Code = ...` and the loop over `value.Storage`
unfoldable pub update_entry : Account → Account → Account
update_entry entry value = record {
  nonce = value.nonce;
  balance = value.balance;
  storage = range (λ storage key v. put key v storage) value.storage entry.storage;
  code = value.code;
}

-- The body of the loop over the effects.
unfoldable pub merge_effect : Alloc → Address → Account → Alloc
merge_effect res key value = elim (lookup key res) [
  | none ↦ put key value res
  | some entry ↦ put key (update_entry entry value) res
]

-- The body of the loop over `db.touchedSlots`.
unfoldable pub fill_slot : Alloc → Slot → ℕ → Alloc
fill_slot res slot _ = elim (lookup slot.addr res) [
  | none ↦ res
  | some account ↦
      if has slot.key account.storage
      then res
      else put slot.addr (record account { storage = put slot.key zero_hash account.storage }) res
]

-- The body of the last loop.
unfoldable pub drop_suicided : InMemoryStateDb → Alloc → Address → Account → Alloc
drop_suicided db res key _ = if has_suicided key db then delete key res else res

unfoldable pub post_alloc : InMemoryStateDb → Alloc
post_alloc db =
    let merged = range merge_effect (get_effects db) db.alloc in
    let filled = range fill_slot db.touched_slots merged in range (drop_suicided db) filled filled

-- `res := *db.alloc` shares the map with the database, so its allocation becomes the result.
unfoldable pub get_substate_post_alloc : InMemoryStateDb → InMemoryStateDb × Alloc
unfolding post_alloc
get_substate_post_alloc db = (record db { alloc = post_alloc db }, post_alloc db)
