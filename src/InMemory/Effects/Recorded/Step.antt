-- ===== src/InMemory/Effects/Recorded/Step.antt =====
-- The records of touches, call by call.
use mathlib.Core.Option.{some-injective}
use substate_cli.Prelude.{
  ◌+◌, ◌≡◌, sym, subst, inl, inr, Bool, true, false, Option, none, some, List, [], ◌∷◌, ◌==◌,
  nat_eq, if◌then◌else◌, ℕ, Bool-cases, ltb,
}
use substate_cli.Prelude.Int.{is_zero}
use substate_cli.Types.{Address, Hash, slot_eq, Alloc}
use substate_cli.InMemory.Frame.{Snapshot, InMemoryStateDb, chain}
use substate_cli.InMemory.Accounts.{
  create_account, sub_balance, add_balance, set_nonce, set_code, get_state, set_state, suicide,
}
use substate_cli.InMemory.Accounts.Reads.{record_zero, get_state-cases}
use substate_cli.InMemory.Access.{
  AccessTuple, add_refund, sub_refund, add_address_to_access_list, add_slot_to_access_list,
  add_addresses, add_slots, add_tuples, add_destination, prepare_access_list, add_log,
}
use substate_cli.InMemory.Journal.{snapshot, pop_to, revert_to_snapshot}
use substate_cli.InMemory.Op.{Op}
use substate_cli.InMemory.Run.{step, run, run-cons}
use substate_cli.InMemory.Nesting.{revert-eq-some}
use substate_cli.InMemory.Effects.Recorded.{AllRecorded, IsConsistent, make_snapshot-IsRecorded}
use substate_cli.InMemory.Effects.Recorded.Writes.{
  balance-IsRecorded, nonce-IsRecorded, code-IsRecorded, storage-IsRecorded, zero-IsRecorded,
  suicide-IsRecorded, lists-IsRecorded,
}

pop_to-AllRecorded :
    (alloc : Alloc) (id : ℕ) (frames : List Snapshot)
    → AllRecorded alloc frames
    → AllRecorded alloc (pop_to id frames)
unfolding pop_to
pop_to-AllRecorded alloc id [] r = r
pop_to-AllRecorded alloc id (s ∷ rest) r = elim (Bool-cases (s.id == id)) [
  | inl here ↦ rw here r
  | inr further ↦ rw further (pop_to-AllRecorded alloc id rest r.1)
]

revert-IsConsistent :
    (id : ℕ) (db : InMemoryStateDb) {db' : InMemoryStateDb}
    → IsConsistent db
    → revert_to_snapshot id db ≡ some db'
    → IsConsistent db'
revert-IsConsistent id db r e =
    let (s, rest, popped, same) = revert-eq-some id db e in
    subst IsConsistent (sym same)
      (subst (AllRecorded db.alloc) popped (pop_to-AllRecorded db.alloc id (chain db) r))

keep-if :
    (b : Bool) (db db' : InMemoryStateDb)
    → IsConsistent db
    → IsConsistent db'
    → IsConsistent (if b then db else db')
keep-if true db db' r r' = r
keep-if false db db' r r' = r'

create_account-IsConsistent :
    (addr : Address) (db : InMemoryStateDb)
    → IsConsistent db
    → IsConsistent (create_account addr db)
unfolding create_account
create_account-IsConsistent addr db r = keep-if (ltb 46051750 db.block_num) _ db r r

get_state-IsConsistent :
    (addr : Address) (key : Hash) (db : InMemoryStateDb)
    → IsConsistent db
    → IsConsistent (get_state addr key db).0
get_state-IsConsistent addr key db r = elim (get_state-cases addr key db) [
  | inl unchanged ↦ subst IsConsistent (sym unchanged) r
  | inr (recorded, _, absent) ↦
      subst IsConsistent (sym recorded)
        (unfold record_zero in (zero-IsRecorded db.state r.0 addr key absent, r.1))
]

add_address-IsConsistent :
    (addr : Address) (db : InMemoryStateDb)
    → IsConsistent db
    → IsConsistent (add_address_to_access_list addr db)
unfolding add_address_to_access_list
add_address-IsConsistent addr db r = (lists-IsRecorded db.state r.0 addr _ _ _ _, r.1)

add_slot-IsConsistent :
    (addr : Address) (key : Hash) (db : InMemoryStateDb)
    → IsConsistent db
    → IsConsistent (add_slot_to_access_list addr key db)
unfolding add_slot_to_access_list
add_slot-IsConsistent addr key db r = (lists-IsRecorded db.state r.0 addr _ _ _ _, r.1)

add_addresses-IsConsistent :
    (addrs : List Address) (db : InMemoryStateDb)
    → IsConsistent db
    → IsConsistent (add_addresses addrs db)
unfolding add_addresses
add_addresses-IsConsistent [] db r = r
add_addresses-IsConsistent (addr ∷ rest) db r =
    add_addresses-IsConsistent rest _ (add_address-IsConsistent addr db r)

add_slots-IsConsistent :
    (addr : Address) (keys : List Hash) (db : InMemoryStateDb)
    → IsConsistent db
    → IsConsistent (add_slots addr keys db)
unfolding add_slots
add_slots-IsConsistent addr [] db r = r
add_slots-IsConsistent addr (key ∷ rest) db r =
    add_slots-IsConsistent addr rest _ (add_slot-IsConsistent addr key db r)

add_tuples-IsConsistent :
    (accesses : List AccessTuple) (db : InMemoryStateDb)
    → IsConsistent db
    → IsConsistent (add_tuples accesses db)
unfolding add_tuples
add_tuples-IsConsistent [] db r = r
add_tuples-IsConsistent (el ∷ rest) db r =
    add_tuples-IsConsistent rest _ (
      add_slots-IsConsistent el.address el.storage_keys _
        (add_address-IsConsistent el.address db r))

add_destination-IsConsistent :
    (dest : Option Address) (db : InMemoryStateDb)
    → IsConsistent db
    → IsConsistent (add_destination dest db)
unfolding add_destination
add_destination-IsConsistent none db r = r
add_destination-IsConsistent (some dest) db r = add_address-IsConsistent dest db r

stepped : {db db' : InMemoryStateDb} → IsConsistent db → some db ≡ some db' → IsConsistent db'
stepped r e = subst IsConsistent (some-injective _ _ e) r

-- Every call keeps the chain recorded.
pub step-IsConsistent :
    (op : Op) (db : InMemoryStateDb) {db' : InMemoryStateDb}
    → IsConsistent db
    → step op db ≡ some db'
    → IsConsistent db'
unfolding step sub_balance add_balance set_nonce set_code add_refund sub_refund set_state suicide
    add_log snapshot prepare_access_list
step-IsConsistent (Op.create_account addr) db r e =
    stepped (create_account-IsConsistent addr db r) e
step-IsConsistent (Op.sub_balance addr value) db r e =
    stepped (keep-if (is_zero value) db _ r (balance-IsRecorded db.state r.0 addr _, r.1)) e
step-IsConsistent (Op.add_balance addr value) db r e =
    stepped (keep-if (is_zero value) db _ r (balance-IsRecorded db.state r.0 addr _, r.1)) e
step-IsConsistent (Op.set_nonce addr value) db r e =
    stepped (nonce-IsRecorded db.state r.0 addr value, r.1) e
step-IsConsistent (Op.set_code addr code) db r e =
    stepped (code-IsRecorded db.state r.0 addr code, r.1) e
step-IsConsistent (Op.add_refund gas) db r e =
    stepped (lists-IsRecorded db.state r.0 0 _ _ _ _, r.1) e
step-IsConsistent (Op.sub_refund gas) db r e =
    stepped (lists-IsRecorded db.state r.0 0 _ _ _ _, r.1) e
step-IsConsistent (Op.get_state addr key) db r e = stepped (get_state-IsConsistent addr key db r) e
step-IsConsistent (Op.set_state addr key value) db r e =
    stepped (storage-IsRecorded db.state r.0 addr key value, r.1) e
step-IsConsistent (Op.suicide addr) db r e = stepped (suicide-IsRecorded db.state r.0 addr, r.1) e
step-IsConsistent (Op.add_address addr) db r e = stepped (add_address-IsConsistent addr db r) e
step-IsConsistent (Op.add_slot addr key) db r e = stepped (add_slot-IsConsistent addr key db r) e
step-IsConsistent (Op.prepare_access_list sender dest precompiles accesses) db r e =
    stepped
      (add_tuples-IsConsistent accesses _ (
        add_addresses-IsConsistent precompiles _
          (add_destination-IsConsistent dest _ (add_address-IsConsistent sender db r))))
      e
step-IsConsistent Op.snapshot db r e =
    stepped {db = (snapshot db).0}
      (make_snapshot-IsRecorded db.alloc (some db.state) (db.snapshot_counter + 1), r) e
step-IsConsistent (Op.revert id) db r e = revert-IsConsistent id db r e
step-IsConsistent (Op.add_log log) db r e = stepped (lists-IsRecorded db.state r.0 0 _ _ _ _, r.1) e
step-IsConsistent (Op.add_preimage hash preimage) db r e = cc
step-IsConsistent (Op.finalise delete_empty) db r e = stepped r e

-- After any calls that end without a panic, each snapshot of the chain still holds no nonce and no
-- code for an address that it did not touch, no balance where it did not destruct the address
-- either, and no slot of an untouched account of the allocation, if this was so before.
pub run-IsConsistent :
    (ops : List Op) (db : InMemoryStateDb) {db' : InMemoryStateDb}
    → IsConsistent db
    → run ops db ≡ some db'
    → IsConsistent db'
run-IsConsistent [] db r e = unfold run in stepped r e
run-IsConsistent (op ∷ ops) db r e =
    let (db1, first, others) = run-cons op ops db e in
    run-IsConsistent ops db1 (step-IsConsistent op db r first) others
