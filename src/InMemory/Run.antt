-- ===== src/InMemory/Run.antt =====
-- Sequences of calls of the database, and the methods that are stubs.
use substate_cli.Prelude.{◌≡◌, refl, ℕ, Bool, Option, none, some, List, [], ◌∷◌}
use substate_cli.Types.{Address, Hash, zero_hash, Code}
use substate_cli.InMemory.Frame.{InMemoryStateDb}
use substate_cli.InMemory.Accounts.{
  create_account, sub_balance, add_balance, set_nonce, set_code, get_state, set_state, suicide,
}
use substate_cli.InMemory.Access.{
  add_refund, sub_refund, add_address_to_access_list, add_slot_to_access_list, prepare_access_list,
  add_log,
}
use substate_cli.InMemory.Op.{Op}
use substate_cli.InMemory.Journal.{snapshot, revert_to_snapshot}

-- `AddPreimage`, `ForEachStorage` and `IntermediateRoot` panic: `none`.
unfoldable pub add_preimage : Hash → Code → InMemoryStateDb → Option InMemoryStateDb
add_preimage hash preimage db = none

unfoldable pub for_each_storage :
    Address → (Hash → Hash → Bool) → InMemoryStateDb → Option InMemoryStateDb
for_each_storage addr visit db = none

unfoldable pub intermediate_root : Bool → InMemoryStateDb → Option (InMemoryStateDb × Hash)
intermediate_root delete_empty_objects db = none

-- `Prepare` and `Finalise` do nothing; `Commit` returns the zero hash and no error.
unfoldable pub prepare : Hash → ℕ → InMemoryStateDb → InMemoryStateDb
prepare tx_hash tx_index db = db

unfoldable pub finalise : Bool → InMemoryStateDb → InMemoryStateDb
finalise delete_empty_objects db = db

unfoldable pub commit : Bool → InMemoryStateDb → InMemoryStateDb × Hash
commit delete_empty_objects db = (db, zero_hash)

unfoldable pub step : Op → InMemoryStateDb → Option InMemoryStateDb
unfolding add_preimage finalise
step (Op.create_account addr) db = some (create_account addr db)
step (Op.sub_balance addr value) db = some (sub_balance addr value db)
step (Op.add_balance addr value) db = some (add_balance addr value db)
step (Op.set_nonce addr value) db = some (set_nonce addr value db)
step (Op.set_code addr code) db = some (set_code addr code db)
step (Op.add_refund gas) db = some (add_refund gas db)
step (Op.sub_refund gas) db = some (sub_refund gas db)
step (Op.get_state addr key) db = some (get_state addr key db).0
step (Op.set_state addr key value) db = some (set_state addr key value db)
step (Op.suicide addr) db = some (suicide addr db).0
step (Op.add_address addr) db = some (add_address_to_access_list addr db)
step (Op.add_slot addr key) db = some (add_slot_to_access_list addr key db)
step (Op.prepare_access_list sender dest precompiles accesses) db =
    some (prepare_access_list sender dest precompiles accesses db)
step Op.snapshot db = some (snapshot db).0
step (Op.revert id) db = revert_to_snapshot id db
step (Op.add_log log) db = some (add_log log db)
step (Op.add_preimage hash preimage) db = add_preimage hash preimage db
step (Op.finalise delete_empty) db = some (finalise delete_empty db)

-- A sequence of calls; a panic ends it.
unfoldable pub run : List Op → InMemoryStateDb → Option InMemoryStateDb
run [] db = some db
run (op ∷ ops) db = elim (step op db) [ none ↦ none | some db' ↦ run ops db' ]

-- A sequence that ends without a panic, taken apart.
pub run-cons :
    (op : Op) (ops : List Op) (db : InMemoryStateDb) {db' : InMemoryStateDb}
    → run (op ∷ ops) db ≡ some db'
    → (db1 : InMemoryStateDb) × (step op db ≡ some db1) × (run ops db1 ≡ some db')
unfolding run
run-cons op ops db {db'} e = go (step op db) refl e
  where
    go :
        (o : Option InMemoryStateDb)
        → step op db ≡ o
        → elim o [ none ↦ none | some db1 ↦ run ops db1 ] ≡ some db'
        → (db1 : InMemoryStateDb) × (step op db ≡ some db1) × (run ops db1 ≡ some db')
    go none p q = cc
    go (some db1) p q = (db1, p, q)
