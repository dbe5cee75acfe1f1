-- ===== src/InMemory/Spine.antt =====
-- What every call but `Snapshot` and `RevertToSnapshot` leaves alone: the allocation, the
-- identifier of the current snapshot, the snapshots behind it and the counter.
use mathlib.Core.Option.{some-injective}
use substate_cli.Prelude.{
  subst, ℕ, ◌≡◌, refl, ◌∙◌, Bool, true, false, Option, none, some, List, [], ◌∷◌, inl, inr,
  if◌then◌else◌, ltb, nat_eq,
}
use substate_cli.Prelude.Int.{ℤ, is_zero}
use substate_cli.GoMap.{put}
use substate_cli.Types.{Address, Hash, Code, Log}
use substate_cli.InMemory.Frame.{InMemoryStateDb}
use substate_cli.InMemory.Accounts.{
  create_account, sub_balance, add_balance, set_nonce, set_code, get_state, set_state, suicide,
}
use substate_cli.InMemory.Accounts.Reads.{record_zero, get_state-cases}
use substate_cli.InMemory.Access.{
  AccessTuple, add_refund, sub_refund, add_address_to_access_list, add_slot_to_access_list,
  add_addresses, add_slots, add_tuples, add_destination, prepare_access_list, add_log,
}
use substate_cli.InMemory.Op.{Op}
use substate_cli.InMemory.Run.{step}

pub record SameSpine (db db' : InMemoryStateDb) : Type 0 where
  pub alloc : db'.alloc ≡ db.alloc
  pub id : db'.state.id ≡ db.state.id
  pub parents : db'.parents ≡ db.parents
  pub counter : db'.snapshot_counter ≡ db.snapshot_counter

same : (db : InMemoryStateDb) → SameSpine db db
same db = record { alloc = refl; id = refl; parents = refl; counter = refl }

then_same : {a b c : InMemoryStateDb} → SameSpine a b → SameSpine b c → SameSpine a c
then_same s t = record {
  alloc = t.alloc ∙ s.alloc;
  id = t.id ∙ s.id;
  parents = t.parents ∙ s.parents;
  counter = t.counter ∙ s.counter;
}

same-if :
    (b : Bool) (db db' : InMemoryStateDb) → SameSpine db db' → SameSpine db (if b then db else db')
same-if true db db' s = same db
same-if false db db' s = s

pub set_nonce-same :
    (addr : Address) (value : ℕ) (db : InMemoryStateDb) → SameSpine db (set_nonce addr value db)
unfolding set_nonce
set_nonce-same addr value db = record { alloc = refl; id = refl; parents = refl; counter = refl }

pub set_code-same :
    (addr : Address) (code : Code) (db : InMemoryStateDb) → SameSpine db (set_code addr code db)
unfolding set_code
set_code-same addr code db = record { alloc = refl; id = refl; parents = refl; counter = refl }

pub set_state-same :
    (addr : Address) (key : Hash) (value : Hash) (db : InMemoryStateDb)
    → SameSpine db (set_state addr key value db)
unfolding set_state
set_state-same addr key value db = record {
  alloc = refl;
  id = refl;
  parents = refl;
  counter = refl;
}

pub add_refund-same : (gas : ℕ) (db : InMemoryStateDb) → SameSpine db (add_refund gas db)
unfolding add_refund
add_refund-same gas db = record { alloc = refl; id = refl; parents = refl; counter = refl }

pub sub_refund-same : (gas : ℕ) (db : InMemoryStateDb) → SameSpine db (sub_refund gas db)
unfolding sub_refund
sub_refund-same gas db = record { alloc = refl; id = refl; parents = refl; counter = refl }

pub add_address_to_access_list-same :
    (addr : Address) (db : InMemoryStateDb) → SameSpine db (add_address_to_access_list addr db)
unfolding add_address_to_access_list
add_address_to_access_list-same addr db = record {
  alloc = refl;
  id = refl;
  parents = refl;
  counter = refl;
}

pub add_slot_to_access_list-same :
    (addr : Address) (key : Hash) (db : InMemoryStateDb)
    → SameSpine db (add_slot_to_access_list addr key db)
unfolding add_slot_to_access_list
add_slot_to_access_list-same addr key db = record {
  alloc = refl;
  id = refl;
  parents = refl;
  counter = refl;
}

pub add_log-same : (log : Log) (db : InMemoryStateDb) → SameSpine db (add_log log db)
unfolding add_log
add_log-same log db = record { alloc = refl; id = refl; parents = refl; counter = refl }

pub suicide-same : (addr : Address) (db : InMemoryStateDb) → SameSpine db (suicide addr db).0
unfolding suicide
suicide-same addr db = record { alloc = refl; id = refl; parents = refl; counter = refl }

pub record_zero-same :
    (addr : Address) (key : Hash) (db : InMemoryStateDb) → SameSpine db (record_zero addr key db)
unfolding record_zero
record_zero-same addr key db = record { alloc = refl; id = refl; parents = refl; counter = refl }

pub create_account-same :
    (addr : Address) (db : InMemoryStateDb) → SameSpine db (create_account addr db)
unfolding create_account
create_account-same addr db =
    elim (ltb 46051750 db.block_num)
      as (λ b.
        SameSpine db
          (if b then record db { created_account = put addr 0 db.created_account } else db)) [
            | true ↦ record { alloc = refl; id = refl; parents = refl; counter = refl }
            | false ↦ same db
          ]

pub sub_balance-same :
    (addr : Address) (value : ℤ) (db : InMemoryStateDb) → SameSpine db (sub_balance addr value db)
unfolding sub_balance
sub_balance-same addr value db =
    same-if (is_zero value) db _
      (record { alloc = refl; id = refl; parents = refl; counter = refl })

pub add_balance-same :
    (addr : Address) (value : ℤ) (db : InMemoryStateDb) → SameSpine db (add_balance addr value db)
unfolding add_balance
add_balance-same addr value db =
    same-if (is_zero value) db _
      (record { alloc = refl; id = refl; parents = refl; counter = refl })

pub get_state-same :
    (addr : Address) (key : Hash) (db : InMemoryStateDb) → SameSpine db (get_state addr key db).0
get_state-same addr key db = elim (get_state-cases addr key db) [
  | inl unchanged ↦ rw unchanged (same db)
  | inr (recorded, _, _) ↦ rw recorded (record_zero-same addr key db)
]

add_addresses-same :
    (addrs : List Address) (db : InMemoryStateDb) → SameSpine db (add_addresses addrs db)
unfolding add_addresses
add_addresses-same [] db = same db
add_addresses-same (addr ∷ rest) db =
    then_same (add_address_to_access_list-same addr db)
      (add_addresses-same rest (add_address_to_access_list addr db))

add_slots-same :
    (addr : Address) (keys : List Hash) (db : InMemoryStateDb)
    → SameSpine db (add_slots addr keys db)
unfolding add_slots
add_slots-same addr [] db = same db
add_slots-same addr (key ∷ rest) db =
    then_same (add_slot_to_access_list-same addr key db)
      (add_slots-same addr rest (add_slot_to_access_list addr key db))

add_tuples-same :
    (accesses : List AccessTuple) (db : InMemoryStateDb) → SameSpine db (add_tuples accesses db)
unfolding add_tuples
add_tuples-same [] db = same db
add_tuples-same (el ∷ rest) db =
    let listed = add_address_to_access_list el.address db in
    then_same (add_address_to_access_list-same el.address db) (
      then_same (add_slots-same el.address el.storage_keys listed)
        (add_tuples-same rest (add_slots el.address el.storage_keys listed)))

add_destination-same :
    (dest : Option Address) (db : InMemoryStateDb) → SameSpine db (add_destination dest db)
unfolding add_destination
add_destination-same none db = same db
add_destination-same (some dest) db = add_address_to_access_list-same dest db

pub prepare_access_list-same :
    (sender : Address) (dest : Option Address) (precompiles : List Address)
    (accesses : List AccessTuple) (db : InMemoryStateDb)
    → SameSpine db (prepare_access_list sender dest precompiles accesses db)
unfolding prepare_access_list
prepare_access_list-same sender dest precompiles accesses db =
    let a = add_address_to_access_list sender db in
    let b = add_destination dest a in
    then_same (add_address_to_access_list-same sender db) (
      then_same (add_destination-same dest a) (
        then_same (add_addresses-same precompiles b)
          (add_tuples-same accesses (add_addresses precompiles b))))

-- A call that is neither a snapshot nor a revert.
abbrev pub IsPlain : Op → Type 0
IsPlain Op.snapshot = ⊥
IsPlain (Op.revert id) = ⊥
IsPlain _ = Unit

pub step-same :
    (op : Op) (db : InMemoryStateDb) {db' : InMemoryStateDb}
    → IsPlain op
    → step op db ≡ some db'
    → SameSpine db db'
unfolding step
step-same Op.snapshot db plain e = absurd plain
step-same (Op.revert id) db plain e = absurd plain
step-same (Op.add_preimage hash preimage) db plain e = cc
step-same (Op.finalise delete_empty) db plain e =
    subst (SameSpine db) (some-injective _ _ e) (same db)
step-same (Op.create_account addr) db plain e =
    subst (SameSpine db) (some-injective _ _ e) (create_account-same addr db)
step-same (Op.sub_balance addr value) db plain e =
    subst (SameSpine db) (some-injective _ _ e) (sub_balance-same addr value db)
step-same (Op.add_balance addr value) db plain e =
    subst (SameSpine db) (some-injective _ _ e) (add_balance-same addr value db)
step-same (Op.set_nonce addr value) db plain e =
    subst (SameSpine db) (some-injective _ _ e) (set_nonce-same addr value db)
step-same (Op.set_code addr code) db plain e =
    subst (SameSpine db) (some-injective _ _ e) (set_code-same addr code db)
step-same (Op.add_refund gas) db plain e =
    subst (SameSpine db) (some-injective _ _ e) (add_refund-same gas db)
step-same (Op.sub_refund gas) db plain e =
    subst (SameSpine db) (some-injective _ _ e) (sub_refund-same gas db)
step-same (Op.get_state addr key) db plain e =
    subst (SameSpine db) (some-injective _ _ e) (get_state-same addr key db)
step-same (Op.set_state addr key value) db plain e =
    subst (SameSpine db) (some-injective _ _ e) (set_state-same addr key value db)
step-same (Op.suicide addr) db plain e =
    subst (SameSpine db) (some-injective _ _ e) (suicide-same addr db)
step-same (Op.add_address addr) db plain e =
    subst (SameSpine db) (some-injective _ _ e) (add_address_to_access_list-same addr db)
step-same (Op.add_slot addr key) db plain e =
    subst (SameSpine db) (some-injective _ _ e) (add_slot_to_access_list-same addr key db)
step-same (Op.prepare_access_list sender dest precompiles accesses) db plain e =
    subst (SameSpine db) (some-injective _ _ e)
      (prepare_access_list-same sender dest precompiles accesses db)
step-same (Op.add_log log) db plain e =
    subst (SameSpine db) (some-injective _ _ e) (add_log-same log db)
