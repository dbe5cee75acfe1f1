-- ===== src/InMemory/Refine/Writes.antt =====
-- Each write of the database changes the view as the contract says.
use mathlib.Core.List.{append_assoc}
use substate_cli.Prelude.{
  ◌∙◌, subst, Bool-cases, inl, inr, sym, ltb, ℕ, ◌≡◌, refl, true, false, if◌then◌else◌, [], ◌∷◌,
  arith, nat_eq,
}
use substate_cli.Prelude.Int.{ℤ, pos, ◌+ℤ◌, ◌-ℤ◌, is_zero}
use substate_cli.GoMap.{put, has}
use substate_cli.GoMap.Laws.{lookup-put}
use substate_cli.Types.{Slot, slot_eqb, zero_hash, Address, Hash, Code, Log, slot_eq, slot_eqb_iff}
use substate_cli.InMemory.Frame.{InMemoryStateDb}
use substate_cli.InMemory.Accounts.{
  get_committed_state, get_balance, sub_balance, add_balance, set_nonce, set_code, set_state,
  get_state, suicide, create_account,
}
use substate_cli.InMemory.Access.{
  collect_logs, add_refund, sub_refund, add_address_to_access_list, add_slot_to_access_list,
  add_log,
}
use substate_cli.InMemory.Accounts.Reads.{record_zero, get_state-cases}
use substate_cli.InMemory.Op.{Op}
use substate_cli.InMemory.Spec.{write, set_at, transfer}
use substate_cli.InMemory.Refine.{view, read_state, view_ext}

pub view-set_nonce :
    (addr : Address) (value : ℕ) (db : InMemoryStateDb)
    → view (set_nonce addr value db) ≡ write (Op.set_nonce addr value) (view db)
unfolding view write set_nonce has
view-set_nonce addr value db =
    view_ext _ _ (λ a. refl) (λ a. ground (arith, lookup-put a addr value db.state.nonces))
      (λ a. refl) (λ a k. refl) (λ a. ground (arith, lookup-put a addr 0 db.state.touched))
      (λ a. refl) (λ a. refl) (λ a k. refl) refl refl

pub view-set_code :
    (addr : Address) (code : Code) (db : InMemoryStateDb)
    → view (set_code addr code db) ≡ write (Op.set_code addr code) (view db)
unfolding view write set_code has
view-set_code addr code db =
    view_ext _ _ (λ a. refl) (λ a. refl)
      (λ a. ground (arith, lookup-put a addr code db.state.codes)) (λ a k. refl)
      (λ a. ground (arith, lookup-put a addr 0 db.state.touched)) (λ a. refl) (λ a. refl)
      (λ a k. refl) refl refl

pub view-suicide :
    (addr : Address) (db : InMemoryStateDb)
    → view (suicide addr db).0 ≡ write (Op.suicide addr) (view db)
unfolding view write suicide has
view-suicide addr db =
    view_ext _ _ (λ a. ground (arith, lookup-put a addr (pos 0) db.state.balances)) (λ a. refl)
      (λ a. refl) (λ a k. refl) (λ a. refl)
      (λ a. ground (arith, lookup-put a addr 0 db.state.suicided)) (λ a. refl) (λ a k. refl) refl
      refl

-- The write that both balance operations end with.
abbrev move : Address → ℤ → InMemoryStateDb → InMemoryStateDb
move addr new db = record db {
  state = record db.state {
    touched = put addr 0 db.state.touched;
    balances = put addr new db.state.balances;
  };
}

view-move :
    (addr : Address) (new : ℤ) (db : InMemoryStateDb)
    → view (move addr new db) ≡ record (view db) {
      balance = set_at addr new (view db).balance;
      exists = set_at addr true (view db).exists;
    }
unfolding view has
view-move addr new db =
    view_ext _ _ (λ a. ground (arith, lookup-put a addr new db.state.balances)) (λ a. refl)
      (λ a. refl) (λ a k. refl) (λ a. ground (arith, lookup-put a addr 0 db.state.touched))
      (λ a. refl) (λ a. refl) (λ a k. refl) refl refl

view-transfer :
    (addr : Address) (value new : ℤ) (db : InMemoryStateDb)
    → view (if is_zero value then db else move addr new db) ≡ transfer addr value new (view db)
view-transfer addr value new db =
    elim (is_zero value)
      as (λ b. view (if b then db else move addr new db) ≡ (
        if b then view db else record (view db) {
          balance = set_at addr new (view db).balance;
          exists = set_at addr true (view db).exists;
        })) [ true ↦ refl | false ↦ view-move addr new db ]

pub view-sub_balance :
    (addr : Address) (value : ℤ) (db : InMemoryStateDb)
    → view (sub_balance addr value db) ≡ write (Op.sub_balance addr value) (view db)
unfolding write sub_balance view
view-sub_balance addr value db = view-transfer addr value (get_balance addr db -ℤ value) db

pub view-add_balance :
    (addr : Address) (value : ℤ) (db : InMemoryStateDb)
    → view (add_balance addr value db) ≡ write (Op.add_balance addr value) (view db)
unfolding write add_balance view
view-add_balance addr value db = view-transfer addr value (get_balance addr db +ℤ value) db

pub view-set_state :
    (addr : Address) (key value : Hash) (db : InMemoryStateDb)
    → view (set_state addr key value db) ≡ write (Op.set_state addr key value) (view db)
unfolding view write set_state has
view-set_state addr key value db =
    view_ext _ _ (λ a. refl) (λ a. refl) (λ a. refl)
      (λ a k. ground (
        arith,
        lookup-put (record { addr = a; key = k }) (record { addr = addr; key = key }) value
            db.state.storage,
      ))
      (λ a. ground (arith, lookup-put a addr 0 db.state.touched)) (λ a. refl) (λ a. refl)
      (λ a k. refl) refl refl

read_state-record_zero :
    (addr a : Address) (key k : Hash) (db : InMemoryStateDb)
    → read_state a k (record_zero addr key db) ≡ (
        if slot_eqb (record { addr = addr; key = key }) (record { addr = a; key = k })
        then zero_hash
        else read_state a k db)
unfolding read_state get_committed_state record_zero
read_state-record_zero addr a key k db = ground (
  arith,
  lookup-put (record { addr = a; key = k }) (record { addr = addr; key = key }) zero_hash
      db.state.storage,
)

read_state-record_zero_same :
    (addr a : Address) (key k : Hash) (db : InMemoryStateDb)
    → read_state addr key db ≡ zero_hash
    → read_state a k (record_zero addr key db) ≡ read_state a k db
read_state-record_zero_same addr a key k db missing =
    let s : Slot = record { addr = addr; key = key } in
    let t : Slot = record { addr = a; key = k } in
    elim (Bool-cases (slot_eqb s t)) [
      | inl same ↦
          read_state-record_zero addr a key k db
          ∙ rw same (
              sym (
                subst (λ (u : Slot). read_state u.addr u.key db ≡ zero_hash)
                  ((slot_eqb_iff s t).0 same) missing))
      | inr other ↦ read_state-record_zero addr a key k db ∙ rw other
    ]

view-record_zero :
    (addr : Address) (key : Hash) (db : InMemoryStateDb)
    → read_state addr key db ≡ zero_hash
    → view (record_zero addr key db) ≡ view db
unfolding view record_zero has
view-record_zero addr key db missing =
    view_ext _ _ (λ a. refl) (λ a. refl) (λ a. refl)
      (λ a k. read_state-record_zero_same addr a key k db missing) (λ a. refl) (λ a. refl)
      (λ a. refl) (λ a k. refl) refl refl

-- A read changes the chain and not the view.
pub view-get_state :
    (addr : Address) (key : Hash) (db : InMemoryStateDb) → view (get_state addr key db).0 ≡ view db
view-get_state addr key db = elim (get_state-cases addr key db) [
  | inl same ↦ rw same
  | inr (recorded, missing, absent) ↦
      rw recorded
        (view-record_zero addr key db (unfold read_state get_committed_state in ground arith))
]

pub view-add_address :
    (addr : Address) (db : InMemoryStateDb)
    → view (add_address_to_access_list addr db) ≡ write (Op.add_address addr) (view db)
unfolding view write add_address_to_access_list has
view-add_address addr db =
    view_ext _ _ (λ a. refl) (λ a. refl) (λ a. refl) (λ a k. refl) (λ a. refl) (λ a. refl)
      (λ a. ground (arith, lookup-put a addr 0 db.state.accessed_accounts)) (λ a k. refl) refl refl

pub view-add_slot :
    (addr : Address) (key : Hash) (db : InMemoryStateDb)
    → view (add_slot_to_access_list addr key db) ≡ write (Op.add_slot addr key) (view db)
unfolding view write add_slot_to_access_list has
view-add_slot addr key db =
    view_ext _ _ (λ a. refl) (λ a. refl) (λ a. refl) (λ a k. refl) (λ a. refl) (λ a. refl)
      (λ a. ground (arith, lookup-put a addr 0 db.state.accessed_accounts))
      (λ a k. ground (
        arith,
        lookup-put (record { addr = a; key = k }) (record { addr = addr; key = key }) 0
            db.state.accessed_slots,
      ))
      refl refl

pub view-add_refund :
    (gas : ℕ) (db : InMemoryStateDb)
    → view (add_refund gas db) ≡ write (Op.add_refund gas) (view db)
unfolding view write add_refund
view-add_refund gas db = refl

pub view-sub_refund :
    (gas : ℕ) (db : InMemoryStateDb)
    → view (sub_refund gas db) ≡ write (Op.sub_refund gas) (view db)
unfolding view write sub_refund
view-sub_refund gas db = refl

pub view-create_account :
    (addr : Address) (db : InMemoryStateDb) → view (create_account addr db) ≡ view db
unfolding view create_account
view-create_account addr db = elim (Bool-cases (ltb 46051750 db.block_num)) [
  | inl y ↦ rw y
  | inr n ↦ rw n
]

pub view-add_log :
    (log : Log) (db : InMemoryStateDb) → view (add_log log db) ≡ write (Op.add_log log) (view db)
unfolding view write add_log
view-add_log log db =
    view_ext _ _ (λ a. refl) (λ a. refl) (λ a. refl) (λ a k. refl) (λ a. refl) (λ a. refl)
      (λ a. refl) (λ a k. refl)
      (sym (append_assoc (collect_logs db.parents) db.state.logs (log ∷ []))) refl
