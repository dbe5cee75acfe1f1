-- ===== src/InMemory/Refine.antt =====
-- The view that the readers of the database give, for the contract of `Spec`.
pub mod Writes
pub mod AccessList
pub mod Step
use substate_cli.Prelude.{ℕ, ◌≡◌, Bool, Option, List, none, some, [], ◌∷◌, arith}
use substate_cli.Prelude.Int.{ℤ}
use substate_cli.GoMap.{lookup}
use substate_cli.Types.{Address, Hash, slot_eq, Code, Alloc, Log}
use substate_cli.InMemory.Frame.{Snapshot, InMemoryStateDb, chain, first_in, any_in}
use substate_cli.InMemory.Accounts.{
  get_balance, get_nonce, get_code, get_state, get_committed_state, exist, has_suicided,
}
use substate_cli.InMemory.Access.{
  address_in_access_list, slot_in_access_list, collect_logs, get_logs, get_refund,
}
use substate_cli.InMemory.Spec.{View, Spec}

-- The value that `get_state` returns.
unfoldable pub read_state : Address → Hash → InMemoryStateDb → Hash
unfolding first_in lookup
read_state addr key db =
    elim (first_in (λ s. lookup (record { addr = addr; key = key }) s.storage) (chain db)) [
      | some val ↦ val
      | none ↦ get_committed_state addr key db
    ]

pub get_state-read_state :
    (addr : Address) (key : Hash) (db : InMemoryStateDb)
    → (get_state addr key db).1 ≡ read_state addr key db
unfolding get_state read_state get_committed_state
get_state-read_state addr key db = ground arith

-- What the readers return.
unfoldable pub view : InMemoryStateDb → View
unfolding get_balance get_nonce get_code read_state get_committed_state exist has_suicided
    address_in_access_list slot_in_access_list collect_logs get_logs get_refund first_in any_in
view db = record {
  balance = λ a. get_balance a db;
  nonce = λ a. get_nonce a db;
  code = λ a. get_code a db;
  storage = λ a k. read_state a k db;
  exists = λ a. exist a db;
  suicided = λ a. has_suicided a db;
  listed = λ a. address_in_access_list a db;
  slot_listed = λ a k. (slot_in_access_list a k db).1;
  logs = get_logs db;
  refund = get_refund db;
}

-- A database with the given allocation and chain.
abbrev pub db_at : Alloc → Snapshot → List Snapshot → InMemoryStateDb
db_at alloc s parents = record {
  alloc = alloc;
  state = s;
  parents = parents;
  snapshot_counter = 0;
  touched_slots = [];
  created_account = [];
  block_num = 0;
}

-- The views of the snapshots behind the current one.
unfoldable pub saved_views : Alloc → List Snapshot → List (ℕ × View)
unfolding view
saved_views alloc [] = []
saved_views alloc (s ∷ rest) = (s.id, view (db_at alloc s rest)) ∷ saved_views alloc rest

unfoldable pub abstraction : InMemoryStateDb → Spec
unfolding saved_views
abstraction db = record {
  id = db.state.id;
  view = view db;
  saved = saved_views db.alloc db.parents;
  counter = db.snapshot_counter;
}

pub view_ext :
    (v w : View)
    → ((a : Address) → v.balance a ≡ w.balance a)
    → ((a : Address) → v.nonce a ≡ w.nonce a)
    → ((a : Address) → v.code a ≡ w.code a)
    → ((a : Address) (k : Hash) → v.storage a k ≡ w.storage a k)
    → ((a : Address) → v.exists a ≡ w.exists a)
    → ((a : Address) → v.suicided a ≡ w.suicided a)
    → ((a : Address) → v.listed a ≡ w.listed a)
    → ((a : Address) (k : Hash) → v.slot_listed a k ≡ w.slot_listed a k)
    → v.logs ≡ w.logs
    → v.refund ≡ w.refund
    → v ≡ w
view_ext v w b n c s e u l sl g r = λ i. record {
  balance = λ a. b a i;
  nonce = λ a. n a i;
  code = λ a. c a i;
  storage = λ a k. s a k i;
  exists = λ a. e a i;
  suicided = λ a. u a i;
  listed = λ a. l a i;
  slot_listed = λ a k. sl a k i;
  logs = g i;
  refund = r i;
}
