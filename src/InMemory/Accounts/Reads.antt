-- ===== src/InMemory/Accounts/Reads.antt =====
-- What a read of a storage slot does to the database.
use substate_cli.Prelude.{◌≡◌, ◌⊎◌, inl, inr, none, nat_eq, Option-cases, arith}
use substate_cli.GoMap.{lookup, put}
use substate_cli.Types.{Address, Hash, zero_hash, slot_eq}
use substate_cli.InMemory.Frame.{InMemoryStateDb, chain, first_in}
use substate_cli.InMemory.Accounts.{get_state}

-- The database with a zero recorded for a slot.
unfoldable pub record_zero : Address → Hash → InMemoryStateDb → InMemoryStateDb
record_zero addr key db = record db {
  state = record db.state {
    storage = put (record { addr = addr; key = key }) zero_hash db.state.storage;
  };
}

-- It changes nothing, or records a zero for a slot that no snapshot has, of an account that the
-- allocation does not have.
pub get_state-cases :
    (addr : Address) (key : Hash) (db : InMemoryStateDb)
    → ((get_state addr key db).0 ≡ db)
      ⊎ (((get_state addr key db).0 ≡ record_zero addr key db)
          × (first_in (λ s. lookup (record { addr = addr; key = key }) s.storage) (chain db) ≡ none)
          × (lookup addr db.alloc ≡ none))
unfolding get_state record_zero
get_state-cases addr key db =
    elim (Option-cases
      (first_in (λ s. lookup (record { addr = addr; key = key }) s.storage) (chain db))) [
        | inl missing ↦ elim (Option-cases (lookup addr db.alloc)) [
          | inl absent ↦ inr (ground arith, missing, absent)
          | inr (account, present) ↦ inl (ground arith)
        ]
        | inr (val, found) ↦ inl (ground arith)
      ]
