-- ===== src/Types.antt =====
-- The values that the program works on: addresses, hashes, accounts, allocations and logs.
-- `common.Address`, `common.Hash`, `substate.SubstateAccount` and `types.Log` are types of go-ethereum: an
-- address and a hash are the numbers that their 20 and 32 bytes write, and of the records only
-- the fields are here that the program reads.
pub mod Maps
use substate_cli.Prelude.{ℕ, ◌≡◌, ◌↔◌, Bool, true, ◌&&◌, List, arith, Eq, nat_eqb, nat_eqb_iff}
use substate_cli.Prelude.Int.{ℤ}
use substate_cli.GoMap.{GoMap}

abbrev pub Address : Type 0
Address = ℕ

abbrev pub Hash : Type 0
Hash = ℕ

-- `common.Hash{}`
abbrev pub zero_hash : Hash
zero_hash = 0

-- `[]byte`
abbrev pub Code : Type 0
Code = List ℕ

pub record Slot : Type 0 where
  pub addr : Address
  pub key : Hash

abbrev pub slot_eqb : Slot → Slot → Bool
slot_eqb s t = nat_eqb s.addr t.addr && nat_eqb s.key t.key

pub slot_eqb_iff : (s t : Slot) → (slot_eqb s t ≡ true) ↔ (s ≡ t)
slot_eqb_iff s t = ground (arith, nat_eqb_iff s.addr t.addr, nat_eqb_iff s.key t.key)

instance abbrev pub slot_eq : Eq Slot
slot_eq = record { equal = slot_eqb; equal_iff = slot_eqb_iff }

-- The fields of `substate.SubstateAccount`.
pub record Account : Type 0 where
  pub nonce : ℕ
  pub balance : ℤ
  pub storage : GoMap Hash Hash
  pub code : Code

-- `substate.SubstateAlloc`
abbrev pub Alloc : Type 0
Alloc = GoMap Address Account

-- The fields of `types.Log` that the program reads.
pub record Log : Type 0 where
  pub address : Address
  pub topics : List Hash
  pub bytes : Code
