-- ===== src/OffTheChain/Make.antt =====
-- `MakeOffTheChainStateDB`: go-ethereum's state database, filled from an allocation.
-- That database is a parameter, with its setters, its getters, and what they do to one another.
pub mod Filling
pub mod Reads
use substate_cli.Prelude.{
  ℕ, ◌≡◌, refl, sym, ◌∙◌, ap, inl, inr, Bool, false, ◌&&◌, Option, none, some, [], ◌∷◌, arith, ◌==◌,
  nat_eq, nat_eqb_iff, if◌then◌else◌, length, Bool-cases, Option-cases,
}
use substate_cli.Prelude.Int.{ℤ, pos}
use substate_cli.GoMap.{GoMap, lookup, get_or, Distinct}
use substate_cli.Types.{Address, Hash, Code, zero_hash, Account, Alloc}
use substate_cli.InMemory.Frame.{make_in_memory_state_db, first_in}
use substate_cli.InMemory.Accounts.{get_nonce, get_balance, get_code, get_state}
use substate_cli.Types.Maps.{HasMaps}
use substate_cli.OffTheChain.{code_key_eq, CodeHashes, key_of, get_hash, IsSound, put-IsSound}

-- What the getters return for an address and a slot.
pub record Cell : Type 0 where
  pub nonce : ℕ
  pub balance : ℤ
  pub code : Code
  pub code_hash : Hash
  pub slot : Hash

-- `state.StateDB` of go-ethereum. `read` stands for its getters, `exist` for `Exist`; `none` is an error
-- of `Commit`.
pub record ChainDb : Type 1 where
  pub State : Type 0
  pub set_prehashed_code : Address → Hash → Code → State → State
  pub set_nonce : Address → ℕ → State → State
  pub set_balance : Address → ℤ → State → State
  pub set_state : Address → Hash → Hash → State → State
  pub commit : Bool → State → Option State
  pub read : Address → Hash → State → Cell
  pub exist : Address → State → Bool

module _ (keccak : Code → Hash) (D : ChainDb) where
  -- `for k, v := range a.Storage { statedb.SetState(addr, k, v) }`
  unfoldable pub set_storage : Address → GoMap Hash Hash → D.State → D.State
  set_storage addr [] statedb = statedb
  set_storage addr ((k, v) ∷ storage) statedb =
      set_storage addr storage (D.set_state addr k v statedb)

  -- `for addr, a := range alloc { ... }`
  unfoldable pub set_accounts : Alloc → CodeHashes → D.State → CodeHashes × D.State
  unfolding set_storage get_hash
  set_accounts [] code_hashes statedb = (code_hashes, statedb)
  set_accounts ((addr, a) ∷ alloc) code_hashes statedb =
      let (code_hashes', hash) = get_hash keccak addr a.code code_hashes in
      let statedb1 = D.set_prehashed_code addr hash a.code statedb in
      let statedb2 = D.set_balance addr a.balance (D.set_nonce addr a.nonce statedb1) in
      set_accounts alloc code_hashes' (set_storage addr a.storage statedb2)

  -- `MakeOffTheChainStateDB`, on the empty database of `NewOffTheChainStateDB`; `none` is its panic.
  unfoldable pub make_off_the_chain_state_db :
      D.State → Alloc → CodeHashes → CodeHashes × Option D.State
  unfolding set_accounts
  make_off_the_chain_state_db new alloc code_hashes =
      let (code_hashes', statedb) = set_accounts alloc code_hashes new in
      (code_hashes', D.commit false statedb)
