-- ===== src/OffTheChain/Tries.antt =====
-- The rest of state/off_the_chain.go: the tries that `offTheChainDB` opens for go-ethereum's state
-- database, and that database, empty and filled. Tries and databases are go-ethereum's.
use Prim.Native.String.{String}
use substate_cli.Prelude.{Option, none, some, ◌⊎◌, inl, inr}
use substate_cli.Types.{Hash, zero_hash, Code, Alloc}
use substate_cli.OffTheChain.{CodeHashes}
use substate_cli.OffTheChain.Make.{ChainDb, make_off_the_chain_state_db}

-- `trie.Database`, `trie.SecureTrie` and their functions; a text is an error.
pub record Tries : Type 1 where
  pub Database : Type 0
  pub SecureTrie : Type 0
  -- another type of trie
  pub OtherTrie : Type 0
  -- `trie.NewDatabaseWithConfig(rawdb.NewMemoryDatabase(), &trie.Config{})`
  pub new_database : Database
  pub new_secure : Hash → Database → String ⊎ SecureTrie
  pub copy : SecureTrie → SecureTrie

module _ (L : Tries) where
  -- `offTheChainDB`
  pub record OffTheChainDb : Type 0 where
    pub db : L.Database

  -- `OpenTrie`
  unfoldable pub open_trie : OffTheChainDb → Hash → String ⊎ L.SecureTrie
  open_trie db root = elim (L.new_secure root db.db) [ inl err ↦ inl err | inr tr ↦ inr tr ]

  -- `OpenStorageTrie`
  unfoldable pub open_storage_trie : OffTheChainDb → Hash → Hash → String ⊎ L.SecureTrie
  open_storage_trie db addr_hash root = elim (L.new_secure root db.db) [
    | inl err ↦ inl err
    | inr tr ↦ inr tr
  ]

  -- `CopyTrie`; `none` is the panic on another type of trie.
  unfoldable pub copy_trie : OffTheChainDb → L.SecureTrie ⊎ L.OtherTrie → Option L.SecureTrie
  copy_trie db (inl t) = some (L.copy t)
  copy_trie db (inr t) = none

  -- `TrieDB`
  unfoldable pub trie_db : OffTheChainDb → L.Database
  trie_db db = db.db

  module _ (D : ChainDb) (state_new : Hash → OffTheChainDb → String ⊎ D.State) where
    -- `NewOffTheChainStateDB`; `none` is its panic.
    unfoldable pub new_off_the_chain_state_db : Option D.State
    new_off_the_chain_state_db = elim (state_new zero_hash (record { db = L.new_database })) [
      | inl err ↦ none
      | inr statedb ↦ some statedb
    ]

    -- `MakeOffTheChainStateDB`, with the empty database that it makes first.
    unfoldable pub make_filled : (Code → Hash) → Alloc → CodeHashes → CodeHashes × Option D.State
    unfolding new_off_the_chain_state_db make_off_the_chain_state_db
    make_filled keccak alloc code_hashes = elim new_off_the_chain_state_db [
      | none ↦ (code_hashes, none)
      | some statedb ↦ make_off_the_chain_state_db keccak D statedb alloc code_hashes
    ]
