-- ===== src/OffTheChain/Make/Filling.antt =====
-- What `MakeOffTheChainStateDB` relies on of go-ethereum's state database.
use substate_cli.Prelude.{ℕ, ◌≡◌, true, false, ◌&&◌, some, ◌==◌, nat_eq, if◌then◌else◌}
use substate_cli.Prelude.Int.{ℤ}
use substate_cli.Types.{Address, Hash, Code}
use substate_cli.OffTheChain.Make.{ChainDb}

-- The states that the setters make from a new database, before it is committed.
pub data IsFilling (D : ChainDb) (new : D.State) : D.State → Type 0 where
  begins : IsFilling D new new
  sets_code :
      (a : Address) (h : Hash) (c : Code) (s : D.State)
      → IsFilling D new s
      → IsFilling D new (D.set_prehashed_code a h c s)
  sets_nonce :
      (a : Address) (n : ℕ) (s : D.State) → IsFilling D new s → IsFilling D new (D.set_nonce a n s)
  sets_balance :
      (a : Address) (n : ℤ) (s : D.State)
      → IsFilling D new s
      → IsFilling D new (D.set_balance a n s)
  sets_state :
      (a : Address) (k v : Hash) (s : D.State)
      → IsFilling D new s
      → IsFilling D new (D.set_state a k v s)

-- In these states a setter changes what its getter returns at its address. Setting the code makes the
-- account exist; the other setters are on an account that exists, since they also change the hash of
-- the code that is read of a missing one. `Commit` without deletion of empty accounts changes no
-- reads.
pub record IsLawful (D : ChainDb) (new : D.State) : Type 0 where
  pub read-set_prehashed_code :
      (a b : Address) (k : Hash) (h : Hash) (c : Code) (s : D.State)
      → IsFilling D new s
      → D.read b k (D.set_prehashed_code a h c s)
        ≡ (if a == b then record (D.read b k s) { code = c; code_hash = h } else D.read b k s)
  pub exist-set_prehashed_code :
      (a : Address) (h : Hash) (c : Code) (s : D.State)
      → IsFilling D new s
      → D.exist a (D.set_prehashed_code a h c s) ≡ true
  pub read-set_nonce :
      (a b : Address) (k : Hash) (n : ℕ) (s : D.State)
      → IsFilling D new s
      → D.exist a s ≡ true
      → D.read b k (D.set_nonce a n s)
        ≡ (if a == b then record (D.read b k s) { nonce = n } else D.read b k s)
  pub exist-set_nonce :
      (a : Address) (n : ℕ) (s : D.State) → IsFilling D new s → D.exist a (D.set_nonce a n s) ≡ true
  pub read-set_balance :
      (a b : Address) (k : Hash) (n : ℤ) (s : D.State)
      → IsFilling D new s
      → D.exist a s ≡ true
      → D.read b k (D.set_balance a n s)
        ≡ (if a == b then record (D.read b k s) { balance = n } else D.read b k s)
  pub exist-set_balance :
      (a : Address) (n : ℤ) (s : D.State)
      → IsFilling D new s
      → D.exist a (D.set_balance a n s) ≡ true
  pub read-set_state :
      (a b : Address) (j k : Hash) (v : Hash) (s : D.State)
      → IsFilling D new s
      → D.exist a s ≡ true
      → D.read b k (D.set_state a j v s)
        ≡ (if a == b && j == k then record (D.read b k s) { slot = v } else D.read b k s)
  pub exist-set_state :
      (a : Address) (j v : Hash) (s : D.State)
      → IsFilling D new s
      → D.exist a (D.set_state a j v s) ≡ true
  pub read-commit :
      (a : Address) (k : Hash) (s t : D.State)
      → IsFilling D new s
      → D.commit false s ≡ some t
      → D.read a k t ≡ D.read a k s
