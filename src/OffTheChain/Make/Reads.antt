-- ===== src/OffTheChain/Make/Reads.antt =====
-- What the database that `MakeOffTheChainStateDB` returns reads.
use substate_cli.Prelude.{
  ℕ, ◌≡◌, refl, sym, ◌∙◌, ap, inl, inr, true, Option, none, some, [], ◌∷◌, arith, ◌==◌, nat_eq,
  nat_eqb_iff, if◌then◌else◌, length, Bool-cases, Option-cases,
}
use substate_cli.Prelude.Int.{pos}
use substate_cli.GoMap.{GoMap, lookup, get_or, Distinct}
use substate_cli.Types.{Address, Hash, Code, zero_hash, Account, Alloc}
use substate_cli.InMemory.Frame.{make_in_memory_state_db, first_in}
use substate_cli.InMemory.Accounts.{get_nonce, get_balance, get_code, get_state}
use substate_cli.Types.Maps.{HasMaps}
use substate_cli.OffTheChain.{code_key_eq, CodeHashes, key_of, get_hash, IsSound, put-IsSound}
use substate_cli.OffTheChain.Make.Filling.{
  IsFilling, begins, sets_code, sets_nonce, sets_balance, sets_state, IsLawful,
}
use substate_cli.OffTheChain.Make.{
  Cell, ChainDb, set_storage, set_accounts, make_off_the_chain_state_db,
}

module _ (keccak : Code → Hash) (D : ChainDb) where
  -- The codes of the allocation are those that their addresses have at their lengths.
  abbrev pub CodesAre : (Address → ℕ → Code) → Alloc → Type 0
  CodesAre the_code [] = Unit
  CodesAre the_code ((addr, a) ∷ alloc) =
      (a.code ≡ the_code addr (length a.code)) × CodesAre the_code alloc

  -- What an account leaves of a cell.
  abbrev filled : Option Account → Hash → Cell → Cell
  filled none k c = c
  filled (some a) k c = record {
    nonce = a.nonce;
    balance = a.balance;
    code = a.code;
    code_hash = keccak a.code;
    slot = get_or k a.storage c.slot;
  }

  module _ (new : D.State) (lawful : IsLawful D new) where
    read-set_storage :
        (addr b : Address) (k : Hash) (m : GoMap Hash Hash) (s : D.State)
        → IsFilling D new s
        → D.exist addr s ≡ true
        → Distinct m
        → D.read b k (set_storage keccak D addr m s) ≡ (
            if addr == b
            then record (D.read b k s) { slot = get_or k m (D.read b k s).slot }
            else D.read b k s)
    unfolding set_storage get_or lookup
    read-set_storage addr b k [] s f x d = ground arith
    read-set_storage addr b k ((j, v) ∷ m) s f x d =
        read-set_storage addr b k m (D.set_state addr j v s) (sets_state addr j v s f)
          (lawful.exist-set_state addr j v s f) d.1
        ∙ rw (lawful.read-set_state addr b j k v s f x) (ground (arith, d.0, nat_eqb_iff j k))

    set_storage-IsFilling :
        (addr : Address) (m : GoMap Hash Hash) (s : D.State)
        → IsFilling D new s
        → IsFilling D new (set_storage keccak D addr m s)
    unfolding set_storage
    set_storage-IsFilling addr [] s f = f
    set_storage-IsFilling addr ((j, v) ∷ m) s f =
        set_storage-IsFilling addr m (D.set_state addr j v s) (sets_state addr j v s f)

    -- An account's code, nonce and balance are set.
    abbrev with_account : Address → Account → Hash → D.State → D.State
    with_account addr a hash s =
        D.set_balance addr a.balance
          (D.set_nonce addr a.nonce (D.set_prehashed_code addr hash a.code s))

    with_account-IsFilling :
        (addr : Address) (a : Account) (hash : Hash) (s : D.State)
        → IsFilling D new s
        → IsFilling D new (with_account addr a hash s)
    with_account-IsFilling addr a hash s f =
        sets_balance addr a.balance _ (sets_nonce addr a.nonce _ (sets_code addr hash a.code s f))

    get_hash-right :
        (the_code : Address → ℕ → Code) (addr : Address) (code : Code) (code_hashes : CodeHashes)
        → code ≡ the_code addr (length code)
        → IsSound keccak the_code code_hashes
        → ((get_hash keccak addr code code_hashes).1 ≡ keccak code)
          × IsSound keccak the_code (get_hash keccak addr code code_hashes).0
    unfolding get_hash
    get_hash-right the_code addr code code_hashes one sound =
        elim (Option-cases (lookup (key_of addr code) code_hashes)) [
          | inl missing ↦
              rw (missing, get_hash)
                (refl, put-IsSound keccak the_code addr code code_hashes one sound)
          | inr (res, found) ↦
              rw (found, get_hash) (sound (key_of addr code) res found ∙ sym (ap keccak one), sound)
        ]

    read-set_account :
        (addr b : Address) (k : Hash) (a : Account) (hash : Hash) (s : D.State)
        → IsFilling D new s
        → Distinct a.storage
        → hash ≡ keccak a.code
        → D.read b k (set_storage keccak D addr a.storage (with_account addr a hash s))
          ≡ (if addr == b then filled (some a) k (D.read b k s) else D.read b k s)
    read-set_account addr b k a hash s f d h =
        let s1 = D.set_prehashed_code addr hash a.code s in
        let f1 = sets_code addr hash a.code s f in
        let s2 = D.set_nonce addr a.nonce s1 in
        let f2 = sets_nonce addr a.nonce s1 f1 in
        let f3 = sets_balance addr a.balance s2 f2 in
        ground (
          arith,
          read-set_storage addr b k a.storage (D.set_balance addr a.balance s2) f3
              (lawful.exist-set_balance addr a.balance s2 f2) d,
          lawful.read-set_balance addr b k a.balance s2 f2
              (lawful.exist-set_nonce addr a.nonce s1 f1),
          lawful.read-set_nonce addr b k a.nonce s1 f1
              (lawful.exist-set_prehashed_code addr hash a.code s f),
          lawful.read-set_prehashed_code addr b k hash a.code s f,
          h,
        )

    read-set_accounts :
        (the_code : Address → ℕ → Code) (b : Address) (k : Hash) (alloc : Alloc)
        (code_hashes : CodeHashes) (s : D.State)
        → IsFilling D new s
        → Distinct alloc
        → HasMaps alloc
        → CodesAre the_code alloc
        → IsSound keccak the_code code_hashes
        → D.read b k (set_accounts keccak D alloc code_hashes s).1
          ≡ filled (lookup b alloc) k (D.read b k s)
    unfolding set_accounts lookup
    read-set_accounts the_code b k [] code_hashes s f d m c sound = refl
    read-set_accounts the_code b k ((addr, a) ∷ alloc) code_hashes s f d m c sound =
        let (hash, sound') = get_hash-right the_code addr a.code code_hashes c.0 sound in
        let f' =
          set_storage-IsFilling addr a.storage _
            (with_account-IsFilling addr a (get_hash keccak addr a.code code_hashes).1 s f) in
        read-set_accounts the_code b k alloc (get_hash keccak addr a.code code_hashes).0 _ f' d.1
          m.1 c.1 sound'
        ∙ rw (read-set_account addr b k a (get_hash keccak addr a.code code_hashes).1 s f m.0 hash)
            (elim (Bool-cases (addr == b)) [
              | inl here ↦
                  let absent : lookup b alloc ≡ none =
                    ap (λ x. lookup x alloc) (sym ((nat_eqb_iff addr b).0 here)) ∙ d.0 in
                  rw (here, absent) refl
              | inr other ↦ rw other refl
            ])

    set_accounts-IsFilling :
        (alloc : Alloc) (code_hashes : CodeHashes) (s : D.State)
        → IsFilling D new s
        → IsFilling D new (set_accounts keccak D alloc code_hashes s).1
    unfolding set_accounts
    set_accounts-IsFilling [] code_hashes s f = f
    set_accounts-IsFilling ((addr, a) ∷ alloc) code_hashes s f =
        set_accounts-IsFilling alloc (get_hash keccak addr a.code code_hashes).0 _ (
          set_storage-IsFilling addr a.storage _
            (with_account-IsFilling addr a (get_hash keccak addr a.code code_hashes).1 s f))

    in_memory_reads :
        (alloc : Alloc) (block : ℕ) (b : Address) (k : Hash) (c : Cell)
        → c ≡ record {
          nonce = 0;
          balance = pos 0;
          code = [];
          code_hash = zero_hash;
          slot = zero_hash;
        }
        → ((filled (lookup b alloc) k c).nonce ≡ get_nonce b (make_in_memory_state_db alloc block))
          × ((filled (lookup b alloc) k c).balance
              ≡ get_balance b (make_in_memory_state_db alloc block))
          × ((filled (lookup b alloc) k c).code ≡ get_code b (make_in_memory_state_db alloc block))
          × ((filled (lookup b alloc) k c).slot
              ≡ (get_state b k (make_in_memory_state_db alloc block)).1)
    unfolding get_nonce get_balance get_code get_state make_in_memory_state_db first_in lookup
        get_or
    in_memory_reads alloc block b k c e = rw e (elim (Option-cases (lookup b alloc)) [
      | inl absent ↦ rw absent (refl, refl, refl, refl)
      | inr (a, present) ↦ rw present (refl, refl, refl, ground arith)
    ])

    -- Let the database obey its laws from the new one on, which starts empty, the allocation have no
    -- key twice and no account of it a slot twice, every code be the one that its address has at its length, and the cache of
    -- hashes be right for these codes. If the database is made, its getters return for every address
    -- and slot what those of the in-memory database return that is made from the same allocation,
    -- and for an account of the allocation the hash of its code.
    pub make_off_the_chain_state_db-reads :
        (the_code : Address → ℕ → Code) (alloc : Alloc) (code_hashes : CodeHashes) (block : ℕ)
        (b : Address) (k : Hash) {db : D.State}
        → D.read b k new ≡ record {
          nonce = 0;
          balance = pos 0;
          code = [];
          code_hash = zero_hash;
          slot = zero_hash;
        }
        → Distinct alloc
        → HasMaps alloc
        → CodesAre the_code alloc
        → IsSound keccak the_code code_hashes
        → (make_off_the_chain_state_db keccak D new alloc code_hashes).1 ≡ some db
        → ((D.read b k db).nonce ≡ get_nonce b (make_in_memory_state_db alloc block))
          × ((D.read b k db).balance ≡ get_balance b (make_in_memory_state_db alloc block))
          × ((D.read b k db).code ≡ get_code b (make_in_memory_state_db alloc block))
          × ((D.read b k db).slot ≡ (get_state b k (make_in_memory_state_db alloc block)).1)
          × ((a : Account) → lookup b alloc ≡ some a → (D.read b k db).code_hash ≡ keccak a.code)
    unfolding make_off_the_chain_state_db
    make_off_the_chain_state_db-reads the_code alloc code_hashes block b k {db} zero_cell d m c
          sound made =
        let cell : D.read b k db ≡ filled (lookup b alloc) k (D.read b k new) =
          lawful.read-commit b k (set_accounts keccak D alloc code_hashes new).1 db
            (set_accounts-IsFilling alloc code_hashes new begins) made
          ∙ read-set_accounts the_code b k alloc code_hashes new begins d m c sound in
        let (n, l, o, v) = in_memory_reads alloc block b k (D.read b k new) zero_cell in
        (
          ap (λ (x : Cell). x.nonce) cell ∙ n,
          ap (λ (x : Cell). x.balance) cell ∙ l,
          ap (λ (x : Cell). x.code) cell ∙ o,
          ap (λ (x : Cell). x.slot) cell ∙ v,
          λ a present.
              ap (λ (x : Cell). x.code_hash) cell
              ∙ ap (λ p. (filled p k (D.read b k new)).code_hash) present,
        )
