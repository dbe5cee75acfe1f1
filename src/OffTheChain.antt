-- ===== src/OffTheChain.antt =====
-- state/off_the_chain.go: the cache of code hashes, and the reads of contract codes.
-- `crypto.Keccak256Hash` and the reads of the key-value database are parameters.
pub mod Callers
pub mod Make
pub mod Tries
use substate_cli.Prelude.{
  ℕ, ◌≡◌, ◌≢◌, ◌↔◌, refl, sym, ◌∙◌, ap, inl, inr, Bool, true, false, ◌&&◌, Option, none, some, List,
  [], ◌∷◌, arith, Eq, ◌==◌, nat_eqb, nat_eqb_iff, nat_eq, length, ltb, if◌then◌else◌, Option-cases,
}
use substate_cli.GoMap.{GoMap, lookup, put}
use substate_cli.GoMap.Laws.{lookup-put, lookup-put_self}
use substate_cli.InMemory.Frame.{InMemoryStateDb}
use substate_cli.InMemory.Accounts.{get_code}
use substate_cli.Types.{Address, Hash, Code}

-- `code_key`
pub record CodeKey : Type 0 where
  pub addr : Address
  pub length : ℕ

abbrev pub code_key_eqb : CodeKey → CodeKey → Bool
code_key_eqb s t = nat_eqb s.addr t.addr && nat_eqb s.length t.length

pub code_key_eqb_iff : (s t : CodeKey) → (code_key_eqb s t ≡ true) ↔ (s ≡ t)
code_key_eqb_iff s t = ground (arith, nat_eqb_iff s.addr t.addr, nat_eqb_iff s.length t.length)

instance abbrev pub code_key_eq : Eq CodeKey
code_key_eq = record { equal = code_key_eqb; equal_iff = code_key_eqb_iff }

-- `code_hashes`
abbrev pub CodeHashes : Type 0
CodeHashes = GoMap CodeKey Hash

abbrev pub key_of : Address → Code → CodeKey
key_of addr code = record { addr = addr; length = length code }

module _ (keccak : Code → Hash) where
  -- `getHash`: the cache is asked by the address and the length of the code.
  unfoldable pub get_hash : Address → Code → CodeHashes → CodeHashes × Hash
  get_hash addr code code_hashes = elim (lookup (key_of addr code) code_hashes) [
    | some res ↦ (code_hashes, res)
    | none ↦ (put (key_of addr code) (keccak code) code_hashes, keccak code)
  ]

  -- The hashes that a sequence of requests gets.
  unfoldable pub get_hashes : List (Address × Code) → CodeHashes → List Hash
  get_hashes [] code_hashes = []
  get_hashes ((addr, code) ∷ rest) code_hashes =
      let (code_hashes', res) = get_hash addr code code_hashes in res ∷ get_hashes rest code_hashes'

  abbrev pub hashes_of : List (Address × Code) → List Hash
  hashes_of [] = []
  hashes_of ((addr, code) ∷ rest) = keccak code ∷ hashes_of rest

  -- Every request is for the one code that its address has at its length.
  abbrev pub IsOneCode : (Address → ℕ → Code) → List (Address × Code) → Type 0
  IsOneCode the_code [] = Unit
  IsOneCode the_code ((addr, code) ∷ rest) =
      (code ≡ the_code addr (length code)) × IsOneCode the_code rest

  abbrev pub IsSound : (Address → ℕ → Code) → CodeHashes → Type 0
  IsSound the_code code_hashes =
      (k : CodeKey) (h : Hash)
      → lookup k code_hashes ≡ some h
      → h ≡ keccak (the_code k.addr k.length)

  pub put-IsSound :
      (the_code : Address → ℕ → Code) (addr : Address) (code : Code) (code_hashes : CodeHashes)
      → code ≡ the_code addr (length code)
      → IsSound the_code code_hashes
      → IsSound the_code (put (key_of addr code) (keccak code) code_hashes)
  put-IsSound the_code addr code code_hashes one sound k h e = ground (
    arith,
    lookup-put k (key_of addr code) (keccak code) code_hashes,
    sound k h,
    ap keccak one,
    nat_eqb_iff addr k.addr,
    nat_eqb_iff (length code) k.length,
  )

  get_hashes_sound :
      (the_code : Address → ℕ → Code) (requests : List (Address × Code)) (code_hashes : CodeHashes)
      → IsOneCode the_code requests
      → IsSound the_code code_hashes
      → get_hashes requests code_hashes ≡ hashes_of requests
  unfolding get_hashes get_hash
  get_hashes_sound the_code [] code_hashes one sound = refl
  get_hashes_sound the_code ((addr, code) ∷ rest) code_hashes one sound =
      elim (Option-cases (lookup (key_of addr code) code_hashes)) [
        | inl missing ↦
            rw (missing, get_hash)
              (ap (◌∷◌ (keccak code)) (
                get_hashes_sound the_code rest (put (key_of addr code) (keccak code) code_hashes)
                  one.1 (put-IsSound the_code addr code code_hashes one.0 sound)))
        | inr (res, found) ↦
            let right : res ≡ keccak code =
              sound (key_of addr code) res found ∙ sym (ap keccak one.0) in
            let others = get_hashes_sound the_code rest code_hashes one.1 sound in
            rw (found, get_hash) (λ i. right i ∷ others i)
      ]

  -- While no address shows two codes of one length, every hash is that of the code asked for.
  pub get_hashes-keccak :
      (the_code : Address → ℕ → Code) (requests : List (Address × Code))
      → IsOneCode the_code requests
      → get_hashes requests [] ≡ hashes_of requests
  unfolding lookup
  get_hashes-keccak the_code requests one = get_hashes_sound the_code requests [] one (λ k h e. cc)

  get_hash-second :
      (addr : Address) (first second : Code) (code_hashes : CodeHashes)
      → lookup (key_of addr first) code_hashes ≡ none
      → length first ≡ length second
      → (get_hash addr second (get_hash addr first code_hashes).0).1 ≡ keccak first
  unfolding get_hash
  get_hash-second addr first second code_hashes missing same =
      let keys : key_of addr second ≡ key_of addr first =
        ap (λ (n : ℕ). record { addr = addr; length = n }) (sym same) in
      let hit : lookup (key_of addr second) (put (key_of addr first) (keccak first) code_hashes)
          ≡ some (keccak first) =
        rw keys (lookup-put_self (key_of addr first) (keccak first) code_hashes) in
      rw (missing, get_hash) (rw (hit, get_hash))

  -- An address that shows a second code of the length of the first gets the first code's hash for
  -- it, which is not the second's where the two hashes differ.
  pub get_hash-stale :
      (addr : Address) (first second : Code) (code_hashes : CodeHashes)
      → lookup (key_of addr first) code_hashes ≡ none
      → length first ≡ length second
      → keccak first ≢ keccak second
      → ((get_hash addr second (get_hash addr first code_hashes).0).1 ≡ keccak first)
        × ((get_hash addr second (get_hash addr first code_hashes).0).1 ≢ keccak second)
  get_hash-stale addr first second code_hashes missing same differ =
      let old = get_hash-second addr first second code_hashes missing same in
      (old, λ e. differ (sym old ∙ e))

module _ (keccak : Code → Hash) where
  -- `GetCodeHash` of the in-memory database, which asks the same cache.
  unfoldable pub get_code_hash : Address → InMemoryStateDb → CodeHashes → CodeHashes × Hash
  get_code_hash addr db code_hashes = get_hash keccak addr (get_code addr db) code_hashes

module _ (read_code : Hash → Code) where
  -- `ContractCode` and `ContractCodeWithPrefix`, whose reads differ: `none` is "not found".
  unfoldable pub contract_code : Hash → Hash → Option Code
  contract_code addr_hash code_hash =
      let code = read_code code_hash in if ltb 0 (length code) then some code else none

  -- `ContractCodeSize`: the size, and whether there is an error.
  unfoldable pub contract_code_size : Hash → Hash → ℕ × Bool
  contract_code_size addr_hash code_hash = elim (contract_code addr_hash code_hash) [
    | none ↦ (0, true)
    | some code ↦ (length code, false)
  ]

  -- The size is always that of the code read, and there is an error exactly if it is 0.
  pub contract_code_size_lem :
      (addr_hash code_hash : Hash)
      → contract_code_size addr_hash code_hash
        ≡ (length (read_code code_hash), length (read_code code_hash) == 0)
  unfolding contract_code_size contract_code
  contract_code_size_lem addr_hash code_hash = ground arith
