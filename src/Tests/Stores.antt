-- ===== src/Tests/Stores.antt =====
-- The databases that the program writes, as functions that remember what is written.
use substate_cli.Prelude.{
  List, Bool, true, false, not, ==_refl, ℕ, ◌+◌, ◌≡◌, refl, sym, ◌∙◌, ap, ◌&&◌, Option, none, some,
  [], ◌∷◌, arith, nat_eq, nat_eqb_iff, length, ◌==◌, if◌then◌else◌,
}
use mathlib.Core.Option.{some-injective}
use substate_cli.Prelude.Int.{pos}
use substate_cli.GoMap.{put, lookup, has}
use substate_cli.Types.{Address, Hash, zero_hash, Code, Account}
use substate_cli.InMemory.Frame.{make_in_memory_state_db}
use substate_cli.InMemory.Accounts.{get_nonce, get_balance, get_code, get_state}
use substate_cli.Tests.Records.{tx, old_account, input-Distinct, before-Distinct}
use substate_cli.OffTheChain.{code_key_eq, CodeHashes, IsSound}
use substate_cli.OffTheChain.Make.{Cell, ChainDb, make_off_the_chain_state_db, set_accounts}
use substate_cli.OffTheChain.Make.Filling.{IsLawful}
use substate_cli.OffTheChain.Make.Reads.{make_off_the_chain_state_db-reads}
use substate_cli.Replay.Code.{register_contract, AllMaps}
use substate_cli.Replay.Code.Interleaved.{
  Call, calls_of, task_calls, all_calls, takes_first, takes_later, Interleaving, ended, calls,
  register_all,
}
use substate_cli.Replay.Code.Registered.{first_registered, IsShown}
use substate_cli.Substate.{Substate}
use substate_cli.Replay.Config.{IsNumber, set_block_range, parse_uint}
use substate_cli.Replay.Actions.{TaskPool, returned, read_arguments}
use substate_cli.Replay.Actions.CodeDb as CodeDb
use substate_cli.Replay.Actions.CodeDb.{
  CodeStore, written, write_registry, write_contracts, get_code_action, get-get_code_action,
}

abbrev zero_cell : Cell
zero_cell = record {
  nonce = 0;
  balance = pos 0;
  code = [];
  code_hash = zero_hash;
  slot = zero_hash;
}

abbrev length_hash : Code → Hash
length_hash code = length code + 1

-- A state database: which accounts exist, and its getters.
abbrev Memory : Type 0
Memory = (Address → Bool) × (Address → Hash → Cell)

-- Every setter makes a missing account, whose code is empty and has a hash.
abbrev made_at : Address → Memory → Memory
made_at a s = (
  λ b. if a == b then true else s.0 b,
  λ b k. if a == b && not (s.0 a) then record (s.1 b k) { code_hash = length_hash [] } else s.1 b k,
)

abbrev changed_at : Address → (Hash → Cell → Cell) → Memory → Memory
changed_at a change s =
    let t = made_at a s in (t.0, λ b k. if a == b then change k (t.1 b k) else t.1 b k)

abbrev memory : ChainDb
memory = record {
  State = Memory;
  set_prehashed_code =
      λ a h c. changed_at a (λ k (cell : Cell). record cell { code = c; code_hash = h });
  set_nonce = λ a n. changed_at a (λ k (cell : Cell). record cell { nonce = n });
  set_balance = λ a n. changed_at a (λ k (cell : Cell). record cell { balance = n });
  set_state =
      λ a j v. changed_at a (λ k (cell : Cell). if j == k then record cell { slot = v } else cell);
  commit = λ delete_empty s. some s;
  read = λ a k s. s.1 a k;
  exist = λ a s. s.0 a;
}

abbrev new_state : Memory
new_state = (λ b. false, λ b k. zero_cell)

memory-IsLawful : IsLawful memory new_state
memory-IsLawful = record {
  read-set_prehashed_code = λ a b k h c s f. ground arith;
  exist-set_prehashed_code = λ a h c s f. rw (==_refl a) refl;
  read-set_nonce = λ a b k n s f x. ground (arith, x);
  exist-set_nonce = λ a n s f. rw (==_refl a) refl;
  read-set_balance = λ a b k n s f x. ground (arith, x);
  exist-set_balance = λ a n s f. rw (==_refl a) refl;
  read-set_state = λ a b j k v s f x. ground (arith, x);
  exist-set_state = λ a j v s f. rw (==_refl a) refl;
  read-commit = λ a k s t f e. ap (λ (u : Memory). u.1 a k) (sym (some-injective _ _ e));
}

abbrev no_hashes : CodeHashes
no_hashes = []

no_hashes-IsSound : IsSound length_hash (λ addr n. 96 ∷ []) no_hashes
unfolding lookup
no_hashes-IsSound k h e = cc

abbrev made : Memory
made = (set_accounts length_hash memory tx.input_alloc no_hashes new_state).1

made-some :
    (make_off_the_chain_state_db length_hash memory new_state tx.input_alloc no_hashes).1
    ≡ some made
unfolding make_off_the_chain_state_db
made-some = refl

make_off_the_chain_state_db-reads_example :
    ((made.1 8 4).nonce ≡ get_nonce 8 (make_in_memory_state_db tx.input_alloc 5))
    × ((made.1 8 4).balance ≡ get_balance 8 (make_in_memory_state_db tx.input_alloc 5))
    × ((made.1 8 4).code ≡ get_code 8 (make_in_memory_state_db tx.input_alloc 5))
    × ((made.1 8 4).slot ≡ (get_state 8 4 (make_in_memory_state_db tx.input_alloc 5)).1)
    × ((a : Account)
        → lookup 8 tx.input_alloc ≡ some a
        → (made.1 8 4).code_hash ≡ length_hash a.code)
make_off_the_chain_state_db-reads_example =
    make_off_the_chain_state_db-reads length_hash memory new_state memory-IsLawful
      (λ addr n. 96 ∷ []) tx.input_alloc no_hashes 5 8 4 refl input-Distinct
      (before-Distinct, (before-Distinct, tt)) (refl, (refl, tt)) no_hashes-IsSound made-some

-- A key-value store as the function of its reads.
abbrev code_store : CodeStore
code_store = record {
  State = ℕ → Option Code;
  Key = ℕ;
  key_of = λ a. a;
  open_file = λ s. some s;
  put = λ k c s. some (λ j. if k == j then some c else s j);
  get = λ k s. s k;
}

code_store-IsLawful : CodeDb.IsLawful code_store
code_store-IsLawful = record {
  get-open_file = λ k s t e. ap (λ (u : ℕ → Option Code). u k) (sym (some-injective _ _ e));
  get-put_same = λ k c s t e.
      ap (λ (u : ℕ → Option Code). u k) (sym (some-injective _ _ e))
      ∙ rw ((nat_eqb_iff k k).1 refl) refl;
  get-put_other = λ a b c s t other e.
      ap (λ (u : ℕ → Option Code). u b) (sym (some-injective _ _ e))
      ∙ ground (arith, nat_eqb_iff a b, other);
}

-- A transaction after which account 8 has a code of one byte.
abbrev leaves : ℕ → Substate
leaves byte = record tx {
  input_alloc = [];
  output_alloc = (8, record old_account { code = byte ∷ [] }) ∷ [];
}

-- The pool hands out two transactions of the range from 5 to 6, and then fails.
abbrev pool : TaskPool
pool = record {
  handed = λ first last.
      record { block = 5; tx = 0; substate = leaves 1 }
      ∷ record { block = 5; tx = 1; substate = leaves 2 }
      ∷ [];
  error = λ first last. some "stopped";
}

-- The second task registers its code first.
abbrev order : List Call
order = (8, 2 ∷ []) ∷ (8, 1 ∷ []) ∷ []

order-Interleaving : Interleaving (all_calls (leaves 1 ∷ leaves 2 ∷ [])) order
unfolding task_calls calls_of
order-Interleaving =
    calls (takes_later ((8, 1 ∷ []) ∷ []) (takes_first (8, 2 ∷ []) [] []))
      (calls (takes_first (8, 1 ∷ []) [] ([] ∷ [])) (ended tt))

leaves-AllMaps : AllMaps (leaves 1 ∷ leaves 2 ∷ [])
unfolding lookup
leaves-AllMaps = ((refl, tt), tt, ((refl, tt), tt, tt))

abbrev no_codes : ℕ → Option Code
no_codes k = none

abbrev arguments : List (List ℕ)
arguments = (b'5' ∷ []) ∷ (b'6' ∷ []) ∷ []

abbrev written_codes : ℕ → Option Code
written_codes = elim (get_code_action code_store pool order arguments no_codes) [
  | none ↦ no_codes
  | some (db, err) ↦ db
]

written_codes-some :
    get_code_action code_store pool order arguments no_codes
    ≡ some (written_codes, returned (some "stopped"))
unfolding get_code_action read_arguments write_contracts write_registry set_block_range parse_uint
    register_all register_contract lookup has put
written_codes-some = refl

five : IsNumber (b'5' ∷ []) 5
five = (refl, omega arith, refl)

six : IsNumber (b'6' ∷ []) 6
six = (refl, omega arith, refl)

get-get_code_action_example :
    (written_codes 8 ≡ written (first_registered 8 order) none)
    × IsShown 8 (leaves 1 ∷ leaves 2 ∷ []) (first_registered 8 order)
get-get_code_action_example =
    get-get_code_action code_store code_store-IsLawful pool (b'5' ∷ []) (b'6' ∷ []) 5 6 8 order
      no_codes written_codes (returned (some "stopped")) five six (omega arith) leaves-AllMaps
      order-Interleaving written_codes-some
