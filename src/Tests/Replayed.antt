-- ===== src/Tests/Replayed.antt =====
-- The tasks of the two replays, with a machine that makes a few calls of the in-memory database.
use Prim.Native.String.{String}
use substate_cli.Prelude.{
  ℕ, ◌+◌, ◌≡◌, refl, ap, Bool, true, false, ◌&&◌, Option, none, some, List, [], ◌∷◌, arith, nat_eq,
  nat_eqb_iff, length, ◌==◌,
}
use substate_cli.Prelude.Int.{pos, int_eqb, int_eqb_iff}
use substate_cli.GoMap.{GoMap, put, get_or, lookup, range, has, Distinct}
use substate_cli.Types.{Address, Hash, Account, Alloc}
use substate_cli.Substate.{Substate, Result}
use substate_cli.InMemory.Frame.{InMemoryStateDb, make_in_memory_state_db, first_in, any_in}
use substate_cli.InMemory.Accounts.{
  set_nonce, set_state, get_nonce, get_balance, get_code, has_suicided,
}
use substate_cli.InMemory.Access.{get_logs}
use substate_cli.InMemory.Journal.{snapshot, revert_to_snapshot}
use substate_cli.InMemory.Op.{Op}
use substate_cli.InMemory.Run.{step, run, prepare, finalise}
use substate_cli.InMemory.Effects.{
  get_substate_post_alloc, get_effects, collect_touched, merge_effect, drop_suicided, update_entry,
  account_effect, report_storage,
}
use substate_cli.InMemory.Effects.Merged.{seen}
use substate_cli.Replay.Fork.{bytes_equal}
use substate_cli.Replay.Fork.Verdict.{bytes_equal_iff}
use substate_cli.Replay.Evm.{Applied, Machine, ChainConfig, Hashing}
use substate_cli.Replay.Task.{
  Outcome, replay_task, after_apply, note_hashes, note_hash, settle, evm_result,
  compare_with_record, hash_01, hash_02,
}
use substate_cli.Replay.Task.InMemory.{
  in_memory_state_db, OnlyCalls, replay_in_memory, applied_to, replay_in_memory-some,
}
use substate_cli.Replay.Task.InMemory.Accepts.{Agrees, replay_in_memory-accepts}

-- In the place of go-ethereum's equality of allocations: entry by entry.
abbrev slots_equal : GoMap Hash Hash → GoMap Hash Hash → Bool
slots_equal [] [] = true
slots_equal ((k, v) ∷ m) ((l, w) ∷ n) = k == l && v == w && slots_equal m n
slots_equal _ _ = false

abbrev accounts_equal : Account → Account → Bool
accounts_equal v w =
    v.nonce == w.nonce
    && int_eqb v.balance w.balance
    && slots_equal v.storage w.storage
    && bytes_equal v.code w.code

abbrev pub allocs_equal : Alloc → Alloc → Bool
allocs_equal [] [] = true
allocs_equal ((a, v) ∷ m) ((b, w) ∷ n) = a == b && accounts_equal v w && allocs_equal m n
allocs_equal _ _ = false

slots_equal_sound : (m n : GoMap Hash Hash) → slots_equal m n ≡ true → m ≡ n
slots_equal_sound [] [] h = refl
slots_equal_sound [] (y ∷ n) h = absurd cc
slots_equal_sound (x ∷ m) [] h = absurd cc
slots_equal_sound ((k, v) ∷ m) ((l, w) ∷ n) h =
    let rest = slots_equal_sound m n (ground arith) in
    ground (arith, nat_eqb_iff k l, nat_eqb_iff v w)

accounts_equal_sound : (v w : Account) → accounts_equal v w ≡ true → v ≡ w
accounts_equal_sound v w h =
    let slots = slots_equal_sound v.storage w.storage (ground arith) in
    ground (
      arith,
      nat_eqb_iff v.nonce w.nonce,
      int_eqb_iff v.balance w.balance,
      bytes_equal_iff v.code w.code,
    )

allocs_equal_sound : (m n : Alloc) → allocs_equal m n ≡ true → m ≡ n
allocs_equal_sound [] [] h = refl
allocs_equal_sound [] (y ∷ n) h = absurd cc
allocs_equal_sound (x ∷ m) [] h = absurd cc
allocs_equal_sound ((a, v) ∷ m) ((b, w) ∷ n) h =
    let rest = allocs_equal_sound m n (ground arith) in
    let here = accounts_equal_sound v w (ground arith) in ground (arith, nat_eqb_iff a b)

allocs_equal-seen :
    (m n : Alloc) → allocs_equal m n ≡ true → (a : Address) (k : Hash) → seen a k m ≡ seen a k n
allocs_equal-seen m n h a k = ap (seen a k) (allocs_equal_sound m n h)

abbrev pub results_equal : Result → Result → Bool
results_equal r s = r.status == s.status && r.gas_used == s.gas_used

-- A machine that sets a nonce and a slot, and another slot that it reverts to its own snapshot.
abbrev calls : InMemoryStateDb → List Op
calls db =
    Op.set_nonce 7 2
    ∷ Op.set_state 7 1 5
    ∷ Op.snapshot
    ∷ Op.set_state 7 2 6
    ∷ Op.revert db.state.id
    ∷ []

abbrev pub machine : Machine InMemoryStateDb
machine context hash_of msg gas db = elim (run (calls db) db) [
  | none ↦ none
  | some db' ↦ some (db', 4 ∷ [], Applied.executed false 21 "")
]

machine-OnlyCalls : OnlyCalls machine
machine-OnlyCalls context hash_of msg gas db db' nums applied e =
    (calls db, ground arith, λ n h. (tt, (tt, (tt, (tt, (h, tt))))))

abbrev pub hashing : Hashing
hashing = record { create_address = λ a n. a + n; logs_bloom = length }

abbrev pub chain_config : ChainConfig
chain_config = record { is_byzantium = λ n. true; is_eip158 = λ n. true; is_london = λ n. false }

abbrev sender : ℕ → GoMap Hash Hash → Account
sender nonce storage = record { nonce = nonce; balance = pos 9; storage = storage; code = 96 ∷ [] }

abbrev pub recording : Substate
recording = record {
  input_alloc = (7, sender 1 ((1, 9) ∷ (3, 4) ∷ [])) ∷ [];
  output_alloc = (7, sender 2 ((1, 5) ∷ (3, 4) ∷ [])) ∷ [];
  env = record {
    coinbase = 1;
    difficulty = 2;
    gas_limit = 100;
    number = 5;
    timestamp = 33;
    block_hashes = some ((4, 77) ∷ []);
    base_fee = none;
  };
  message = record { nonce = 1; sender = 7; to = some 8 };
  result = record { status = 1; bloom = 0; logs = []; contract_address = 0; gas_used = 21 };
}

input-Distinct : Distinct recording.input_alloc
unfolding lookup
input-Distinct = (refl, tt)

abbrev pub given : InMemoryStateDb
given = (snapshot (make_in_memory_state_db recording.input_alloc 5)).0

abbrev pub left_by_machine : InMemoryStateDb
left_by_machine = elim (run (calls given) given) [ none ↦ given | some db ↦ db ]

machine-returns :
    applied_to results_equal allocs_equal hashing chain_config true machine machine-OnlyCalls 5
      recording
    ≡ some (left_by_machine, 4 ∷ [], Applied.executed false 21 "")
unfolding run step snapshot set_state revert_to_snapshot set_nonce make_in_memory_state_db
machine-returns = refl

abbrev replayed : Option Outcome
replayed =
    replay_in_memory results_equal allocs_equal hashing chain_config true machine machine-OnlyCalls
      5 0 recording

replayed-none : replayed ≡ some (record { lines = []; error = none })
unfolding replay_task after_apply note_hashes note_hash settle evm_result compare_with_record run
    step snapshot set_state revert_to_snapshot set_nonce make_in_memory_state_db prepare finalise
    get_logs get_substate_post_alloc lookup range get_effects collect_touched put merge_effect
    drop_suicided has_suicided any_in has update_entry get_or account_effect first_in get_code
    report_storage get_nonce get_balance bytes_equal
replayed-none = refl

replay_in_memory-some_example : (o : Outcome) × (replayed ≡ some o)
replay_in_memory-some_example =
    replay_in_memory-some results_equal allocs_equal hashing chain_config true machine
      machine-OnlyCalls 5 0 recording refl machine-returns

replay_in_memory-accepts_example :
    (failed : Bool) × (used_gas : ℕ) × (err : String) × (Applied.executed false 21 ""
      ≡ Applied.executed failed used_gas err)
    × (note_hashes recording.env none (4 ∷ []) ≡ none)
    × (results_equal recording.result (
          evm_result hashing recording.message failed used_gas in_memory_state_db hash_02 hash_01
            left_by_machine)
        ≡ true)
    × Agrees recording.output_alloc left_by_machine
replay_in_memory-accepts_example =
    replay_in_memory-accepts results_equal allocs_equal hashing chain_config true machine
      machine-OnlyCalls allocs_equal-seen 5 0 recording refl input-Distinct refl machine-returns
      replayed-none refl
