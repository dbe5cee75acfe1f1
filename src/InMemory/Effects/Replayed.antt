-- ===== src/InMemory/Effects/Replayed.antt =====
-- A whole transaction: from the allocation given, through any calls, to the allocation after it.
use mathlib.Core.Option.{some-injective}
use substate_cli.Prelude.{
  ℕ, ◌≡◌, refl, sym, ap, ◌∙◌, none, some, List, [], ◌∷◌, if◌then◌else◌, nat_eq,
}
use substate_cli.GoMap.{Distinct}
use substate_cli.Types.{Address, Hash, Alloc}
use substate_cli.InMemory.Frame.{InMemoryStateDb, make_in_memory_state_db}
use substate_cli.InMemory.Accounts.{
  get_balance, get_nonce, get_code, get_state, has_suicided, exist,
}
use substate_cli.InMemory.Journal.{snapshot}
use substate_cli.InMemory.Effects.{get_substate_post_alloc}
use substate_cli.InMemory.Effects.PostAlloc.{seen-post_alloc}
use substate_cli.InMemory.Effects.Merged.{seen}
use substate_cli.InMemory.Effects.Recorded.{make_in_memory_state_db-IsConsistent}
use substate_cli.InMemory.Effects.Recorded.Step.{run-IsConsistent}
use substate_cli.InMemory.Nesting.{revert-eq-some}
use substate_cli.InMemory.Op.{Op}
use substate_cli.InMemory.Run.{step, run, run-cons}
use substate_cli.InMemory.Spine.{step-same}

alloc-step :
    (op : Op) (db : InMemoryStateDb) {db' : InMemoryStateDb}
    → step op db ≡ some db'
    → db'.alloc ≡ db.alloc
unfolding step snapshot
alloc-step Op.snapshot db e = ap (λ (d : InMemoryStateDb). d.alloc) (sym (some-injective _ _ e))
alloc-step (Op.revert id) db e =
    let (s, rest, popped, same) = revert-eq-some id db e in
    ap (λ (d : InMemoryStateDb). d.alloc) same
alloc-step op db e = (step-same op db tt e).alloc

-- No call changes the allocation: writes are kept in the snapshots.
pub alloc-run :
    (ops : List Op) (db : InMemoryStateDb) {db' : InMemoryStateDb}
    → run ops db ≡ some db'
    → db'.alloc ≡ db.alloc
unfolding run
alloc-run [] db e = ap (λ (d : InMemoryStateDb). d.alloc) (sym (some-injective _ _ e))
alloc-run (op ∷ ops) db e =
    let (db1, first, others) = run-cons op ops db e in
    alloc-run ops db1 others ∙ alloc-step op db first

-- Start from an allocation without a key twice and make any calls that end without a panic. In
-- the allocation that `GetSubstatePostAlloc` then returns, and leaves in the database, an account
-- is there exactly if it exists and has not destructed itself; its nonce, its balance, its code
-- and the value of each slot, zero where the slot is absent, are what the getters return.
pub post_alloc-run :
    (ops : List Op) (alloc : Alloc) (block : ℕ) {db : InMemoryStateDb} (a : Address) (k : Hash)
    → Distinct alloc
    → run ops (make_in_memory_state_db alloc block) ≡ some db
    → (seen a k (get_substate_post_alloc db).1 ≡ (
        if has_suicided a db
        then none
        else if exist a db
        then some (get_nonce a db, get_balance a db, get_code a db, (get_state a k db).1)
        else none))
      × ((get_substate_post_alloc db).0.alloc ≡ (get_substate_post_alloc db).1)
unfolding get_substate_post_alloc
post_alloc-run ops alloc block {db} a k d e =
    let kept : db.alloc ≡ alloc =
      alloc-run ops (make_in_memory_state_db alloc block) e
      ∙ (unfold make_in_memory_state_db in refl) in
    (
      seen-post_alloc db a k
          (run-IsConsistent ops (make_in_memory_state_db alloc block)
            (make_in_memory_state_db-IsConsistent alloc block) e)
          (rw kept d),
      refl,
    )
