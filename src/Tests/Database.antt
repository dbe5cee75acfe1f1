-- ===== src/Tests/Database.antt =====
-- Calls of the in-memory database on a small allocation: account 7 has nonce 1, balance 100, one
-- byte of code and a slot.
use substate_cli.Prelude.{
  not, ◌&&◌, ◌||◌, ◌≡◌, refl, none, some, List, [], ◌∷◌, if◌then◌else◌, arith, nat_eq,
}
use substate_cli.Prelude.Int.{pos}
use substate_cli.Prelude.Int.{◌-ℤ◌}
use substate_cli.GoMap.{Distinct, range, lookup, has, get_or, put}
use substate_cli.Types.{Alloc, Account, slot_eq}
use substate_cli.InMemory.Frame.{InMemoryStateDb, first_in, any_in, make_in_memory_state_db}
use substate_cli.InMemory.Accounts.{
  sub_balance, add_balance, set_nonce, suicide, set_state, get_balance, get_nonce, get_code,
  get_state, has_suicided, exist,
}
use substate_cli.InMemory.Journal.{snapshot, revert_to_snapshot}
use substate_cli.InMemory.Op.{Op}
use substate_cli.InMemory.Run.{step, run}
use substate_cli.InMemory.Effects.{
  get_substate_post_alloc, get_effects, collect_touched, merge_effect, drop_suicided, update_entry,
  account_effect, report_storage,
}
use substate_cli.InMemory.Effects.Merged.{seen}
use substate_cli.InMemory.Effects.Replayed.{post_alloc-run}
use substate_cli.InMemory.Effects.Slots.{has_slot, is_written, post_alloc-slots}
use mathlib.Core.Option.{map as map_option}
use substate_cli.InMemory.Spec.{spec_run}
use substate_cli.InMemory.Refine.{abstraction}
use substate_cli.InMemory.Refine.Step.{abstraction-run}
use substate_cli.InMemory.Nesting.{IsOrdered, make_in_memory_state_db-IsOrdered, run-IsOrdered}
use substate_cli.InMemory.Nesting.Restore.{RevertsAbove, revert-run-snapshot}
use substate_cli.InMemory.Effects.Recorded.{IsConsistent, make_in_memory_state_db-IsConsistent}
use substate_cli.InMemory.Effects.Recorded.Step.{run-IsConsistent}

abbrev account : Account
account = record { nonce = 1; balance = pos 100; storage = (1, 9) ∷ []; code = 96 ∷ [] }

abbrev alloc : Alloc
alloc = (7, account) ∷ []

abbrev start : InMemoryStateDb
start = make_in_memory_state_db alloc 4

abbrev after : List Op → InMemoryStateDb
after ops = elim (run ops start) [ none ↦ start | some db ↦ db ]

-- A transfer from 7 to 8, a write that is reverted, and a slot cleared.
abbrev ops : List Op
ops =
    Op.sub_balance 7 (pos 30)
    ∷ Op.add_balance 8 (pos 30)
    ∷ Op.snapshot
    ∷ Op.set_state 7 1 5
    ∷ Op.revert 0
    ∷ Op.set_nonce 7 2
    ∷ Op.set_state 7 1 0
    ∷ []

ends : run ops start ≡ some (after ops)
unfolding run step sub_balance add_balance snapshot set_state revert_to_snapshot set_nonce
    get_balance get_nonce make_in_memory_state_db
ends = refl

-- The loops that the allocation after the transaction is made by, on the example.
post_alloc_of_ops : seen 7 1 (get_substate_post_alloc (after ops)).1 ≡ some (2, pos 70, 96 ∷ [], 0)
unfolding run step sub_balance add_balance snapshot set_state revert_to_snapshot set_nonce
    get_balance get_nonce make_in_memory_state_db get_substate_post_alloc lookup range get_effects
    collect_touched put merge_effect drop_suicided has_suicided any_in has update_entry get_or
    account_effect first_in get_code report_storage ◌-ℤ◌
post_alloc_of_ops = refl

alloc-Distinct : Distinct alloc
unfolding lookup
alloc-Distinct = (refl, tt)

post_alloc-run_example :
    (seen 7 1 (get_substate_post_alloc (after ops)).1 ≡ (
      if has_suicided 7 (after ops)
      then none
      else if exist 7 (after ops)
      then some (
        get_nonce 7 (after ops),
        get_balance 7 (after ops),
        get_code 7 (after ops),
        (get_state 7 1 (after ops)).1,
      )
      else none))
    × ((get_substate_post_alloc (after ops)).0.alloc ≡ (get_substate_post_alloc (after ops)).1)
post_alloc-run_example = post_alloc-run ops alloc 4 7 1 alloc-Distinct ends

post_alloc-slots_example : has_slot 7 1 (get_substate_post_alloc (after ops)).1 ≡ (
    not (has_suicided 7 (after ops))
    && exist 7 (after ops)
    && (has_slot 7 1 alloc
        || is_written 7 1 (after ops)
        || has (record { addr = 7; key = 1 }) (after ops).touched_slots))
post_alloc-slots_example = post_alloc-slots ops alloc 4 7 1 alloc-Distinct ends

abstraction-run_example : map_option abstraction (run ops start) ≡ spec_run ops (abstraction start)
abstraction-run_example = abstraction-run ops start

-- Calls after a snapshot of `after ops`, with a snapshot inside that is reverted.
abbrev inner : List Op
inner =
    Op.set_nonce 7 9
    ∷ Op.snapshot
    ∷ Op.suicide 7
    ∷ Op.revert (snapshot (after ops)).0.state.id
    ∷ Op.set_state 8 2 3
    ∷ []

abbrev later : InMemoryStateDb
later = elim (run inner (snapshot (after ops)).0) [ none ↦ start | some db ↦ db ]

inner_ends : run inner (snapshot (after ops)).0 ≡ some later
unfolding run step sub_balance add_balance snapshot set_state revert_to_snapshot set_nonce
    get_balance get_nonce make_in_memory_state_db suicide
inner_ends = refl

run-IsOrdered_example : IsOrdered (after ops)
run-IsOrdered_example = run-IsOrdered ops start (make_in_memory_state_db-IsOrdered alloc 4) ends

inner_above : RevertsAbove (snapshot (after ops)).1 inner
unfolding run step sub_balance add_balance snapshot set_state revert_to_snapshot set_nonce
    get_balance get_nonce make_in_memory_state_db
inner_above = (tt, (tt, (tt, (omega arith, (tt, tt)))))

revert-run-snapshot_example :
    revert_to_snapshot (snapshot (after ops)).1 later
    ≡ some (record later {
      alloc = (after ops).alloc;
      state = (after ops).state;
      parents = (after ops).parents;
    })
revert-run-snapshot_example =
    revert-run-snapshot inner (after ops)
      (run-IsOrdered ops start (make_in_memory_state_db-IsOrdered alloc 4) ends) inner_above
      inner_ends

run-IsConsistent_example : IsConsistent (after ops)
run-IsConsistent_example =
    run-IsConsistent ops start (make_in_memory_state_db-IsConsistent alloc 4) ends
