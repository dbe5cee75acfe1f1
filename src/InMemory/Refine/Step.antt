-- ===== src/InMemory/Refine/Step.antt =====
-- One call of the database, and a sequence of calls, against the contract.
use mathlib.Core.Option.{map as map_option}
use mathlib.Core.List.{append-nil}
use substate_cli.Prelude.{
  ℕ, ◌≡◌, refl, subst, ◌∙◌, Option, none, some, List, [], ◌∷◌, ◌==◌, nat_eq, Bool-cases, inl, inr,
}
use substate_cli.GoMap.{has}
use substate_cli.Types.{Alloc}
use substate_cli.InMemory.Frame.{Snapshot, InMemoryStateDb, chain}
use substate_cli.InMemory.Journal.{snapshot, pop_to, revert_to_snapshot}
use substate_cli.InMemory.Spine.{
  SameSpine, create_account-same, sub_balance-same, add_balance-same, set_nonce-same, set_code-same,
  add_refund-same, sub_refund-same, get_state-same, set_state-same, suicide-same,
  add_address_to_access_list-same, add_slot_to_access_list-same, prepare_access_list-same,
  add_log-same,
}
use substate_cli.InMemory.Op.{Op}
use substate_cli.InMemory.Run.{step, run}
use substate_cli.InMemory.Spec.{View, Spec, spec_step, spec_run, bring_back}
use substate_cli.InMemory.Refine.{view, view_ext, db_at, saved_views, abstraction}
use substate_cli.InMemory.Refine.Writes.{
  view-set_nonce, view-set_code, view-add_refund, view-sub_refund, view-set_state, view-suicide,
  view-add_address, view-add_slot, view-add_log, view-create_account, view-sub_balance,
  view-add_balance, view-get_state,
}
use substate_cli.InMemory.Refine.AccessList.{view-prepare_access_list}

-- A snapshot reads as the state below it.
view-snapshot : (db : InMemoryStateDb) → view (snapshot db).0 ≡ view db
unfolding view snapshot has
view-snapshot db =
    view_ext _ _ (λ a. refl) (λ a. refl) (λ a. refl) (λ a k. refl) (λ a. refl) (λ a. refl)
      (λ a. refl) (λ a k. refl) (append-nil _) refl

popped : Alloc → ℕ → List Snapshot → Option Spec
popped alloc counter [] = none
popped alloc counter (s ∷ rest) = some (record {
  id = s.id;
  view = view (db_at alloc s rest);
  saved = saved_views alloc rest;
  counter = counter;
})

popped-pop_to :
    (alloc : Alloc) (id counter : ℕ) (frames : List Snapshot)
    → popped alloc counter (pop_to id frames) ≡ bring_back id counter (saved_views alloc frames)
unfolding popped pop_to bring_back saved_views
popped-pop_to alloc id counter [] = refl
popped-pop_to alloc id counter (s ∷ rest) = elim (Bool-cases (s.id == id)) [
  | inl same ↦ rw same
  | inr other ↦ rw other (popped-pop_to alloc id counter rest)
]

-- What `RevertToSnapshot` does with the chain that its loop leaves.
abbrev resume : InMemoryStateDb → List Snapshot → Option InMemoryStateDb
resume db frames = elim frames [
  | [] ↦ none
  | s ∷ rest ↦ some (record db { state = s; parents = rest })
]

abstraction-resume :
    (db : InMemoryStateDb) (frames : List Snapshot)
    → map_option abstraction (resume db frames) ≡ popped db.alloc db.snapshot_counter frames
unfolding popped abstraction
abstraction-resume db [] = refl
abstraction-resume db (s ∷ rest) = refl

abstraction-revert_to_snapshot :
    (id : ℕ) (db : InMemoryStateDb)
    → map_option abstraction (revert_to_snapshot id db) ≡ spec_step (Op.revert id) (abstraction db)
unfolding revert_to_snapshot spec_step
abstraction-revert_to_snapshot id db =
    abstraction-resume db (pop_to id (chain db))
    ∙ popped-pop_to db.alloc id db.snapshot_counter (chain db)
    ∙ (unfold abstraction in refl)

abstraction-write :
    (db db' : InMemoryStateDb) (v : View)
    → SameSpine db db'
    → view db' ≡ v
    → some (abstraction db') ≡ some (record (abstraction db) { view = v })
unfolding abstraction
abstraction-write db db' v s e = λ t. some (record {
  id = s.id t;
  view = e t;
  saved = saved_views (s.alloc t) (s.parents t);
  counter = s.counter t;
})

-- One call of the database does to its abstraction what the contract says, panics included.
pub abstraction-step :
    (op : Op) (db : InMemoryStateDb)
    → map_option abstraction (step op db) ≡ spec_step op (abstraction db)
unfolding step spec_step abstraction view snapshot has
abstraction-step (Op.create_account addr) db =
    abstraction-write db _ _ (create_account-same addr db) (view-create_account addr db)
abstraction-step (Op.sub_balance addr value) db =
    abstraction-write db _ _ (sub_balance-same addr value db) (view-sub_balance addr value db)
abstraction-step (Op.add_balance addr value) db =
    abstraction-write db _ _ (add_balance-same addr value db) (view-add_balance addr value db)
abstraction-step (Op.set_nonce addr value) db =
    abstraction-write db _ _ (set_nonce-same addr value db) (view-set_nonce addr value db)
abstraction-step (Op.set_code addr code) db =
    abstraction-write db _ _ (set_code-same addr code db) (view-set_code addr code db)
abstraction-step (Op.add_refund gas) db =
    abstraction-write db _ _ (add_refund-same gas db) (view-add_refund gas db)
abstraction-step (Op.sub_refund gas) db =
    abstraction-write db _ _ (sub_refund-same gas db) (view-sub_refund gas db)
abstraction-step (Op.get_state addr key) db =
    abstraction-write db _ _ (get_state-same addr key db) (view-get_state addr key db)
abstraction-step (Op.set_state addr key value) db =
    abstraction-write db _ _ (set_state-same addr key value db) (view-set_state addr key value db)
abstraction-step (Op.suicide addr) db =
    abstraction-write db _ _ (suicide-same addr db) (view-suicide addr db)
abstraction-step (Op.add_address addr) db =
    abstraction-write db _ _ (add_address_to_access_list-same addr db) (view-add_address addr db)
abstraction-step (Op.add_slot addr key) db =
    abstraction-write db _ _ (add_slot_to_access_list-same addr key db) (view-add_slot addr key db)
abstraction-step (Op.prepare_access_list sender dest precompiles accesses) db =
    abstraction-write db _ _ (prepare_access_list-same sender dest precompiles accesses db)
      (view-prepare_access_list sender dest precompiles accesses db)
abstraction-step (Op.add_log log) db =
    abstraction-write db _ _ (add_log-same log db) (view-add_log log db)
abstraction-step Op.snapshot db = rw (view-snapshot db)
abstraction-step (Op.revert id) db = abstraction-revert_to_snapshot id db
abstraction-step (Op.add_preimage hash preimage) db = refl
abstraction-step (Op.finalise delete_empty) db = refl

-- From every database, any sequence of calls does to its abstraction, which is the view that the
-- readers give with those of the snapshots below it, what the contract `spec_run` says, and panics
-- exactly where the contract does.
pub abstraction-run :
    (ops : List Op) (db : InMemoryStateDb)
    → map_option abstraction (run ops db) ≡ spec_run ops (abstraction db)
unfolding run spec_run
abstraction-run [] db = refl
abstraction-run (op ∷ ops) db =
    subst
      (λ r.
        map_option abstraction (run (op ∷ ops) db)
        ≡ elim r [ none ↦ none | some s' ↦ spec_run ops s' ])
      (abstraction-step op db)
      (elim (step op db)
        as (λ o.
          map_option abstraction (elim o [ none ↦ none | some db' ↦ run ops db' ])
          ≡ elim (map_option abstraction o) [ none ↦ none | some s' ↦ spec_run ops s' ]) [
            | none ↦ refl
            | some db' ↦ abstraction-run ops db'
          ])
