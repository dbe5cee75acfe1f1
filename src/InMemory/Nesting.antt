-- ===== src/InMemory/Nesting.antt =====
-- Snapshot identifiers, and what a revert to one of them restores.
pub mod Restore
use mathlib.Core.Option.{some-injective}
use mathlib.Core.Path.{subst₂}
use substate_cli.Prelude.{
  ◌⊎◌, ℕ, suc, ◌+◌, ◌≤◌, ◌<◌, ◌≡◌, ◌≢◌, refl, sym, ◌∙◌, ap, subst, Bool, true, false, Option, none,
  some, List, [], ◌∷◌, ◌++◌, inl, inr, arith, if◌then◌else◌, ◌==◌, nat_eq, nat_eqb_iff, ==_ne,
  ==_refl, Bool-cases, Option-cases,
}
use substate_cli.Types.{Alloc}
use substate_cli.InMemory.Frame.{
  Snapshot, InMemoryStateDb, chain, make_snapshot, make_in_memory_state_db,
}
use substate_cli.InMemory.Journal.{snapshot, pop_to, revert_to_snapshot}
use substate_cli.InMemory.Op.{Op}
use substate_cli.InMemory.Run.{step, run, run-cons}
use substate_cli.InMemory.Spine.{SameSpine, IsPlain, step-same}

pub head-eq : {s t : Snapshot} {l m : List Snapshot} → s ∷ l ≡ t ∷ m → s ≡ t
head-eq e = cc

pub tail-eq : {s t : Snapshot} {l m : List Snapshot} → s ∷ l ≡ t ∷ m → l ≡ m
tail-eq e = cc

-- The identifiers fall along the chain, from one below `n` on.
abbrev pub Descending : ℕ → List Snapshot → Type 0
Descending n [] = Unit
Descending n (s ∷ rest) = (s.id < n) × Descending s.id rest

-- The identifiers fall along the chain, from the newest to the oldest, and the counter is at least the
-- newest, so that a snapshot's next identifier is above all of them.
pub record IsOrdered (db : InMemoryStateDb) : Type 0 where
  pub given : db.state.id ≤ db.snapshot_counter
  pub falling : Descending db.state.id db.parents

pub make_in_memory_state_db-IsOrdered :
    (alloc : Alloc) (block : ℕ) → IsOrdered (make_in_memory_state_db alloc block)
unfolding make_in_memory_state_db
make_in_memory_state_db-IsOrdered alloc block = record { given = omega arith; falling = tt }

-- The loop of `RevertToSnapshot` stops at a snapshot of the chain.
pub revert-eq-some :
    (id : ℕ) (db : InMemoryStateDb) {db' : InMemoryStateDb}
    → revert_to_snapshot id db ≡ some db'
    → (s : Snapshot) × (rest : List Snapshot) × (pop_to id (chain db) ≡ s ∷ rest)
      × (db' ≡ record db { state = s; parents = rest })
unfolding revert_to_snapshot
revert-eq-some id db {db'} e = go (pop_to id (chain db)) refl e
  where
    go :
        (frames : List Snapshot)
        → pop_to id (chain db) ≡ frames
        → elim frames [ [] ↦ none | s ∷ rest ↦ some (record db { state = s; parents = rest }) ]
          ≡ some db'
        → (s : Snapshot) × (rest : List Snapshot) × (pop_to id (chain db) ≡ s ∷ rest)
          × (db' ≡ record db { state = s; parents = rest })
    go [] p q = cc
    go (s ∷ rest) p q = (s, rest, p, sym (some-injective _ _ q))

pop_to-Descending :
    (id n : ℕ) (frames : List Snapshot) {s : Snapshot} {rest : List Snapshot}
    → Descending n frames
    → pop_to id frames ≡ s ∷ rest
    → (s.id < n) × Descending s.id rest
unfolding pop_to
pop_to-Descending id n [] d e = cc
pop_to-Descending id n (f ∷ frames) {s} {rest} d e = elim (Bool-cases (f.id == id)) [
  | inl here ↦
      let found : f ∷ frames ≡ s ∷ rest = rw here at e in
      (
        subst (λ (t : Snapshot). t.id < n) (head-eq found) d.0,
        subst₂ (λ (t : Snapshot) (l : List Snapshot). Descending t.id l) (head-eq found)
            (tail-eq found) d.1,
      )
  | inr further ↦
      let (below, falling) = pop_to-Descending id f.id frames d.1 (rw further at e) in
      (omega (arith, d.0), falling)
]

-- A revert to an identifier above the whole chain finds nothing.
pub pop_to_below :
    (id n : ℕ) (frames : List Snapshot) → Descending n frames → n ≤ id → pop_to id frames ≡ []
unfolding pop_to
pop_to_below id n [] d h = refl
pop_to_below id n (f ∷ frames) d h =
    rw (==_ne f.id id (λ e. omega (arith, d.0, e)))
      (pop_to_below id f.id frames d.1 (omega (arith, d.0)))

snapshot-IsOrdered : (db : InMemoryStateDb) → IsOrdered db → IsOrdered (snapshot db).0
unfolding snapshot
snapshot-IsOrdered db o = record { given = omega arith; falling = (omega arith, o.falling) }

revert-IsOrdered :
    (id : ℕ) (db : InMemoryStateDb) {db' : InMemoryStateDb}
    → IsOrdered db
    → revert_to_snapshot id db ≡ some db'
    → IsOrdered db'
revert-IsOrdered id db o e =
    let (s, rest, popped, same) = revert-eq-some id db e in
    let (below, falling) =
      pop_to-Descending id (suc db.state.id) (chain db) (omega arith, o.falling) popped in
    subst IsOrdered (sym same) (record { given = omega (arith, o.given); falling = falling })

same-IsOrdered : {db db' : InMemoryStateDb} → SameSpine db db' → IsOrdered db → IsOrdered db'
same-IsOrdered s o = record {
  given = rw (s.id, s.counter) o.given;
  falling = rw (s.id, s.parents) o.falling;
}

-- Every call keeps the identifiers in order.
pub step-IsOrdered :
    (op : Op) (db : InMemoryStateDb) {db' : InMemoryStateDb}
    → IsOrdered db
    → step op db ≡ some db'
    → IsOrdered db'
unfolding step
step-IsOrdered Op.snapshot db o e = subst IsOrdered (some-injective _ _ e) (snapshot-IsOrdered db o)
step-IsOrdered (Op.revert id) db o e = revert-IsOrdered id db o e
step-IsOrdered op db o e = same-IsOrdered (step-same op db tt e) o

-- If the snapshot identifiers fall along the chain, from the newest to the oldest, and none is above
-- the counter, this is so after any calls that end without a panic.
pub run-IsOrdered :
    (ops : List Op) (db : InMemoryStateDb) {db' : InMemoryStateDb}
    → IsOrdered db
    → run ops db ≡ some db'
    → IsOrdered db'
unfolding run
run-IsOrdered [] db o e = subst IsOrdered (some-injective _ _ e) o
run-IsOrdered (op ∷ ops) db o e =
    let (db1, first, others) = run-cons op ops db e in
    run-IsOrdered ops db1 (step-IsOrdered op db o first) others
