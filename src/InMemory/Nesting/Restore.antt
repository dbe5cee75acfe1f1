-- ===== src/InMemory/Nesting/Restore.antt =====
-- in_memory_state_db.go: `RevertToSnapshot` after `Snapshot` and calls between the two.
use mathlib.Core.Option.{some-injective}
use substate_cli.Prelude.{
  ℕ, suc, ◌≤◌, ◌<◌, ◌≡◌, refl, sym, ◌∙◌, subst, some, List, [], ◌∷◌, ◌++◌, inl, inr, arith, ◌==◌,
  nat_eq, ==_ne, ==_refl, Bool-cases,
}
use substate_cli.InMemory.Frame.{Snapshot, InMemoryStateDb, chain}
use substate_cli.InMemory.Journal.{snapshot, pop_to, revert_to_snapshot}
use substate_cli.InMemory.Op.{Op}
use substate_cli.InMemory.Run.{step, run, run-cons}
use substate_cli.InMemory.Spine.{SameSpine, step-same}
use substate_cli.InMemory.Nesting.{IsOrdered, revert-eq-some, pop_to_below, head-eq, tail-eq}

-- Every identifier is above `n`.
abbrev pub AllAbove : ℕ → List Snapshot → Type 0
AllAbove n [] = Unit
AllAbove n (s ∷ rest) = (n < s.id) × AllAbove n rest

-- The reverts among the calls go to identifiers above `n`.
abbrev pub RevertAbove : ℕ → Op → Type 0
RevertAbove n (Op.revert id) = n < id
RevertAbove n _ = Unit

abbrev pub RevertsAbove : ℕ → List Op → Type 0
RevertsAbove n [] = Unit
RevertsAbove n (op ∷ ops) = RevertAbove n op × RevertsAbove n ops

-- A database that stands on a base: newer snapshots `top`, with identifiers above the base's.
record StandsOn (base : InMemoryStateDb) (db : InMemoryStateDb) : Type 0 where
  top : List Snapshot
  split : db.parents ≡ top ++ chain base
  newer : base.state.id < db.state.id
  above : AllAbove base.state.id top
  counted : base.state.id ≤ db.snapshot_counter
  same_alloc : db.alloc ≡ base.alloc

module _ (base : InMemoryStateDb) (ordered : IsOrdered base) where
  snapshot-StandsOn : StandsOn base (snapshot base).0
  unfolding snapshot
  snapshot-StandsOn = record {
    top = [];
    split = refl;
    newer = omega (arith, ordered.given);
    above = tt;
    counted = omega (arith, ordered.given);
    same_alloc = refl;
  }

  same-StandsOn :
      {db db' : InMemoryStateDb} → SameSpine db db' → StandsOn base db → StandsOn base db'
  same-StandsOn s o = record {
    top = o.top;
    split = s.parents ∙ o.split;
    newer = rw s.id o.newer;
    above = o.above;
    counted = rw s.counter o.counted;
    same_alloc = s.alloc ∙ o.same_alloc;
  }

  -- A revert to an identifier above the base's stops above the base.
  pop_to-top :
      (id : ℕ) (top : List Snapshot) {s : Snapshot} {rest : List Snapshot}
      → base.state.id < id
      → AllAbove base.state.id top
      → pop_to id (top ++ chain base) ≡ s ∷ rest
      → (base.state.id < s.id)
        × (kept : List Snapshot) × (rest ≡ kept ++ chain base)
        × AllAbove base.state.id kept
  unfolding pop_to
  pop_to-top id [] {s} {rest} h above e =
      let missing : pop_to id (chain base) ≡ [] =
        pop_to_below id (suc base.state.id) (chain base) (omega arith, ordered.falling) h in
      absurd (cc (missing, e))
  pop_to-top id (f ∷ top) {s} {rest} h above e = elim (Bool-cases (f.id == id)) [
    | inl here ↦
        let found : f ∷ (top ++ chain base) ≡ s ∷ rest = rw here at e in
        (
          subst (λ (t : Snapshot). base.state.id < t.id) (head-eq found) above.0,
          top,
          sym (tail-eq found),
          above.1,
        )
    | inr further ↦ pop_to-top id top h above.1 (rw further at e)
  ]

  revert-StandsOn :
      (id : ℕ) (db : InMemoryStateDb) {db' : InMemoryStateDb}
      → base.state.id < id
      → StandsOn base db
      → revert_to_snapshot id db ≡ some db'
      → StandsOn base db'
  revert-StandsOn id db h o e =
      let (s, rest, popped, same) = revert-eq-some id db e in
      let whole : pop_to id ((db.state ∷ o.top) ++ chain base) ≡ s ∷ rest =
        subst (λ (l : List Snapshot). pop_to id (db.state ∷ l) ≡ s ∷ rest) o.split popped in
      let (newer, kept, split, above) =
        pop_to-top id (db.state ∷ o.top) h (o.newer, o.above) whole in
      subst (StandsOn base) (sym same) (record {
        top = kept;
        split = split;
        newer = newer;
        above = above;
        counted = o.counted;
        same_alloc = o.same_alloc;
      })

  nested-StandsOn : (db : InMemoryStateDb) → StandsOn base db → StandsOn base (snapshot db).0
  unfolding snapshot
  nested-StandsOn db o = record {
    top = db.state ∷ o.top;
    split = rw o.split;
    newer = omega (arith, o.counted);
    above = (o.newer, o.above);
    counted = omega (arith, o.counted);
    same_alloc = o.same_alloc;
  }

  step-StandsOn :
      (op : Op) (db : InMemoryStateDb) {db' : InMemoryStateDb}
      → RevertAbove base.state.id op
      → StandsOn base db
      → step op db ≡ some db'
      → StandsOn base db'
  unfolding step
  step-StandsOn Op.snapshot db r o e =
      subst (StandsOn base) (some-injective _ _ e) (nested-StandsOn db o)
  step-StandsOn (Op.revert id) db r o e = revert-StandsOn id db r o e
  step-StandsOn op db r o e = same-StandsOn (step-same op db tt e) o

  run-StandsOn :
      (ops : List Op) (db : InMemoryStateDb) {db' : InMemoryStateDb}
      → RevertsAbove base.state.id ops
      → StandsOn base db
      → run ops db ≡ some db'
      → StandsOn base db'
  run-StandsOn [] db r o e = unfold run in subst (StandsOn base) (some-injective _ _ e) o
  run-StandsOn (op ∷ ops) db r o e =
      let (db1, first, others) = run-cons op ops db e in
      run-StandsOn ops db1 r.1 (step-StandsOn op db r.0 o first) others

-- The chain of the base is what a revert to the base's identifier leaves.
pop_to-base :
    (base : InMemoryStateDb) (top : List Snapshot)
    → AllAbove base.state.id top
    → pop_to base.state.id (top ++ chain base) ≡ chain base
unfolding pop_to
pop_to-base base [] above = rw (==_refl base.state.id)
pop_to-base base (s ∷ top) above =
    rw (==_ne s.id base.state.id (λ e. omega (arith, above.0, e))) (pop_to-base base top above.1)

revert-base :
    (base db : InMemoryStateDb)
    → StandsOn base db
    → revert_to_snapshot base.state.id db
      ≡ some (record db { alloc = base.alloc; state = base.state; parents = base.parents })
unfolding revert_to_snapshot
revert-base base db o =
    let popped : pop_to base.state.id (chain db) ≡ chain base =
      subst (λ (l : List Snapshot). pop_to base.state.id (db.state ∷ l) ≡ chain base) (sym o.split)
        (pop_to-base base (db.state ∷ o.top) (o.newer, o.above)) in
    rw (popped, revert_to_snapshot) (rw o.same_alloc)

-- From a database with its identifiers in order take a snapshot, and make any calls that revert
-- only to identifiers above the returned one and end without a panic. A revert to the returned
-- identifier then succeeds and gives the snapshots and the allocation back as they were; only the
-- identifier counter and the records of created accounts and touched slots stay as the calls
-- left them.
pub revert-run-snapshot :
    (ops : List Op) (db : InMemoryStateDb) {db' : InMemoryStateDb}
    → IsOrdered db
    → RevertsAbove (snapshot db).1 ops
    → run ops (snapshot db).0 ≡ some db'
    → revert_to_snapshot (snapshot db).1 db'
      ≡ some (record db' { alloc = db.alloc; state = db.state; parents = db.parents })
unfolding snapshot
revert-run-snapshot ops db o r e =
    revert-base db _ (run-StandsOn db o ops (snapshot db).0 r (snapshot-StandsOn db o) e)
