-- ===== src/InMemory/Effects/Slots.antt =====
-- Which slots the accounts have in the allocation after a transaction.
use substate_cli.Prelude.{
  ◌≡◌, refl, ◌∙◌, ap, inl, inr, Bool, true, false, ◌&&◌, ◌||◌, not, Option, none, some, List, [],
  ◌∷◌, arith, nat_eq, nat_eqb_iff, ◌==◌, is_some, if◌then◌else◌, Bool-cases, Option-cases, ℕ,
}
use substate_cli.GoMap.{GoMap, range, lookup, has, put, Distinct}
use substate_cli.GoMap.Laws.{lookup-put}
use substate_cli.Types.{Address, Hash, zero_hash, Slot, slot_eq, Account, Alloc}
use substate_cli.InMemory.Frame.{InMemoryStateDb, chain, first_in, make_in_memory_state_db}
use substate_cli.InMemory.Accounts.{has_suicided, exist}
use substate_cli.InMemory.Effects.{
  account_effect, get_effects, merge_effect, fill_slot, post_alloc, get_substate_post_alloc,
}
use substate_cli.InMemory.Effects.Touched.{
  touched_in, lookup-get_effects, lookup-account_effect, account_effect-Distinct,
}
use substate_cli.InMemory.Effects.Recorded.{IsConsistent, make_in_memory_state_db-IsConsistent}
use substate_cli.InMemory.Effects.Recorded.Step.{run-IsConsistent}
use substate_cli.InMemory.Effects.Replayed.{alloc-run}
use substate_cli.InMemory.Effects.Merged.{merged_entry, lookup-merged, lookup-dropped}
use substate_cli.InMemory.Effects.PostAlloc.{untouched-seen, lookup-update_entry, filled-Distinct}
use substate_cli.InMemory.Op.{Op}
use substate_cli.InMemory.Run.{run}

-- The slot is written in some snapshot of the chain.
abbrev pub is_written : Address → Hash → InMemoryStateDb → Bool
is_written a k db =
    is_some (first_in (λ s. lookup (record { addr = a; key = k }) s.storage) (chain db))

abbrev has_slot_in : Hash → Option Account → Bool
has_slot_in k none = false
has_slot_in k (some account) = has k account.storage

-- The allocation has the account, with an entry for the slot.
abbrev pub has_slot : Address → Hash → Alloc → Bool
has_slot a k alloc = has_slot_in k (lookup a alloc)

-- A round of the loop over the touched slots keeps the accounts, and adds its slot where its account is.
fill_slot-adds :
    (a : Address) (k : Hash) (res : Alloc) (slot : Slot) (n : ℕ)
    → (has a (fill_slot res slot n) ≡ has a res)
      × (has_slot a k (fill_slot res slot n)
          ≡ (has_slot a k res || (has a res && (slot.addr == a && slot.key == k))))
unfolding fill_slot has
fill_slot-adds a k res slot n = elim (Option-cases (lookup slot.addr res)) [
  | inl absent ↦ rw (absent, fill_slot) (refl, ground (arith, absent, nat_eqb_iff slot.addr a))
  | inr (account, present) ↦ elim (Bool-cases (has slot.key account.storage)) [
    | inl known ↦
        rw (present, fill_slot, known)
          (refl, ground (arith, present, known, nat_eqb_iff slot.addr a, nat_eqb_iff slot.key k))
    | inr unknown ↦
        rw (present, fill_slot, unknown)
          (
            ground (
              arith,
              present,
              nat_eqb_iff slot.addr a,
              lookup-put a slot.addr
                  (record account { storage = put slot.key zero_hash account.storage }) res,
            ),
            ground (
              arith,
              present,
              unknown,
              nat_eqb_iff slot.addr a,
              nat_eqb_iff slot.key k,
              lookup-put a slot.addr
                  (record account { storage = put slot.key zero_hash account.storage }) res,
              lookup-put k slot.key zero_hash account.storage,
            ),
          )
  ]
]

has_slot-filled :
    (a : Address) (k : Hash) (touched : GoMap Slot ℕ) (res : Alloc)
    → has_slot a k (range fill_slot touched res)
      ≡ (has_slot a k res || (has a res && has (record { addr = a; key = k }) touched))
unfolding range has lookup
has_slot-filled a k [] res = ground arith
has_slot-filled a k ((slot, n) ∷ touched) res =
    let (same, more) = fill_slot-adds a k res slot n in
    has_slot-filled a k touched (fill_slot res slot n) ∙ rw more (ground (arith, same))

-- The merge leaves an account the slots that it had and those that are written.
slots-touched :
    (a : Address) (k : Hash) (db : InMemoryStateDb)
    → has_slot_in k (merged_entry (account_effect db a) (lookup a db.alloc))
      ≡ (has_slot a k db.alloc || is_written a k db)
unfolding has
slots-touched a k db = elim (Option-cases (lookup a db.alloc)) [
  | inl absent ↦ rw absent (ap is_some (lookup-account_effect a k db))
  | inr (entry, present) ↦ rw present (
      ground (
        arith,
        lookup-account_effect a k db,
        lookup-update_entry k entry (account_effect db a) (account_effect-Distinct a db),
      ))
]

if_same : {A : Type 0} (b : Bool) (x : A) → (if b then x else x) ≡ x
if_same true x = refl
if_same false x = refl

merged_entry-is_some :
    (value : Account) (o : Option Account) → is_some (merged_entry value o) ≡ true
merged_entry-is_some value none = refl
merged_entry-is_some value (some entry) = refl

slots-merged :
    (a : Address) (k : Hash) (db : InMemoryStateDb)
    → IsConsistent db
    → has_suicided a db ≡ false
    → (has_slot a k (range merge_effect (get_effects db) db.alloc)
        ≡ (exist a db && (has_slot a k db.alloc || is_written a k db)))
      × (has a (range merge_effect (get_effects db) db.alloc) ≡ exist a db)
unfolding has exist has_suicided
slots-merged a k db c kept = elim (Bool-cases (touched_in (chain db) a)) [
  | inl touched ↦
      rw (lookup-merged a db, lookup-get_effects a db, touched)
        (slots-touched a k db, merged_entry-is_some (account_effect db a) (lookup a db.alloc))
  | inr untouched ↦
      rw (lookup-merged a db, lookup-get_effects a db, untouched)
        (elim (Option-cases (lookup a db.alloc)) [
          | inl absent ↦ rw absent (refl, refl)
          | inr (entry, present) ↦
              let (b, n, o, v) =
                untouched-seen db.alloc a k (chain db) c untouched kept
                  (unfold has in rw present) in
              rw (present, v) (ground arith, refl)
        ])
]

slots-post_alloc :
    (db : InMemoryStateDb) (a : Address) (k : Hash)
    → IsConsistent db
    → Distinct db.alloc
    → has_slot a k (post_alloc db) ≡ (
        not (has_suicided a db)
        && exist a db
        && (has_slot a k db.alloc
            || is_written a k db
            || has (record { addr = a; key = k }) db.touched_slots))
unfolding post_alloc
slots-post_alloc db a k c d =
    rw (lookup-dropped db a filled filled (filled-Distinct db d))
      (elim (Bool-cases (has_suicided a db)) [
        | inl gone ↦ rw gone (unfold has in ground (arith, gone))
        | inr kept ↦
            let (slots, accounts) = slots-merged a k db c kept in
            rw kept (
              ap (has_slot_in k) (if_same (has a filled) (lookup a filled))
              ∙ has_slot-filled a k db.touched_slots merged
              ∙ rw (slots, accounts) (ground arith))
      ])
  where
    merged : Alloc
    merged = range merge_effect (get_effects db) db.alloc

    filled : Alloc
    filled = range fill_slot db.touched_slots merged

-- Start from an allocation without a key twice and make any calls that end without a panic. In the
-- allocation that `GetSubstatePostAlloc` then returns, an account that is there has an entry for a
-- slot exactly if it had one before, or the slot is written in a snapshot of the chain, or it is
-- among the touched slots.
pub post_alloc-slots :
    (ops : List Op) (alloc : Alloc) (block : ℕ) {db : InMemoryStateDb} (a : Address) (k : Hash)
    → Distinct alloc
    → run ops (make_in_memory_state_db alloc block) ≡ some db
    → has_slot a k (get_substate_post_alloc db).1 ≡ (
        not (has_suicided a db)
        && exist a db
        && (has_slot a k alloc
            || is_written a k db
            || has (record { addr = a; key = k }) db.touched_slots))
unfolding get_substate_post_alloc
post_alloc-slots ops alloc block {db} a k d e =
    let kept : db.alloc ≡ alloc =
      alloc-run ops (make_in_memory_state_db alloc block) e
      ∙ (unfold make_in_memory_state_db in refl) in
    let slots =
      slots-post_alloc db a k
        (run-IsConsistent ops (make_in_memory_state_db alloc block)
          (make_in_memory_state_db-IsConsistent alloc block) e)
        (rw kept d) in
    slots ∙ rw kept refl
