-- ===== src/InMemory/Effects/PostAlloc.antt =====
-- The allocation after a transaction, against the getters.
use substate_cli.Prelude.{
  ◌≡◌, refl, ◌∙◌, inl, inr, true, false, none, some, List, [], ◌∷◌, arith, nat_eq, if◌then◌else◌,
  Bool-cases, Option-cases,
}
use substate_cli.GoMap.{range, lookup, has, get_or, put, Distinct}
use substate_cli.GoMap.Laws.{at_key, range_observe, range_inv, lookup-put}
use substate_cli.Types.{Address, Hash, zero_hash, slot_eq, Account, Alloc}
use substate_cli.InMemory.Frame.{Snapshot, InMemoryStateDb, chain, first_in, any_in}
use substate_cli.InMemory.Accounts.{
  get_balance, get_nonce, get_code, get_state, has_suicided, exist,
}
use substate_cli.InMemory.Effects.{
  account_effect, get_effects, update_entry, merge_effect, fill_slot, drop_suicided, post_alloc,
}
use substate_cli.InMemory.Effects.Touched.{
  touched_in, lookup-get_effects, lookup-account_effect, account_effect-Distinct,
}
use substate_cli.InMemory.Effects.Recorded.{AllRecorded, IsConsistent}
use substate_cli.InMemory.Effects.Merged.{
  view_entry, seen, merged_entry, lookup-merged, merge_effect-Distinct, seen-fill_slot,
  fill_slot-Distinct, lookup-dropped, Seen,
}

-- Where the chain did not touch an address and did not destruct it, an allocated account reads as
-- it was allocated.
pub untouched-seen :
    (alloc : Alloc) (a : Address) (k : Hash) (frames : List Snapshot)
    → AllRecorded alloc frames
    → any_in (λ s. has a s.touched) frames ≡ false
    → any_in (λ s. has a s.suicided) frames ≡ false
    → has a alloc ≡ true
    → (first_in (λ s. lookup a s.balances) frames ≡ none)
      × (first_in (λ s. lookup a s.nonces) frames ≡ none)
      × (first_in (λ s. lookup a s.codes) frames ≡ none)
      × (first_in (λ s. lookup (record { addr = a; key = k }) s.storage) frames ≡ none)
unfolding any_in first_in
untouched-seen alloc a k [] r t u p = (refl, refl, refl, refl)
untouched-seen alloc a k (s ∷ rest) r t u p =
    let st : has a s.touched ≡ false = ground arith in
    let su : has a s.suicided ≡ false = ground arith in
    let (b, n, c, v) = untouched-seen alloc a k rest r.1 (ground arith) (ground arith) p in
    (
      ground (arith, b, r.0.balances a st su),
      ground (arith, n, r.0.nonces a st),
      ground (arith, c, r.0.codes a st),
      ground (arith, v, r.0.storage a k st p),
    )

-- The value of a slot after the loop over an effect's storage.
pub lookup-update_entry :
    (k : Hash) (entry value : Account)
    → Distinct value.storage
    → lookup k (update_entry entry value).storage
      ≡ at_key (λ v _. some v) (lookup k value.storage) (lookup k entry.storage)
unfolding update_entry
lookup-update_entry k entry value d =
    range_observe (λ storage key v. put key v storage) (lookup k) k (λ v _. some v)
      (λ storage key v. lookup-put k key v storage) value.storage entry.storage d

abbrev getters : Address → Hash → InMemoryStateDb → Seen
getters a k db = (get_nonce a db, get_balance a db, get_code a db, (get_state a k db).1)

value-new :
    (a : Address) (k : Hash) (db : InMemoryStateDb)
    → lookup a db.alloc ≡ none
    → get_or k (account_effect db a).storage zero_hash ≡ (get_state a k db).1
unfolding get_or get_state
value-new a k db absent = ground (arith, lookup-account_effect a k db)

value-old :
    (a : Address) (k : Hash) (db : InMemoryStateDb) (entry : Account)
    → lookup a db.alloc ≡ some entry
    → get_or k (update_entry entry (account_effect db a)).storage zero_hash ≡ (get_state a k db).1
unfolding get_or get_state
value-old a k db entry present = ground (
  arith,
  lookup-account_effect a k db,
  lookup-update_entry k entry (account_effect db a) (account_effect-Distinct a db),
)

-- The entry that the merge leaves for a touched address.
see-touched :
    (a : Address) (k : Hash) (db : InMemoryStateDb)
    → view_entry k (merged_entry (account_effect db a) (lookup a db.alloc)) ≡ some (getters a k db)
see-touched a k db = elim (Option-cases (lookup a db.alloc)) [
  | inl absent ↦ rw absent (rw (value-new a k db absent) (unfold account_effect in refl))
  | inr (entry, present) ↦
      rw present (rw (value-old a k db entry present) (unfold update_entry account_effect in refl))
]

see-untouched :
    (a : Address) (k : Hash) (db : InMemoryStateDb)
    → IsConsistent db
    → touched_in (chain db) a ≡ false
    → has_suicided a db ≡ false
    → view_entry k (lookup a db.alloc) ≡ (if exist a db then some (getters a k db) else none)
unfolding has_suicided exist has
see-untouched a k db c untouched kept = elim (Option-cases (lookup a db.alloc)) [
  | inl absent ↦ ground arith
  | inr (entry, present) ↦
      let (b, n, o, v) =
        untouched-seen db.alloc a k (chain db) c untouched kept (unfold has in rw present) in
      unfold get_nonce get_balance get_code get_state get_or in ground (arith, b, n, o, v)
]

seen-merged :
    (a : Address) (k : Hash) (db : InMemoryStateDb)
    → IsConsistent db
    → has_suicided a db ≡ false
    → seen a k (range merge_effect (get_effects db) db.alloc)
      ≡ (if exist a db then some (getters a k db) else none)
seen-merged a k db c kept = rw (lookup-merged a db) (
    rw (lookup-get_effects a db) (elim (Bool-cases (touched_in (chain db) a)) [
      | inl touched ↦ rw touched (see-touched a k db ∙ (unfold exist in rw touched))
      | inr untouched ↦ rw untouched (see-untouched a k db c untouched kept)
    ]))

pub filled-Distinct :
    (db : InMemoryStateDb)
    → Distinct db.alloc
    → Distinct (range fill_slot db.touched_slots (range merge_effect (get_effects db) db.alloc))
filled-Distinct db d =
    range_inv Distinct fill_slot (λ res slot n e. fill_slot-Distinct res slot n e) db.touched_slots
      _
      (range_inv Distinct merge_effect (λ res key v e. merge_effect-Distinct res key v e)
        (get_effects db) db.alloc d)

seen-dropped :
    (db : InMemoryStateDb) (a : Address) (k : Hash) (filled : Alloc)
    → Distinct filled
    → seen a k (range (drop_suicided db) filled filled)
      ≡ (if has_suicided a db then none else seen a k filled)
seen-dropped db a k filled d = rw (lookup-dropped db a filled filled d) (unfold has in ground arith)

-- From a database whose chain is recorded and whose allocation is a map: an account is in the
-- allocation after the transaction exactly if it exists and has not destructed itself, and then
-- its nonce, its balance, its code and each slot are what the getters return.
pub seen-post_alloc :
    (db : InMemoryStateDb) (a : Address) (k : Hash)
    → IsConsistent db
    → Distinct db.alloc
    → seen a k (post_alloc db) ≡ (
        if has_suicided a db
        then none
        else if exist a db
        then some (get_nonce a db, get_balance a db, get_code a db, (get_state a k db).1)
        else none)
unfolding post_alloc
seen-post_alloc db a k c d =
    seen-dropped db a k filled (filled-Distinct db d)
    ∙ rw seen_filled (elim (Bool-cases (has_suicided a db)) [
      | inl gone ↦ rw gone
      | inr kept ↦ rw kept (seen-merged a k db c kept)
    ])
  where
    filled : Alloc
    filled = range fill_slot db.touched_slots (range merge_effect (get_effects db) db.alloc)

    seen_filled : seen a k filled ≡ seen a k (range merge_effect (get_effects db) db.alloc)
    seen_filled =
        range_inv (λ res. seen a k res ≡ seen a k (range merge_effect (get_effects db) db.alloc))
          fill_slot (λ res slot n e. seen-fill_slot a k res slot n ∙ e) db.touched_slots _ refl
