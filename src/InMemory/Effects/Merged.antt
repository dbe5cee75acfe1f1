-- ===== src/InMemory/Effects/Merged.antt =====
-- The loops that make the allocation after a transaction, at one address.
use substate_cli.Prelude.{
  ℕ, ◌≡◌, refl, ◌∙◌, inl, inr, Option, none, some, [], ◌∷◌, arith, ◌==◌, nat_eq, nat_eqb_iff,
  if◌then◌else◌, Bool-cases, Option-cases,
}
use substate_cli.Prelude.Int.{ℤ}
use substate_cli.GoMap.{range, lookup, has, get_or, put, Distinct}
use substate_cli.GoMap.Laws.{
  at_key, range_observe, lookup-put, put-Distinct, lookup-delete, delete-Distinct,
}
use substate_cli.Types.{Address, Hash, Code, zero_hash, Slot, slot_eq, Account, Alloc}
use substate_cli.InMemory.Frame.{InMemoryStateDb}
use substate_cli.InMemory.Accounts.{has_suicided}
use substate_cli.InMemory.Effects.{
  get_effects, update_entry, merge_effect, fill_slot, drop_suicided,
}
use substate_cli.InMemory.Effects.Touched.{get_effects-Distinct}

-- The nonce, the balance and the code of an account, and what a read of one of its slots gives.
abbrev pub Seen : Type 0
Seen = ℕ × ℤ × Code × Hash

abbrev pub see : Hash → Account → Seen
see k account = (account.nonce, account.balance, account.code, get_or k account.storage zero_hash)

abbrev pub view_entry : Hash → Option Account → Option Seen
view_entry k o = elim o [ none ↦ none | some account ↦ some (see k account) ]

abbrev pub seen : Address → Hash → Alloc → Option Seen
seen a k alloc = view_entry k (lookup a alloc)

-- What a merge of an effect does to the entry of its address.
abbrev pub merged_entry : Account → Option Account → Option Account
merged_entry value none = some value
merged_entry value (some entry) = some (update_entry entry value)

pub lookup-merge_effect :
    (a : Address) (res : Alloc) (key : Address) (value : Account)
    → lookup a (merge_effect res key value)
      ≡ (if key == a then merged_entry value (lookup a res) else lookup a res)
unfolding merge_effect
lookup-merge_effect a res key value = elim (Option-cases (lookup key res)) [
  | inl absent ↦
      rw (absent, merge_effect) (ground (arith, lookup-put a key value res, nat_eqb_iff key a))
  | inr (entry, present) ↦
      rw (present, merge_effect)
        (ground (arith, lookup-put a key (update_entry entry value) res, nat_eqb_iff key a))
]

pub lookup-merged :
    (a : Address) (db : InMemoryStateDb)
    → lookup a (range merge_effect (get_effects db) db.alloc)
      ≡ at_key merged_entry (lookup a (get_effects db)) (lookup a db.alloc)
lookup-merged a db =
    range_observe merge_effect (lookup a) a merged_entry (lookup-merge_effect a) (get_effects db)
      db.alloc (get_effects-Distinct db)

pub merge_effect-Distinct :
    (res : Alloc) (key : Address) (value : Account)
    → Distinct res
    → Distinct (merge_effect res key value)
unfolding merge_effect
merge_effect-Distinct res key value d = elim (Option-cases (lookup key res)) [
  | inl absent ↦ rw (absent, merge_effect) (put-Distinct key value res d)
  | inr (entry, present) ↦
      rw (present, merge_effect) (put-Distinct key (update_entry entry value) res d)
]

-- A slot that is filled reads as before.
pub seen-fill_slot :
    (a : Address) (k : Hash) (res : Alloc) (slot : Slot) (n : ℕ)
    → seen a k (fill_slot res slot n) ≡ seen a k res
unfolding fill_slot
seen-fill_slot a k res slot n = elim (Option-cases (lookup slot.addr res)) [
  | inl absent ↦ rw (absent, fill_slot)
  | inr (account, present) ↦ elim (Bool-cases (has slot.key account.storage)) [
    | inl known ↦ rw (present, fill_slot, known)
    | inr unknown ↦
        rw (present, fill_slot, unknown)
          (unfold get_or has in
            ground (
              arith,
              lookup-put a slot.addr
                  (record account { storage = put slot.key zero_hash account.storage }) res,
              lookup-put k slot.key zero_hash account.storage,
              nat_eqb_iff slot.addr a,
              nat_eqb_iff slot.key k,
              unknown,
            ))
  ]
]

pub fill_slot-Distinct :
    (res : Alloc) (slot : Slot) (n : ℕ) → Distinct res → Distinct (fill_slot res slot n)
unfolding fill_slot
fill_slot-Distinct res slot n d = elim (Option-cases (lookup slot.addr res)) [
  | inl absent ↦ rw (absent, fill_slot) d
  | inr (account, present) ↦ elim (Bool-cases (has slot.key account.storage)) [
    | inl known ↦ rw (present, fill_slot, known) d
    | inr unknown ↦ rw (present, fill_slot, unknown) (put-Distinct slot.addr _ res d)
  ]
]

pub lookup-drop_suicided :
    (db : InMemoryStateDb) (a : Address) (res : Alloc) (key : Address) (value : Account)
    → Distinct res
    → lookup a (drop_suicided db res key value)
      ≡ (if key == a then (if has_suicided a db then none else lookup a res) else lookup a res)
unfolding drop_suicided
lookup-drop_suicided db a res key value d = elim (Bool-cases (has_suicided key db)) [
  | inl gone ↦ rw gone (lookup-delete a key res d ∙ ground (arith, nat_eqb_iff key a, gone))
  | inr kept ↦ rw kept (ground (arith, nat_eqb_iff key a, kept))
]

pub drop_suicided-Distinct :
    (db : InMemoryStateDb) (res : Alloc) (key : Address) (value : Account)
    → Distinct res
    → Distinct (drop_suicided db res key value)
unfolding drop_suicided
drop_suicided-Distinct db res key value d = elim (Bool-cases (has_suicided key db)) [
  | inl gone ↦ rw gone (delete-Distinct key res d)
  | inr kept ↦ rw kept d
]

-- The last loop removes the accounts that it meets and that have destructed themselves.
pub lookup-dropped :
    (db : InMemoryStateDb) (a : Address) (m res : Alloc)
    → Distinct res
    → lookup a (range (drop_suicided db) m res)
      ≡ (if has a m then (if has_suicided a db then none else lookup a res) else lookup a res)
unfolding range has lookup
lookup-dropped db a [] res d = refl
lookup-dropped db a ((key, value) ∷ m) res d =
    lookup-dropped db a m (drop_suicided db res key value)
      (drop_suicided-Distinct db res key value d)
    ∙ ground (arith, lookup-drop_suicided db a res key value d)
