-- ===== src/InMemory/Refine/AccessList.antt =====
-- `PrepareAccessList` puts exactly the given addresses and slots on the access list.
use substate_cli.Prelude.{
  ◌≡◌, refl, ◌∙◌, Bool, true, ◌&&◌, ◌||◌, Option, none, some, List, [], ◌∷◌, arith, ◌==◌, nat_eq,
  nat_eqb_iff,
}
use substate_cli.Types.{Address, Hash}
use substate_cli.InMemory.Frame.{InMemoryStateDb}
use substate_cli.InMemory.Access.{
  AccessTuple, add_addresses, add_slots, add_tuples, add_destination, add_address_to_access_list,
  add_slot_to_access_list, prepare_access_list,
}
use substate_cli.InMemory.Op.{Op}
use substate_cli.InMemory.Spec.{View, write, contains, tuples_list, tuples_list_slot, is_dest}
use substate_cli.InMemory.Refine.{view}
use substate_cli.InMemory.Refine.Writes.{view-add_address, view-add_slot}

-- A view with another access list.
abbrev with_lists : (Address → Bool) → (Address → Hash → Bool) → View → View
with_lists listed slots v = record v { listed = listed; slot_listed = slots }

with_lists_ext :
    (v : View) (l m : Address → Bool) (s t : Address → Hash → Bool)
    → ((a : Address) → l a ≡ m a)
    → ((a : Address) (k : Hash) → s a k ≡ t a k)
    → with_lists l s v ≡ with_lists m t v
with_lists_ext v l m s t h k = λ i. with_lists (λ a. h a i) (λ a x. k a x i) v

view-add_addresses :
    (addrs : List Address) (db : InMemoryStateDb)
    → view (add_addresses addrs db)
      ≡ with_lists (λ a. contains a addrs || (view db).listed a) (view db).slot_listed (view db)
unfolding add_addresses
view-add_addresses [] db = refl
view-add_addresses (addr ∷ rest) db =
    view-add_addresses rest (add_address_to_access_list addr db)
    ∙ rw view-add_address
        (unfold write in with_lists_ext (view db) _ _ _ _ (λ a. ground arith) (λ a k. refl))

-- The address of the slots is on the list already.
view-add_slots :
    (addr : Address) (keys : List Hash) (db : InMemoryStateDb)
    → (view db).listed addr ≡ true
    → view (add_slots addr keys db)
      ≡ with_lists
          (view db).listed
          (λ a k. (addr == a && contains k keys) || (view db).slot_listed a k)
          (view db)
unfolding add_slots
view-add_slots addr [] db listed =
    with_lists_ext (view db) _ _ _ _ (λ a. refl) (λ a k. ground arith)
view-add_slots addr (key ∷ rest) db listed =
    view-add_slots addr rest (add_slot_to_access_list addr key db)
      (rw view-add_slot (unfold write in ground arith))
    ∙ rw view-add_slot (
        unfold write in
        with_lists_ext (view db) _ _ _ _ (λ a. ground (arith, nat_eqb_iff addr a))
          (λ a k. ground arith))

view-add_tuples :
    (accesses : List AccessTuple) (db : InMemoryStateDb)
    → view (add_tuples accesses db)
      ≡ with_lists
          (λ a. tuples_list accesses a || (view db).listed a)
          (λ a k. tuples_list_slot accesses a k || (view db).slot_listed a k)
          (view db)
unfolding add_tuples
view-add_tuples [] db = refl
view-add_tuples (el ∷ rest) db =
    view-add_tuples rest
      (add_slots el.address el.storage_keys (add_address_to_access_list el.address db))
    ∙ rw
        (view-add_slots el.address el.storage_keys (add_address_to_access_list el.address db)
          (rw view-add_address (unfold write in ground arith)))
        (rw view-add_address (
          unfold write in
          with_lists_ext (view db) _ _ _ _ (λ a. ground arith) (λ a k. ground arith)))

view-add_destination :
    (dest : Option Address) (db : InMemoryStateDb)
    → view (add_destination dest db)
      ≡ with_lists (λ a. is_dest dest a || (view db).listed a) (view db).slot_listed (view db)
unfolding add_destination
view-add_destination none db = refl
view-add_destination (some dest) db =
    rw view-add_address
      (unfold write in with_lists_ext (view db) _ _ _ _ (λ a. ground arith) (λ a k. refl))

pub view-prepare_access_list :
    (sender : Address) (dest : Option Address) (precompiles : List Address)
    (accesses : List AccessTuple) (db : InMemoryStateDb)
    → view (prepare_access_list sender dest precompiles accesses db)
      ≡ write (Op.prepare_access_list sender dest precompiles accesses) (view db)
unfolding prepare_access_list write
view-prepare_access_list sender dest precompiles accesses db =
    simp (view-add_tuples, view-add_addresses, view-add_destination, view-add_address)
      (unfold write in with_lists_ext (view db) _ _ _ _ (λ a. ground arith) (λ a k. refl))
