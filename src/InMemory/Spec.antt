-- ===== src/InMemory/Spec.antt =====
-- The contract of a state database, with no chain and no maps: what its readers return is a
-- view, a write changes the view, a snapshot keeps a copy of it, and a revert brings a copy back.
use substate_cli.Prelude.{
  ℕ, ◌+◌, ◌-◌, ◌%◌, Bool, true, false, ◌&&◌, ◌||◌, Option, none, some, List, [], ◌∷◌, ◌++◌, ◌==◌,
  nat_eq, if◌then◌else◌,
}
use substate_cli.Prelude.Int.{ℤ, pos, ◌+ℤ◌, ◌-ℤ◌, is_zero}
use substate_cli.Types.{Address, Hash, Code, Log}
use substate_cli.InMemory.Access.{AccessTuple, word}
use substate_cli.InMemory.Op.{Op}

pub record View : Type 0 where
  pub balance : Address → ℤ
  pub nonce : Address → ℕ
  pub code : Address → Code
  pub storage : Address → Hash → Hash
  pub exists : Address → Bool
  pub suicided : Address → Bool
  pub listed : Address → Bool
  pub slot_listed : Address → Hash → Bool
  pub logs : List Log
  pub refund : ℕ

-- A function changed at one address.
abbrev pub set_at {ℓ} : {V : Type ℓ} → Address → V → (Address → V) → Address → V
set_at k v f a = if k == a then v else f a

abbrev pub set_slot {ℓ} :
    {V : Type ℓ} → Address → Hash → V → (Address → Hash → V) → Address → Hash → V
set_slot addr key v f a k = if addr == a && key == k then v else f a k

abbrev pub contains : ℕ → List ℕ → Bool
contains a [] = false
contains a (x ∷ xs) = x == a || contains a xs

-- The addresses and the slots of a transaction's access list.
abbrev pub tuples_list : List AccessTuple → Address → Bool
tuples_list [] a = false
tuples_list (el ∷ rest) a = el.address == a || tuples_list rest a

abbrev pub tuples_list_slot : List AccessTuple → Address → Hash → Bool
tuples_list_slot [] a k = false
tuples_list_slot (el ∷ rest) a k =
    (el.address == a && contains k el.storage_keys) || tuples_list_slot rest a k

abbrev pub is_dest : Option Address → Address → Bool
is_dest none a = false
is_dest (some dest) a = dest == a

abbrev pub transfer : Address → ℤ → ℤ → View → View
transfer addr value new v =
    if is_zero value
    then v
    else record v { balance = set_at addr new v.balance; exists = set_at addr true v.exists }

-- What a call writes to the view. Account creation, reads, snapshots and reverts write nothing.
unfoldable pub write : Op → View → View
write (Op.sub_balance addr value) v = transfer addr value (v.balance addr -ℤ value) v
write (Op.add_balance addr value) v = transfer addr value (v.balance addr +ℤ value) v
write (Op.set_nonce addr value) v = record v {
  nonce = set_at addr value v.nonce;
  exists = set_at addr true v.exists;
}
write (Op.set_code addr code) v = record v {
  code = set_at addr code v.code;
  exists = set_at addr true v.exists;
}
write (Op.add_refund gas) v = record v { refund = (v.refund + gas) % word }
write (Op.sub_refund gas) v = record v { refund = (v.refund + word - gas) % word }
write (Op.set_state addr key value) v = record v {
  storage = set_slot addr key value v.storage;
  exists = set_at addr true v.exists;
}
write (Op.suicide addr) v = record v {
  suicided = set_at addr true v.suicided;
  balance = set_at addr (pos 0) v.balance;
}
write (Op.add_address addr) v = record v { listed = set_at addr true v.listed }
write (Op.add_slot addr key) v = record v {
  listed = set_at addr true v.listed;
  slot_listed = set_slot addr key true v.slot_listed;
}
write (Op.prepare_access_list sender dest precompiles accesses) v = record v {
  listed = λ a.
      sender == a
      || (is_dest dest a || (contains a precompiles || (tuples_list accesses a || v.listed a)));
  slot_listed = λ a k. tuples_list_slot accesses a k || v.slot_listed a k;
}
write (Op.add_log log) v = record v { logs = v.logs ++ log ∷ [] }
write _ v = v

-- The current view with its identifier, the copies kept, and the last identifier given out.
pub record Spec : Type 0 where
  pub id : ℕ
  pub view : View
  pub saved : List (ℕ × View)
  pub counter : ℕ

unfoldable pub bring_back : ℕ → ℕ → List (ℕ × View) → Option Spec
bring_back id counter [] = none
bring_back id counter ((n, v) ∷ rest) =
    if n == id
    then some (record { id = n; view = v; saved = rest; counter = counter })
    else bring_back id counter rest

unfoldable pub spec_step : Op → Spec → Option Spec
unfolding write bring_back
spec_step Op.snapshot s =
    some
      (record s { id = s.counter + 1; saved = (s.id, s.view) ∷ s.saved; counter = s.counter + 1 })
spec_step (Op.revert id) s = bring_back id s.counter ((s.id, s.view) ∷ s.saved)
spec_step (Op.add_preimage hash preimage) s = none
spec_step op s = some (record s { view = write op s.view })

unfoldable pub spec_run : List Op → Spec → Option Spec
spec_run [] s = some s
spec_run (op ∷ ops) s = elim (spec_step op s) [ none ↦ none | some s' ↦ spec_run ops s' ]
