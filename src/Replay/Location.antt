-- ===== src/Replay/Location.antt =====
-- cmd/substate-cli/replay/location_stats.go: the numbering of addresses and keys, and the storage
-- locations that a transaction accesses.
pub mod Numbering
pub mod Extracted
pub mod Interleaved
use substate_cli.Prelude.{
  ℕ, ◌↔◌, arith, nat_eqb, nat_eqb_iff, ◌+◌, ◌≡◌, Bool, true, false, ◌&&◌, Option, none, some, List,
  [], ◌∷◌, ◌++◌, Eq, ◌==◌, nat_eq, length, if◌then◌else◌,
}
use substate_cli.GoMap.{GoMap, lookup, put}
use substate_cli.Types.{Address, Hash, Account, Alloc}
use substate_cli.Substate.{Substate}

-- `Index[T]`: its map, which a first `Get` makes. The mutex makes each `Get` one step.
abbrev pub Index : Type 0 → Type 0
Index T = GoMap T ℕ

-- `Index[T].Get`
unfoldable pub get : {T : Type 0} ⦃e : Eq T⦄ → T → Index T → Index T × ℕ
get value i = elim (lookup value i) [ some v ↦ (i, v) | none ↦ (put value (length i) i, length i) ]

pub record Location : Type 0 where
  pub address_id : ℕ
  pub key_id : ℕ

-- Go's `==` on locations, by which a map finds them.
abbrev pub location_eqb : Location → Location → Bool
location_eqb l m = nat_eqb l.address_id m.address_id && nat_eqb l.key_id m.key_id

pub location_eqb_iff : (l m : Location) → (location_eqb l m ≡ true) ↔ (l ≡ m)
location_eqb_iff l m =
    ground (arith, nat_eqb_iff l.address_id m.address_id, nat_eqb_iff l.key_id m.key_id)

instance abbrev pub location_eq : Eq Location
location_eq = record { equal = location_eqb; equal_iff = location_eqb_iff }

-- The two indices, which all the tasks share.
pub record Indices : Type 0 where
  pub addresses : Index Address
  pub keys : Index Hash

-- `for key := range account.Storage { ... }`
unfoldable pub key_locations : ℕ → GoMap Hash Hash → Indices → Indices × List Location
unfolding get
key_locations address_id [] ids = (ids, [])
key_locations address_id ((key, _) ∷ storage) ids =
    let (keys, key_id) = get key ids.keys in
    let (ids', locations) = key_locations address_id storage (record ids { keys = keys }) in
    (ids', record { address_id = address_id; key_id = key_id } ∷ locations)

-- `for address, account := range alloc { ... }`
unfoldable pub alloc_locations : Alloc → Indices → Indices × List Location
unfolding get key_locations
alloc_locations [] ids = (ids, [])
alloc_locations ((address, account) ∷ rest) ids =
    let (addresses, address_id) = get address ids.addresses in
    let (ids1, locations) =
      key_locations address_id account.storage (record ids { addresses = addresses }) in
    let (ids2, others) = alloc_locations rest ids1 in (ids2, locations ++ others)

-- The extractor of `getLocationStatsAction`.
unfoldable pub extract_locations : Substate → Indices → Indices × List Location
unfolding alloc_locations
extract_locations st ids =
    let (ids1, locations) = alloc_locations st.input_alloc ids in
    let (ids2, others) = alloc_locations st.output_alloc ids1 in (ids2, locations ++ others)
