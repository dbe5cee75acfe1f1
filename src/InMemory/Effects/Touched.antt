-- ===== src/InMemory/Effects/Touched.antt =====
-- What `GetEffects` reports: the touched addresses, each with what the getters return and with the
-- innermost value of every slot that the chain has.
use substate_cli.Prelude.{
  ◌≡◌, refl, inl, inr, Bool-cases, ◌∙◌, ap, Bool, true, false, ◌||◌, Option, none, some, List, [],
  ◌∷◌, arith, ◌==◌, nat_eq, nat_eqb_iff, if◌then◌else◌, ℕ,
}
use substate_cli.GoMap.{GoMap, range, lookup, has, put, Distinct}
use substate_cli.GoMap.Laws.{
  at_key, absorbed, range_observe_first, range_inv, lookup-nil, lookup-put, has-put, put-Distinct,
}
use substate_cli.Types.{Address, Hash, Slot, slot_eq, Account}
use substate_cli.InMemory.Frame.{Snapshot, InMemoryStateDb, chain, first_in, any_in}
use substate_cli.InMemory.Effects.{
  collect_touched, Report, report_slot, report_storage, account_effect, get_effects,
}

abbrev pub touched_in : List Snapshot → Address → Bool
touched_in frames a = any_in (λ s. has a s.touched) frames

touch_all :
    (a : Address) (m : GoMap Address ℕ) (acc : GoMap Address ℕ)
    → has a (range (λ t addr _. put addr 0 t) m acc) ≡ (has a m || has a acc)
touch_all a m acc =
    range_observe_first (λ t addr _. put addr 0 t) (has a) a (λ _ _. true)
      (λ t addr _. has-put a addr 0 t) (λ _ _ _. refl) m acc
    ∙ (unfold has in ground arith)

has-collect_touched :
    (a : Address) (frames : List Snapshot) (acc : GoMap Address ℕ)
    → has a (collect_touched frames acc) ≡ (has a acc || touched_in frames a)
unfolding collect_touched any_in
has-collect_touched a [] acc = ground arith
has-collect_touched a (s ∷ rest) acc =
    has-collect_touched a rest (range (λ t addr _. put addr 0 t) s.touched acc)
    ∙ rw (touch_all a s.touched acc) (ground arith)

collect_touched-Distinct :
    (frames : List Snapshot) (acc : GoMap Address ℕ)
    → Distinct acc
    → Distinct (collect_touched frames acc)
unfolding collect_touched
collect_touched-Distinct [] acc d = d
collect_touched-Distinct (s ∷ rest) acc d =
    collect_touched-Distinct rest _
      (range_inv Distinct _ (λ t addr _ e. put-Distinct addr 0 t e) s.touched acc d)

pub get_effects-Distinct : (db : InMemoryStateDb) → Distinct (get_effects db)
unfolding get_effects
get_effects-Distinct db =
    range_inv Distinct _ (λ res addr _ e. put-Distinct addr (account_effect db addr) res e)
      (collect_touched (chain db) []) [] tt

-- The effects have an entry for exactly the touched addresses.
pub lookup-get_effects :
    (a : Address) (db : InMemoryStateDb)
    → lookup a (get_effects db)
      ≡ (if touched_in (chain db) a then some (account_effect db a) else none)
unfolding get_effects
lookup-get_effects a db =
    range_observe_first (λ res addr _. put addr (account_effect db addr) res) (lookup a) a
      (λ _ _. some (account_effect db a))
      (λ res addr _.
        lookup-put a addr (account_effect db addr) res ∙ ground (arith, nat_eqb_iff addr a))
      (λ _ _ _. refl) (collect_touched (chain db) []) []
    ∙ (unfold has in
        ground (
          arith,
          has-collect_touched a (chain db) [],
          lookup-nil {V = Account} a,
          lookup-nil {V = ℕ} a,
        ))

-- The report of one slot: whether its key was met, and the value kept.
abbrev seen_key : Hash → Report → Bool × Option Hash
seen_key k r = (has k r.reported, lookup k r.storage)

abbrev keep_first : Hash → Bool × Option Hash → Bool × Option Hash
keep_first v (true, o) = (true, o)
keep_first v (false, o) = (true, some v)

keep_first-absorbs :
    (v w : Hash) (b : Bool × Option Hash) → keep_first w (keep_first v b) ≡ keep_first v b
keep_first-absorbs v w (true, o) = refl
keep_first-absorbs v w (false, o) = refl

keep_first_twice :
    (o p : Option Hash) (b : Bool × Option Hash)
    → at_key keep_first p (at_key keep_first o b)
      ≡ at_key keep_first (elim o [ some v ↦ some v | none ↦ p ]) b
keep_first_twice none p b = refl
keep_first_twice (some v) p b = absorbed keep_first keep_first-absorbs v b p

kept_first : (o : Option Hash) → (at_key keep_first o (false, none)).1 ≡ o
kept_first none = refl
kept_first (some v) = refl

seen_key-report_slot :
    (addr : Address) (k : Hash) (r : Report) (slot : Slot) (v : Hash)
    → seen_key k (report_slot addr r slot v) ≡ (
        if slot == record { addr = addr; key = k }
        then keep_first v (seen_key k r)
        else seen_key k r)
unfolding report_slot
seen_key-report_slot addr k r slot v = ground (
  arith,
  has-put k slot.key 0 r.reported,
  lookup-put k slot.key v r.storage,
  nat_eqb_iff slot.key k,
)

seen_key-report_storage :
    (addr : Address) (k : Hash) (frames : List Snapshot) (r : Report)
    → seen_key k (report_storage addr frames r)
      ≡ at_key keep_first
          (first_in (λ s. lookup (record { addr = addr; key = k }) s.storage) frames)
          (seen_key k r)
unfolding report_storage first_in
seen_key-report_storage addr k [] r = refl
seen_key-report_storage addr k (s ∷ rest) r =
    seen_key-report_storage addr k rest (range (report_slot addr) s.storage r)
    ∙ rw
        (range_observe_first (report_slot addr) (seen_key k) (record { addr = addr; key = k })
          keep_first (seen_key-report_slot addr k) keep_first-absorbs s.storage r)
        (keep_first_twice (lookup (record { addr = addr; key = k }) s.storage) _ (seen_key k r))

-- The reported storage of an account has, for each key, the innermost value that the chain has.
pub lookup-account_effect :
    (a : Address) (k : Hash) (db : InMemoryStateDb)
    → lookup k (account_effect db a).storage
      ≡ first_in (λ s. lookup (record { addr = a; key = k }) s.storage) (chain db)
unfolding account_effect has lookup
lookup-account_effect a k db =
    ap (λ (b : Bool × Option Hash). b.1)
      (seen_key-report_storage a k (chain db) (record { reported = []; storage = [] }))
    ∙ kept_first (first_in (λ s. lookup (record { addr = a; key = k }) s.storage) (chain db))

report_slot-Distinct :
    (addr : Address) (r : Report) (slot : Slot) (v : Hash)
    → Distinct r.storage
    → Distinct (report_slot addr r slot v).storage
unfolding report_slot
report_slot-Distinct addr r slot v d = elim (Bool-cases (slot.addr == addr)) [
  | inl same ↦ elim (Bool-cases (has slot.key r.reported)) [
    | inl met ↦ rw (same, met) d
    | inr new ↦ rw (same, new) (put-Distinct slot.key v r.storage d)
  ]
  | inr other ↦ rw other d
]

report_storage-Distinct :
    (addr : Address) (frames : List Snapshot) (r : Report)
    → Distinct r.storage
    → Distinct (report_storage addr frames r).storage
unfolding report_storage
report_storage-Distinct addr [] r d = d
report_storage-Distinct addr (s ∷ rest) r d = report_storage-Distinct addr rest _ (
    range_inv (λ (r : Report). Distinct r.storage) (report_slot addr)
      (λ r slot v e. report_slot-Distinct addr r slot v e) s.storage r d)

pub account_effect-Distinct :
    (a : Address) (db : InMemoryStateDb) → Distinct (account_effect db a).storage
unfolding account_effect
account_effect-Distinct a db = report_storage-Distinct a (chain db) _ tt
