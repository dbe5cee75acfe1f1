-- ===== src/Replay/Actions/LocationStats.antt =====
-- location_stats.go: the action, with its tasks, their indices and the collector of what they send.
use substate_cli.Prelude.{
  ℕ, ◌+◌, ◌<◌, ◌≡◌, refl, ◌∙◌, ap, Bool, false, true, ◌&&◌, ◌||◌, Option, some, List, [], ◌∷◌,
  arith, ◌==◌, nat_eq, nat_eqb_iff, if◌then◌else◌, inl, inr, Bool-cases,
}
use substate_cli.GoMap.{lookup, get_or}
use substate_cli.Types.{Address, Hash}
use substate_cli.Substate.{Substate}
use substate_cli.Replay.Statistic.{AccessStatistics, Summary}
use substate_cli.Replay.Statistic.Counts.{count, contains, accessing, all_sent}
use substate_cli.Replay.Statistic.Order.{get_or-Tally}
use substate_cli.Replay.Location.{Location, location_eq, Indices}
use substate_cli.Replay.Location.Extracted.{slots_in, Located, AreNumberings}
use substate_cli.Replay.Location.Interleaved.{
  Tasks, between, all_accounts, GetReach, GetReach-Located,
}
use substate_cli.Replay.Pipeline.{collected, Pipe}
use substate_cli.Replay.Actions.{TaskPool, ActionError}
use substate_cli.Replay.Actions.Statistics.{StatsReach, get_reference_stats_action, collected-Tally}

-- `getLocationStatsAction`, given what the collector has at the end.
unfoldable pub get_location_stats_action :
    TaskPool
    → List (List ℕ)
    → AccessStatistics Location
    → Option (Option (Summary × Unit {0}) × Option ActionError)
unfolding get_reference_stats_action
get_location_stats_action = get_reference_stats_action

abbrev pub has_slot : Address → Hash → List (Address × Hash) → Bool
has_slot a k [] = false
has_slot a k ((b, j) ∷ slots) = (b == a && j == k) || has_slot a k slots

-- The numbers of a location are those of the address and the key.
abbrev pub Numbers : Indices → Address → Hash → Location → Type 0
Numbers ids a k l =
    (lookup a ids.addresses ≡ some l.address_id) × (lookup k ids.keys ≡ some l.key_id)

contains-Located :
    (ids : Indices) (a : Address) (k : Hash) (l : Location) (slots : List (Address × Hash))
    (locations : List Location)
    → AreNumberings ids
    → Numbers ids a k l
    → Located ids slots locations
    → contains l locations ≡ has_slot a k slots
contains-Located ids a k l [] [] v (f, g) h = refl
contains-Located ids a k l ((b, j) ∷ slots) (m ∷ locations) v (f, g) h = ground (
  arith,
  contains-Located ids a k l slots locations v (f, g) h.2,
  h.0,
  h.1,
  f,
  g,
  v.addresses.injective b a l.address_id,
  v.keys.injective j k l.key_id,
  nat_eqb_iff b a,
  nat_eqb_iff j k,
  nat_eqb_iff m.address_id l.address_id,
  nat_eqb_iff m.key_id l.key_id,
)
contains-Located ids a k l [] (m ∷ locations) v n h = elim h [ ]
contains-Located ids a k l (s ∷ slots) [] v n h = elim h [ ]

Located-Numbers :
    (ids : Indices) (a : Address) (k : Hash) (slots : List (Address × Hash))
    (locations : List Location)
    → Located ids slots locations
    → has_slot a k slots ≡ true
    → (l : Location) × Numbers ids a k l
Located-Numbers ids a k [] [] h e = absurd cc
Located-Numbers ids a k ((b, j) ∷ slots) (m ∷ locations) h e =
    elim (Bool-cases (b == a && j == k)) [
      | inl here ↦ (m, ground (arith, here, h.0, h.1, nat_eqb_iff b a, nat_eqb_iff j k))
      | inr other ↦ Located-Numbers ids a k slots locations h.2 (ground (arith, other, e))
    ]
Located-Numbers ids a k [] (m ∷ locations) h e = elim h [ ]
Located-Numbers ids a k (s ∷ slots) [] h e = elim h [ ]

module _ (record_of : ℕ → Substate) where
  -- How many of the tasks have the slot in their record.
  abbrev pub accessing_slot : Address → Hash → List ℕ → ℕ
  accessing_slot a k [] = 0
  accessing_slot a k (i ∷ tasks) =
      (if has_slot a k (slots_in (all_accounts record_of i)) then 1 else 0)
      + accessing_slot a k tasks

  -- The tasks have ended, with these locations.
  abbrev pub AllEnded : Tasks → List ℕ → List (List Location) → Type 0
  AllEnded s [] [] = Unit
  AllEnded s (i ∷ tasks) (locations ∷ found) =
      (s.task i ≡ between [] locations) × AllEnded s tasks found
  AllEnded s [] (locations ∷ found) = ⊥
  AllEnded s (i ∷ tasks) [] = ⊥

  accessing-Numbers :
      {s : Tasks} (tasks : List ℕ) (found : List (List Location)) (a : Address) (k : Hash)
      (l : Location)
      → GetReach record_of s
      → AllEnded s tasks found
      → Numbers s.indices a k l
      → accessing l found ≡ accessing_slot a k tasks
  accessing-Numbers [] [] a k l r e n = refl
  accessing-Numbers {s} (i ∷ tasks) (locations ∷ found) a k l r e n =
      let (v, located) = GetReach-Located record_of i locations r e.0 in
      let same =
        contains-Located s.indices a k l (slots_in (all_accounts record_of i)) locations v n
          located in
      rw same (
        ap (λ rest. (if has_slot a k (slots_in (all_accounts record_of i)) then 1 else 0) + rest)
          (accessing-Numbers tasks found a k l r e.1 n))
  accessing-Numbers [] (locations ∷ found) a k l r e n = elim e [ ]
  accessing-Numbers (i ∷ tasks) [] a k l r e n = elim e [ ]

  accessing_slot-Numbers :
      {s : Tasks} (tasks : List ℕ) (found : List (List Location)) (a : Address) (k : Hash)
      → GetReach record_of s
      → AllEnded s tasks found
      → 0 < accessing_slot a k tasks
      → (l : Location) × Numbers s.indices a k l
  accessing_slot-Numbers [] [] a k r e h = absurd (omega (arith, h))
  accessing_slot-Numbers {s} (i ∷ tasks) (locations ∷ found) a k r e h =
      let slots = slots_in (all_accounts record_of i) in
      elim (Bool-cases (has_slot a k slots)) [
        | inl here ↦
            Located-Numbers s.indices a k slots locations
              (GetReach-Located record_of i locations r e.0).1 here
        | inr other ↦ accessing_slot-Numbers tasks found a k r e.1 (ground (arith, other, h))
      ]
  accessing_slot-Numbers [] (locations ∷ found) a k r e h = elim e [ ]
  accessing_slot-Numbers (i ∷ tasks) [] a k r e h = elim e [ ]

  -- Let the tasks of the action end, however they interleave their calls of `Get`, and send what
  -- they found in any order, and let the collector receive it in any schedule. Past the wait, the
  -- statistic has for the numbers of an address and a key how many of the tasks have this slot of
  -- the address in their record, and each slot that is in a record has such numbers.
  pub StatsReach-accessing_slot :
      {s : Tasks} (tasks : List ℕ) (found : List (List Location)) (items : List Location)
      (p : Pipe Location (AccessStatistics Location)) (a : Address) (k : Hash)
      → GetReach record_of s
      → AllEnded s tasks found
      → ((l : Location) → count l items ≡ count l (all_sent found))
      → StatsReach false items p
      → p.stage ≡ collected
      → ((l : Location) → Numbers s.indices a k l → get_or l p.state 0 ≡ accessing_slot a k tasks)
        × (0 < accessing_slot a k tasks → (l : Location) × Numbers s.indices a k l)
  StatsReach-accessing_slot tasks found items p a k r e h reached c = (
    λ l n.
        get_or-Tally l found p.state (collected-Tally found items p h reached c)
        ∙ accessing-Numbers tasks found a k l r e n,
    accessing_slot-Numbers tasks found a k r e,
  )
