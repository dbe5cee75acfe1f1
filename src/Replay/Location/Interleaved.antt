-- ===== src/Replay/Location/Interleaved.antt =====
-- The extractor of location_stats.go in many tasks at once, which share the two indices. Each `Get`
-- is one step, since it holds the mutex of its index.
use mathlib.Core.List.{append_assoc, append-nil}
use substate_cli.Prelude.{
  ℕ, ◌≡◌, refl, sym, ◌∙◌, subst, inl, inr, some, List, [], ◌∷◌, ◌++◌, ◌==◌, nat_eq, nat_eqb_iff,
  if◌then◌else◌, Bool-cases,
}
use substate_cli.GoMap.{GoMap, lookup}
use substate_cli.Types.{Address, Hash, Account, Alloc}
use substate_cli.Substate.{Substate}
use substate_cli.Replay.Location.{get, Location, Indices}
use substate_cli.Replay.Location.Numbering.{get-Answers, empty-IsNumbering}
use substate_cli.Replay.Location.Extracted.{
  slots_at, slots_in, Located, AreNumberings, Extends, Located-Extends, Located-append,
}

-- Where a task stands in its loops, with the locations that it has: before the accounts that are
-- left, or inside one, with its number and the slots that are left.
pub data LocationTask : Type 0 where
  between : (rest : Alloc) (locations : List Location) → LocationTask
  inside :
      (address : Address) (address_id : ℕ) (storage : GoMap Hash Hash) (rest : Alloc)
      (locations : List Location)
      → LocationTask

pub record Tasks : Type 0 where
  pub indices : Indices
  pub task : ℕ → LocationTask

abbrev pub set_task : ℕ → LocationTask → (ℕ → LocationTask) → ℕ → LocationTask
set_task i t f j = if i == j then t else f j

-- Task `i` takes the next account, takes the next slot, or leaves the account.
pub data GetStep (s : Tasks) : Tasks → Type 0 where
  get_address :
      (i : ℕ) (address : Address) (account : Account) (rest : Alloc) (locations : List Location)
      → s.task i ≡ between ((address, account) ∷ rest) locations
      → GetStep s (record {
        indices = record s.indices { addresses = (get address s.indices.addresses).0 };
        task =
            set_task i
              (inside address (get address s.indices.addresses).1 account.storage rest locations)
              s.task;
      })
  get_key :
      (i : ℕ) (address : Address) (address_id : ℕ) (key value : Hash) (storage : GoMap Hash Hash)
      (rest : Alloc) (locations : List Location)
      → s.task i ≡ inside address address_id ((key, value) ∷ storage) rest locations
      → GetStep s (record {
        indices = record s.indices { keys = (get key s.indices.keys).0 };
        task =
            set_task i
              (inside address address_id storage rest (
                locations
                ++ record { address_id = address_id; key_id = (get key s.indices.keys).1 } ∷ []))
              s.task;
      })
  leave :
      (i : ℕ) (address : Address) (address_id : ℕ) (rest : Alloc) (locations : List Location)
      → s.task i ≡ inside address address_id [] rest locations
      → GetStep s (record s { task = set_task i (between rest locations) s.task })

module _ (record_of : ℕ → Substate) where
  abbrev pub all_accounts : ℕ → Alloc
  all_accounts i = (record_of i).input_alloc ++ (record_of i).output_alloc

  abbrev pub at_start : Tasks
  at_start = record {
    indices = record { addresses = []; keys = [] };
    task = λ i. between (all_accounts i) [];
  }

  pub data GetReach : Tasks → Type 0 where
    starts : GetReach at_start
    goes_on : {s t : Tasks} → GetReach s → GetStep s t → GetReach t

  -- The locations of a task are those of the slots that it has met, which with those that are left
  -- are all of its record.
  record Met (ids : Indices) (i : ℕ) (left : List (Address × Hash)) (locations : List Location)
      : Type 0 where
    met : List (Address × Hash)
    all : met ++ left ≡ slots_in (all_accounts i)
    located : Located ids met locations

  abbrev OnTrack : Indices → ℕ → LocationTask → Type 0
  OnTrack ids i (between rest locations) = Met ids i (slots_in rest) locations
  OnTrack ids i (inside address address_id storage rest locations) =
      (lookup address ids.addresses ≡ some address_id)
      × Met ids i (slots_at address storage ++ slots_in rest) locations

  Met-Extends :
      {ids ids' : Indices} (i : ℕ) (left : List (Address × Hash)) (locations : List Location)
      → Extends ids ids'
      → Met ids i left locations
      → Met ids' i left locations
  Met-Extends i left locations e h = record {
    met = h.met;
    all = h.all;
    located = Located-Extends h.met locations e h.located;
  }

  OnTrack-Extends :
      {ids ids' : Indices} (i : ℕ) (t : LocationTask)
      → Extends ids ids'
      → OnTrack ids i t
      → OnTrack ids' i t
  OnTrack-Extends i (between rest locations) e h = Met-Extends i (slots_in rest) locations e h
  OnTrack-Extends i (inside address address_id storage rest locations) e h = (
    e.addresses address address_id h.0,
    Met-Extends i (slots_at address storage ++ slots_in rest) locations e h.1,
  )

  record TasksInv (s : Tasks) : Type 0 where
    numberings : AreNumberings s.indices
    on_track : (i : ℕ) → OnTrack s.indices i (s.task i)

  -- One task moves on, and the indices only grow.
  moved :
      (s : Tasks) (ids : Indices) (i : ℕ) (t : LocationTask)
      → Extends s.indices ids
      → OnTrack ids i t
      → TasksInv s
      → (j : ℕ) → OnTrack ids j (set_task i t s.task j)
  moved s ids i t e h v j = elim (Bool-cases (i == j)) [
    | inl here ↦ rw here (subst (λ k. OnTrack ids k t) ((nat_eqb_iff i j).0 here) h)
    | inr other ↦ rw other (OnTrack-Extends j (s.task j) e (v.on_track j))
  ]

  one_more :
      (ids ids' : Indices) (i : ℕ) (a : Address) (k : Hash) (left : List (Address × Hash))
      (locations : List Location) (l : Location)
      → Extends ids ids'
      → lookup a ids'.addresses ≡ some l.address_id
      → lookup k ids'.keys ≡ some l.key_id
      → Met ids i ((a, k) ∷ left) locations
      → Met ids' i left (locations ++ l ∷ [])
  one_more ids ids' i a k left locations l e p q h = record {
    met = h.met ++ (a, k) ∷ [];
    all = append_assoc h.met ((a, k) ∷ []) left ∙ h.all;
    located =
        Located-append ids' h.met ((a, k) ∷ []) locations (l ∷ [])
          (Located-Extends h.met locations e h.located) (p, q, tt);
  }

  GetStep-Inv : {s t : Tasks} → GetStep s t → TasksInv s → TasksInv t
  GetStep-Inv {s} (get_address i address account rest locations at_it) v =
      let asked = get-Answers address s.indices.addresses v.numberings.addresses in
      let ids : Indices = record s.indices { addresses = (get address s.indices.addresses).0 } in
      let e : Extends s.indices ids = record { addresses = asked.kept; keys = λ k n h. h } in
      record {
        numberings = record { addresses = asked.numbering; keys = v.numberings.keys };
        on_track =
            moved s ids i _ e
              (
                asked.answer,
                Met-Extends i (slots_in ((address, account) ∷ rest)) locations e
                    (rw at_it at (v.on_track i)),
              )
              v;
      }
  GetStep-Inv {s} (get_key i address address_id key value storage rest locations at_it) v =
      let asked = get-Answers key s.indices.keys v.numberings.keys in
      let ids : Indices = record s.indices { keys = (get key s.indices.keys).0 } in
      let e : Extends s.indices ids = record { addresses = λ a n h. h; keys = asked.kept } in
      let here : OnTrack s.indices i
          (inside address address_id ((key, value) ∷ storage) rest locations) =
        rw at_it at (v.on_track i) in
      record {
        numberings = record { addresses = v.numberings.addresses; keys = asked.numbering };
        on_track =
            moved s ids i _ e
              (
                here.0,
                one_more s.indices ids i address key (slots_at address storage ++ slots_in rest)
                    locations
                    (record { address_id = address_id; key_id = (get key s.indices.keys).1 }) e
                    here.0 asked.answer here.1,
              )
              v;
      }
  GetStep-Inv {s} (leave i address address_id rest locations at_it) v =
      let here : OnTrack s.indices i (inside address address_id [] rest locations) =
        rw at_it at (v.on_track i) in
      record {
        numberings = v.numberings;
        on_track =
            moved s s.indices i (between rest locations)
              (record { addresses = λ a n h. h; keys = λ k n h. h }) here.1 v;
      }

  GetReach-Inv : {s : Tasks} → GetReach s → TasksInv s
  GetReach-Inv starts = record {
    numberings = record { addresses = empty-IsNumbering; keys = empty-IsNumbering };
    on_track = λ i. record { met = []; all = refl; located = tt };
  }
  GetReach-Inv (goes_on r st) = GetStep-Inv st (GetReach-Inv r)

  -- However the tasks interleave their calls of `Get` on the two indices, which are empty at first:
  -- the indices number no two values alike, and the locations of a task that has ended are, in the
  -- order of its loops, the numbers of the address and of the key of each slot of its two allocations.
  pub GetReach-Located :
      {s : Tasks} (i : ℕ) (locations : List Location)
      → GetReach s
      → s.task i ≡ between [] locations
      → AreNumberings s.indices × Located s.indices (slots_in (all_accounts i)) locations
  GetReach-Located {s} i locations r e =
      let v = GetReach-Inv r in
      let ended : OnTrack s.indices i (between [] locations) = rw e at (v.on_track i) in
      (
        v.numberings,
        subst (λ slots. Located s.indices slots locations) (sym (append-nil ended.met) ∙ ended.all)
            ended.located,
      )
