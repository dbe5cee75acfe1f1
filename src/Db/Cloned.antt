-- ===== src/Db/Cloned.antt =====
-- What a copy of a range of blocks holds.
use substate_cli.Prelude.{
  ℕ, ◌≤◌, ◌<◌, ◌≡◌, refl, ◌∙◌, inl, inr, Bool, false, ◌&&◌, Option, none, some, List, [], ◌∷◌,
  arith, ◌==◌, nat_eq, nat_eqb_iff, if◌then◌else◌, Bool-cases,
}
use substate_cli.Prelude.Int.{pos}
use substate_cli.Substate.{Substate}
use substate_cli.Replay.Config.{IsNumber, parse_uint, parse_uint_iff}
use substate_cli.Replay.Actions.{Transaction, TaskPool}
use substate_cli.Db.{
  cutoff, parse_int, clone_range, clone_arguments, accepted, SubstateDb, Opened, opened,
  clone_tasks, clone,
}

parse_int-digits : (s : List ℕ) (v : ℕ) → IsNumber s v → v < cutoff → parse_int s ≡ (pos v, none)
unfolding parse_int
parse_int-digits [] v h b = absurd h
parse_int-digits (c ∷ rest) v h b =
    let whole : parse_uint (c ∷ rest) ≡ (v, none) = (parse_uint_iff (c ∷ rest) v).1 h in
    let digits = h.0 in
    let no_plus : (c == b'+') ≡ false = ground arith in
    let no_minus : (c == b'-') ≡ false = ground arith in
    rw (no_plus, no_minus, whole) (ground arith)

-- Texts that `SetBlockRange` takes for a range are one here too, below 2 ^ 63.
clone_arguments-accepted :
    (src_path dst_path first_arg last_arg : List ℕ) (first last : ℕ)
    → IsNumber first_arg first
    → IsNumber last_arg last
    → first ≤ last
    → last < cutoff
    → clone_arguments (src_path ∷ dst_path ∷ first_arg ∷ last_arg ∷ [])
      ≡ accepted src_path dst_path first last
unfolding clone_arguments clone_range
clone_arguments-accepted src_path dst_path first_arg last_arg first last f l h b =
    rw (parse_int-digits first_arg first f (omega arith), parse_int-digits last_arg last l b)
      (ground arith)

abbrev is_at : ℕ → ℕ → Transaction → Bool
is_at block tx t = t.block == block && t.tx == tx

-- The record of a place in the transactions.
abbrev pub found_at : ℕ → ℕ → List Transaction → Option Substate
found_at block tx [] = none
found_at block tx (t ∷ ts) = if is_at block tx t then some t.substate else found_at block tx ts

-- No place is there twice.
abbrev pub DistinctPlaces : List Transaction → Type 0
DistinctPlaces [] = Unit
DistinctPlaces (t ∷ ts) = (found_at t.block t.tx ts ≡ none) × DistinctPlaces ts

abbrev pub copied : Option Substate → Option Substate → Option Substate
copied none before = before
copied (some st) before = some st

module _ (D : SubstateDb) where
  -- A record that is put is read back at its place, and the others stay.
  abbrev pub ReadsBack : Type 0
  ReadsBack =
      (b t c u : ℕ) (st : Substate) (s : D.State)
      → D.get_substate c u (D.put_substate b t st s)
        ≡ (if b == c && t == u then some st else D.get_substate c u s)

  module _ (lawful : ReadsBack) where
    get-clone_tasks :
        (block tx : ℕ) (ts : List Transaction) (dst_db : D.State)
        → DistinctPlaces ts
        → D.get_substate block tx (clone_tasks D ts dst_db)
          ≡ copied (found_at block tx ts) (D.get_substate block tx dst_db)
    unfolding clone_tasks
    get-clone_tasks block tx [] dst_db d = refl
    get-clone_tasks block tx (t ∷ ts) dst_db d =
        get-clone_tasks block tx ts (D.put_substate t.block t.tx t.substate dst_db) d.1
        ∙ rw (lawful t.block t.tx block tx t.substate dst_db)
            (elim (Bool-cases (is_at block tx t)) [
              | inl here ↦
                  let absent : found_at block tx ts ≡ none =
                    ground (arith, d.0, nat_eqb_iff t.block block, nat_eqb_iff t.tx tx) in
                  rw (here, absent) refl
              | inr other ↦ rw other refl
            ])

    -- Let the target read back what is put, the last two arguments be block numbers, the first not
    -- larger than the last and the last below 2 ^ 63, both databases open, and the pool hand out no
    -- place twice. After the command the target has at each place the record that the pool hands out
    -- for it, or else what it had before.
    pub get-clone :
        (open_source : List ℕ → Opened TaskPool) (open_target : List ℕ → Opened D.State)
        (src_path dst_path first_arg last_arg : List ℕ) (first last block tx : ℕ)
        (src_db : TaskPool) (dst_db : D.State)
        → IsNumber first_arg first
        → IsNumber last_arg last
        → first ≤ last
        → last < cutoff
        → open_source src_path ≡ opened src_db
        → open_target dst_path ≡ opened dst_db
        → DistinctPlaces (src_db.handed first last)
        → (db : D.State) × ((clone D open_source open_target
              (src_path ∷ dst_path ∷ first_arg ∷ last_arg ∷ [])).0
            ≡ some db)
          × (D.get_substate block tx db
              ≡ copied
                  (found_at block tx (src_db.handed first last))
                  (D.get_substate block tx dst_db))
    unfolding clone
    get-clone open_source open_target src_path dst_path first_arg last_arg first last block tx
          src_db dst_db f l h b s t d =
        (
          clone_tasks D (src_db.handed first last) dst_db,
          rw
              (
                clone_arguments-accepted src_path dst_path first_arg last_arg first last f l h b,
                clone,
                s,
                t,
              )
              refl,
          get-clone_tasks block tx (src_db.handed first last) dst_db d,
        )
