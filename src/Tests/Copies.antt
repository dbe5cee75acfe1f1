-- ===== src/Tests/Copies.antt =====
-- A copy of two transactions to a database that is a function of its places.
use substate_cli.Prelude.{
  ℕ, ◌≡◌, refl, ◌&&◌, none, some, Option, List, [], ◌∷◌, arith, ◌==◌, nat_eq, if◌then◌else◌,
}
use substate_cli.Substate.{Substate}
use substate_cli.Tests.Records.{tx}
use substate_cli.Replay.Config.{IsNumber}
use substate_cli.Replay.Actions.{TaskPool}
use substate_cli.Db.{SubstateDb, Opened, opened, failed, clone}
use substate_cli.Db.Cloned.{ReadsBack, found_at, copied, get-clone}

abbrev places : SubstateDb
places = record {
  State = ℕ → ℕ → Option Substate;
  put_substate = λ b t st s c u. if b == c && t == u then some st else s c u;
  get_substate = λ b t s. s b t;
}

places-ReadsBack : ReadsBack places
places-ReadsBack b t c u st s = refl

abbrev source : TaskPool
source = record {
  handed = λ first last.
      record { block = 8; tx = 0; substate = tx }
      ∷ record { block = 9; tx = 3; substate = tx }
      ∷ [];
  error = λ first last. some "stopped";
}

-- Only the empty path is none of a source.
abbrev open_source : List ℕ → Opened TaskPool
open_source path = elim path [ [] ↦ failed "no database" | x ∷ rest ↦ opened source ]

abbrev nothing : ℕ → ℕ → Option Substate
nothing b t = none

abbrev open_target : List ℕ → Opened (ℕ → ℕ → Option Substate)
open_target path = opened nothing

eight : IsNumber (b'8' ∷ []) 8
eight = (refl, omega arith, refl)

ten : IsNumber (b'1' ∷ b'0' ∷ []) 10
ten = (refl, omega arith, refl)

get-clone_example :
    (db : ℕ → ℕ → Option Substate) × ((clone places open_source open_target
        ((1 ∷ []) ∷ (2 ∷ []) ∷ (b'8' ∷ []) ∷ (b'1' ∷ b'0' ∷ []) ∷ [])).0
      ≡ some db)
    × (db 9 3 ≡ copied (found_at 9 3 (source.handed 8 10)) none)
get-clone_example =
    get-clone places places-ReadsBack open_source open_target (1 ∷ []) (2 ∷ []) (b'8' ∷ [])
      (b'1' ∷ b'0' ∷ []) 8 10 9 3 source nothing eight ten (omega arith) (omega arith) refl refl
      (refl, (refl, tt))
