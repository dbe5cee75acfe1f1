-- ===== src/Db.antt =====
-- cmd/substate-cli/db/clone.go: the copy of a range of blocks to another database.
-- The two substate databases are go-ethereum's.
pub mod Cloned
pub mod Compact
use Prim.Native.String.{String}
use substate_cli.Prelude.{
  ℕ, ◌+◌, ◌^◌, ◌-◌, ◌==◌, nat_eq, Bool, true, false, ◌||◌, Option, none, some, List, [], ◌∷◌, ltb,
  leb, if◌then◌else◌,
}
use substate_cli.Prelude.Int.{ℤ, pos, negsuc}
use substate_cli.Substate.{Substate}
use substate_cli.Replay.Config.{ParseError, range_error, syntax_error, parse_uint}
use substate_cli.Replay.Actions.{Transaction, TaskPool}

-- 2 ^ 63
abbrev pub cutoff : ℕ
cutoff = 2 ^ 63

-- -n
abbrev pub minus : ℕ → ℤ
minus n = if n == 0 then pos 0 else negsuc (n - 1)

-- The sign and the bounds, on what `ParseUint` makes of the rest of the text. A range error of it
-- goes on with the largest number.
abbrev pub with_sign : Bool → ℕ × Option ParseError → ℤ × Option ParseError
with_sign neg (un, some syntax_error) = (pos 0, some syntax_error)
with_sign neg (un, _) =
    if neg
    then (if ltb cutoff un then (minus cutoff, some range_error) else (minus un, none))
    else if leb cutoff un
    then (pos (cutoff - 1), some range_error)
    else (pos un, none)

-- `strconv.ParseInt(s, 10, 64)`
unfoldable pub parse_int : List ℕ → ℤ × Option ParseError
unfolding parse_uint
parse_int [] = (pos 0, some syntax_error)
parse_int (c ∷ rest) =
    if c == b'+'
    then with_sign false (parse_uint rest)
    else if c == b'-'
    then with_sign true (parse_uint rest)
    else with_sign false (parse_uint (c ∷ rest))

pub data CloneError : Type 0 where
  not_four_arguments not_an_integer negative first_larger : CloneError
  source_error target_error pool_error : String → CloneError

-- `err != nil`
abbrev is_error : Option ParseError → Bool
is_error none = false
is_error (some err) = true

abbrev pub below_zero : ℤ → Bool
below_zero (pos n) = false
below_zero (negsuc n) = true

-- `first > last`
abbrev pub is_above : ℤ → ℤ → Bool
is_above (pos m) (pos n) = ltb n m
is_above (pos m) (negsuc n) = true
is_above (negsuc m) (pos n) = false
is_above (negsuc m) (negsuc n) = ltb m n

-- `uint64(v)`, of a number that is not negative.
abbrev as_uint64 : ℤ → ℕ
as_uint64 (pos n) = n
as_uint64 (negsuc n) = 2 ^ 64 - (n + 1)

-- The paths with the range, or the error.
pub data CloneArguments : Type 0 where
  refused : CloneError → CloneArguments
  accepted : (src_path dst_path : List ℕ) (first last : ℕ) → CloneArguments

unfoldable pub clone_range :
    List ℕ → List ℕ → ℤ × Option ParseError → ℤ × Option ParseError → CloneArguments
clone_range src_path dst_path (first, ferr) (last, lerr) =
    if is_error ferr || is_error lerr
    then refused not_an_integer
    else if below_zero first || below_zero last
    then refused negative
    else if is_above first last
    then refused first_larger
    else accepted src_path dst_path (as_uint64 first) (as_uint64 last)

unfoldable pub clone_arguments : List (List ℕ) → CloneArguments
unfolding clone_range parse_int
clone_arguments (src_path ∷ dst_path ∷ first_arg ∷ last_arg ∷ []) =
    clone_range src_path dst_path (parse_int first_arg) (parse_int last_arg)
clone_arguments _ = refused not_four_arguments

-- `substate.SubstateDB`, of the target: `PutSubstate`, and what is read back.
pub record SubstateDb : Type 1 where
  pub State : Type 0
  pub put_substate : ℕ → ℕ → Substate → State → State
  pub get_substate : ℕ → ℕ → State → Option Substate

-- A database that is opened, or the error.
pub data Opened {ℓ} (S : Type ℓ) : Type ℓ where
  failed : String → Opened S
  opened : S → Opened S

module _ (D : SubstateDb) where
  -- `cloneTask`, on the transactions that the pool hands out.
  unfoldable pub clone_tasks : List Transaction → D.State → D.State
  clone_tasks [] dst_db = dst_db
  clone_tasks (t ∷ ts) dst_db = clone_tasks ts (D.put_substate t.block t.tx t.substate dst_db)

  -- `clone`. An opened source is the pool that reads it; the target is what its path holds. It
  -- returns the target, if it is opened, and the error.
  unfoldable pub clone :
      (List ℕ → Opened TaskPool)
      → (List ℕ → Opened D.State)
      → List (List ℕ)
      → Option D.State × Option CloneError
  unfolding clone_arguments clone_tasks
  clone open_source open_target args = elim (clone_arguments args) [
    | refused e ↦ (none, some e)
    | accepted src_path dst_path first last ↦ elim (open_source src_path) [
      | failed text ↦ (none, some (source_error text))
      | opened src_db ↦ elim (open_target dst_path) [
        | failed text ↦ (none, some (target_error text))
        | opened dst_db ↦ (
          some (clone_tasks (src_db.handed first last) dst_db),
          elim (src_db.error first last) [ none ↦ none | some text ↦ some (pool_error text) ],
        )
      ]
    ]
  ]
