-- ===== src/Db/Compact.antt =====
-- cmd/substate-cli/db/compact.go: the compaction of a database, which LevelDB does.
use Prim.Native.String.{String}
use substate_cli.Prelude.{
  ℕ, inl, inr, ◌⊎◌, Option, none, some, List, [], ◌∷◌, Bool, true, false, ◌^◌,
}

-- `leveldb_opt.Options`
pub record Options : Type 0 where
  pub block_cache_capacity : ℕ
  pub open_files_cache_capacity : ℕ
  pub error_if_missing : Bool
  pub read_only : Bool

-- `dbOpt`
abbrev pub db_opt : Options
db_opt = record {
  block_cache_capacity = 2 ^ 30;
  open_files_cache_capacity = 50;
  error_if_missing = true;
  read_only = false;
}

pub data CompactError : Type 0 where
  not_one_argument : CompactError
  open_error : String → CompactError

-- The lines, but for the time that has passed.
pub data CompactLine : Type 0 where
  compaction_begin compaction_completed : CompactLine

module _ {Db : Type 0} (open_file : List ℕ → Options → String ⊎ Db)
    (compact_range : Db → Option String) where
  -- `compact`: the lines and the error. `none` is the panic of the goroutine that compacts, for which
  -- the function waits.
  unfoldable pub compact : List (List ℕ) → Option (List CompactLine × Option CompactError)
  compact (db_path ∷ []) = elim (open_file db_path db_opt) [
    | inl err ↦ some ([], some (open_error err))
    | inr db ↦ elim (compact_range db) [
      | some err ↦ none
      | none ↦ some (compaction_begin ∷ compaction_completed ∷ [], none)
    ]
  ]
  compact _ = some ([], some not_one_argument)
