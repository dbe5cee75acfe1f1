-- ===== src/Replay/Fork.antt =====
-- cmd/substate-cli/replay/replay_fork.go: the comparison of a replayed transaction with the
-- recorded one, the statistics of the differences, and the choice of the hard fork.
-- `SubstateResult.Equal` and `SubstateAlloc.Equal` are of go-ethereum and parameters here.
pub mod SameMap
pub mod Verdict
pub mod Task
pub mod Collected
pub mod HardFork
use Prim.Native.String.{String}
use text.Mathlib.Text.{◌==◌ as str_eq}
use text.Mathlib.TextEquality.{eq_iff}
use substate_cli.Prelude.{
  ℕ, ◌+◌, Bool, true, false, ◌&&◌, not, Option, none, some, List, [], ◌∷◌, Eq, ◌==◌, nat_eq, length,
  ltb, if◌then◌else◌,
}
use substate_cli.GoMap.{GoMap, lookup, get_or, put}
use substate_cli.Types.{Hash, Code, Account, Alloc}
use substate_cli.Substate.{Result, receipt_successful, receipt_failed}

-- `bytes.Equal`
unfoldable pub bytes_equal : Code → Code → Bool
bytes_equal [] [] = true
bytes_equal (b ∷ bs) (c ∷ cs) = b == c && bytes_equal bs cs
bytes_equal _ _ = false

-- `for k, v1 := range storage1`: every entry of the first is one of the second.
unfoldable pub check_storage : GoMap Hash Hash → GoMap Hash Hash → Bool
check_storage [] storage2 = true
check_storage ((k, v1) ∷ rest) storage2 = elim (lookup k storage2) [
  | none ↦ false
  | some v2 ↦ v1 == v2 && check_storage rest storage2
]

-- The checks of one account: the nonce, the code, the number of slots and the slots. The balance
-- is not compared.
unfoldable pub check_account : Account → Account → Bool
unfolding bytes_equal check_storage
check_account account1 account2 =
    account1.nonce == account2.nonce
    && (bytes_equal account1.code account2.code
        && (length account1.storage == length account2.storage
            && check_storage account1.storage account2.storage))

-- `for addr := range outputAlloc`
unfoldable pub check_accounts : Alloc → Alloc → Bool
unfolding check_account
check_accounts [] evm_alloc = true
check_accounts ((addr, account1) ∷ rest) evm_alloc = elim (lookup addr evm_alloc) [
  | none ↦ false
  | some account2 ↦ check_account account1 account2 && check_accounts rest evm_alloc
]

-- The checks of the account states, with the comparison of the lengths before the loop.
unfoldable pub check_alloc : Alloc → Alloc → Bool
unfolding check_accounts
check_alloc output_alloc evm_alloc =
    length output_alloc == length evm_alloc && check_accounts output_alloc evm_alloc

-- The strings of the errors `ErrReplayFork...`.
abbrev pub err_invalid_alloc : String
err_invalid_alloc = "invalid alloc in replay-fork"

abbrev pub err_more_gas : String
err_more_gas = "more gas in replay-fork"

abbrev pub err_less_gas : String
err_less_gas = "less gas in replay-fork"

abbrev pub err_misc : String
err_misc = "misc in replay-fork"

-- `ReplayForkStat`
pub record ReplayForkStat : Type 0 where
  pub count : ℕ
  pub err_str : String

abbrev pub stat : String → Option ReplayForkStat
stat text = some (record { count = 1; err_str = text })

module _ (result_equal : Result → Result → Bool) (alloc_equal : Alloc → Alloc → Bool) where
  -- The end of `replayForkTask`, from the comparison on: the statistic that it sends, or none.
  -- `vm_error` is the text of `msgResult.Err`.
  unfoldable pub compare_outputs : Result → Alloc → Result → Alloc → String → Option ReplayForkStat
  unfolding check_alloc
  compare_outputs output_result output_alloc evm_result evm_alloc vm_error =
      if result_equal output_result evm_result && alloc_equal output_alloc evm_alloc
      then none
      else if output_result.status == receipt_successful && evm_result.status == receipt_successful
      then (if not (check_alloc output_alloc evm_alloc)
          then stat err_invalid_alloc
          else if ltb output_result.gas_used evm_result.gas_used
          then stat err_more_gas
          else if ltb evm_result.gas_used output_result.gas_used
          then stat err_less_gas
          else stat err_misc)
      else if output_result.status == receipt_successful && evm_result.status == receipt_failed
      then stat vm_error
      else stat err_misc

instance abbrev pub string_eq : Eq String
string_eq = record { equal = str_eq; equal_iff = eq_iff }

-- `ReplayForkStatMap`, with the counts of its entries.
abbrev pub ReplayForkStatMap : Type 0
ReplayForkStatMap = GoMap String ℕ

-- The body of the loop over the channel: a new entry starts from 0.
unfoldable pub record_stat : ReplayForkStat → ReplayForkStatMap → ReplayForkStatMap
record_stat s stats = put s.err_str (get_or s.err_str stats 0 + s.count) stats

-- `for stat := range ReplayForkStatChan`
unfoldable pub collect_fork_stats : List ReplayForkStat → ReplayForkStatMap → ReplayForkStatMap
unfolding record_stat
collect_fork_stats [] stats = stats
collect_fork_stats (s ∷ rest) stats = collect_fork_stats rest (record_stat s stats)
