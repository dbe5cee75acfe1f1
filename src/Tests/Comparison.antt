-- ===== src/Tests/Comparison.antt =====
-- The verdict of replay-fork on records.
use substate_cli.Prelude.{
  ◌≡◌, ◌↔◌, refl, Option, none, some, List, [], ◌∷◌, Bool, nat_eq, ◌==◌, length,
}
use substate_cli.GoMap.{lookup}
use substate_cli.Types.{Address, Alloc, Account}
use substate_cli.Types.Maps.{HasMaps}
use substate_cli.Substate.{Result}
use substate_cli.Tests.Records.{
  before-Distinct, changed-Distinct, tx, output-Distinct, input-Distinct,
}
use substate_cli.Replay.Fork.{
  ReplayForkStat, ReplayForkStatMap, string_eq, compare_outputs, stat, err_invalid_alloc, err_misc,
}
use substate_cli.Replay.Fork.Verdict.{SameAt, compare_outputs-invalid_alloc_iff}
use substate_cli.Replay.Diff.{print_result_diff_summary, print_allocation_diff_summary}
use substate_cli.Replay.Diff.Results.{Reports, print_result_diff_summary-Reports}
use substate_cli.Replay.Diff.Allocations.{AgreeAt, print_allocation_diff_summary-nil_iff}

-- In the place of the comparisons of go-ethereum.
abbrev same_gas : Result → Result → Bool
same_gas r s = r.gas_used == s.gas_used

abbrev same_size : Alloc → Alloc → Bool
same_size m n = length m == length n

abbrev dearer : Result
dearer = record { status = 1; bloom = 0; logs = []; contract_address = 0; gas_used = 30 }

output-HasMaps : HasMaps tx.output_alloc
output-HasMaps = (changed-Distinct, (changed-Distinct, tt))

input-HasMaps : HasMaps tx.input_alloc
input-HasMaps = (before-Distinct, (before-Distinct, tt))

compare_outputs-invalid_alloc_iff_example :
    (compare_outputs same_gas same_size tx.result tx.output_alloc dearer tx.input_alloc "revert"
      ≡ stat err_invalid_alloc)
    ↔ (¬ ((a : Address) → SameAt (lookup a tx.output_alloc) (lookup a tx.input_alloc)))
compare_outputs-invalid_alloc_iff_example =
    compare_outputs-invalid_alloc_iff same_gas same_size tx.result tx.output_alloc dearer
      tx.input_alloc "revert" refl refl refl output-Distinct input-Distinct output-HasMaps
      input-HasMaps

same_refl : (o : Option Account) → SameAt o o
same_refl none = tt
same_refl (some v) = record { nonces = refl; codes = refl; slots = λ k. refl }

abbrev stats : List ReplayForkStat
stats = record { count = 1; err_str = err_misc } ∷ record { count = 1; err_str = "revert" } ∷ []

abbrev no_stats : ReplayForkStatMap
no_stats = []

print_result_diff_summary-Reports_example :
    Reports (print_result_diff_summary tx.result dearer) tx.result dearer
print_result_diff_summary-Reports_example = print_result_diff_summary-Reports tx.result dearer

print_allocation_diff_summary-nil_iff_example :
    (print_allocation_diff_summary tx.output_alloc tx.input_alloc ≡ [])
    ↔ ((a : Address) → AgreeAt (lookup a tx.output_alloc) (lookup a tx.input_alloc))
print_allocation_diff_summary-nil_iff_example =
    print_allocation_diff_summary-nil_iff tx.output_alloc tx.input_alloc output-Distinct
      input-Distinct output-HasMaps input-HasMaps
