-- ===== src/Tests/Measures.antt =====
-- The measurements of the replay commands on small inputs.
use mathlib.Core.Quot.{Quot}
use substate_cli.Prelude.{
  Option, ℕ, ◌+◌, ◌*◌, ◌%◌, ◌<◌, ◌≤◌, ◌≡◌, ◌≢◌, ◌↔◌, refl, none, some, List, [], ◌∷◌, arith, nat_eq,
}
use substate_cli.Prelude.Int.{pos, ◌-ℤ◌}
use substate_cli.GoMap.{lookup, put}
use substate_cli.Types.{Address, Hash, Code}
use substate_cli.Tests.Records.{
  before, changed, before-Distinct, changed-Distinct, tx, output-Distinct, input-Distinct,
}
use substate_cli.Replay.Accounts.{lines_of}
use substate_cli.Replay.Storage.{
  Metric, word, signed, compute_storage_sizes, get_storage_update_size_task,
}
use substate_cli.Replay.Storage.Count.{
  cells, compute_storage_sizes_lem, compute_storage_sizes-modular,
}
use substate_cli.Replay.Storage.Lines.{line_of, get_storage_update_size_task-lines}
use substate_cli.Replay.CodeSize.{
  CodeLine, lines_at, latest, get_code_size_task, get_code_size_task-lines,
}
use substate_cli.Replay.Code.{
  CodeRegistry, get_code_tasks, first_code, codes_of, lookup-get_code_tasks,
}
use substate_cli.Replay.Statistic.{AccessStatistics, collect_stats, Summary, print_summary}
use substate_cli.Replay.Statistic.Counts.{count, all_sent}
use substate_cli.Replay.Statistic.Printed.{Describes, print_summary-Describes}
use substate_cli.Replay.Statistic.Order.{CountMap, Statistic, print_summary-lifts}
use substate_cli.Replay.Location.{Index, get}
use substate_cli.Replay.KeyLength.{get_length, IsLengthOf, get_length_lem}
use substate_cli.Replay.Config.{set_block_range, IsNumber, set_block_range_iff}
use substate_cli.OffTheChain.{CodeHashes, code_key_eq, key_of, get_hash, get_hash-stale}

compute_storage_sizes-modular_example :
    ((compute_storage_sizes before changed).in_update_size ≡ (32 * cells before) % word)
    × ((compute_storage_sizes before changed).out_update_size ≡ (32 * cells changed) % word)
    × (((compute_storage_sizes before changed).delta_size + 32 * cells before) % word
        ≡ (32 * cells changed) % word)
    × ((compute_storage_sizes before changed).delta_size < word)
compute_storage_sizes-modular_example =
    compute_storage_sizes-modular before changed before-Distinct changed-Distinct

compute_storage_sizes_lem_example :
    ((compute_storage_sizes before changed).in_update_size ≡ 32 * cells before)
    × ((compute_storage_sizes before changed).out_update_size ≡ 32 * cells changed)
    × (signed (compute_storage_sizes before changed).delta_size
        ≡ pos (32 * cells changed) -ℤ pos (32 * cells before))
compute_storage_sizes_lem_example =
    compute_storage_sizes_lem before changed before-Distinct changed-Distinct (omega arith)
      (omega arith)

get_storage_update_size_task-lines_example :
    lines_of (λ (l : Metric). l.wallet) 8 (get_storage_update_size_task 5 0 tx) ≡ line_of 5 0 tx 8
get_storage_update_size_task-lines_example =
    get_storage_update_size_task-lines 5 0 tx 8 output-Distinct input-Distinct

get_code_size_task-lines_example :
    lines_of (λ (l : CodeLine). l.account) 8 (get_code_size_task 5 0 tx)
    ≡ lines_at 5 0 tx 8 (latest (lookup 8 tx.output_alloc) (lookup 8 tx.input_alloc))
get_code_size_task-lines_example = get_code_size_task-lines 5 0 tx 8 output-Distinct input-Distinct

abbrev known : CodeRegistry
known = (8, 97 ∷ []) ∷ []

lookup-get_code_tasks_example :
    lookup 7 (get_code_tasks (tx ∷ []) known) ≡ first_code (codes_of 7 (tx ∷ [])) (lookup 7 known)
lookup-get_code_tasks_example =
    lookup-get_code_tasks 7 (tx ∷ []) known (output-Distinct, input-Distinct, tt)

abbrev found : List ℕ
found = 3 ∷ 5 ∷ 3 ∷ []

-- Two transactions, whose references are received in another order.
abbrev received : List ℕ
received = 4 ∷ 3 ∷ 5 ∷ 3 ∷ []

received-all : count 3 received ≡ count 3 (all_sent (found ∷ (3 ∷ 4 ∷ []) ∷ []))
unfolding collect_stats put lookup
received-all = refl

abbrev accesses : AccessStatistics ℕ
accesses = (3, 2) ∷ (5, 1) ∷ (4, 1) ∷ []

print_summary-Describes_example :
    (s : Summary) × (print_summary accesses ≡ some s) × Describes accesses s
print_summary-Describes_example = print_summary-Describes accesses (omega arith)

abbrev no_index : Index ℕ
no_index = []

abbrev one_index : Index ℕ
one_index = (get 6 no_index).0

get_length_lem_example : (get_length 300 ≤ 32) × IsLengthOf 300 (get_length 300)
get_length_lem_example = get_length_lem 300 (omega arith)

set_block_range_iff_example :
    (set_block_range (49 ∷ []) (49 ∷ 50 ∷ []) ≡ (1, 12, none))
    ↔ (IsNumber (49 ∷ []) 1 × IsNumber (49 ∷ 50 ∷ []) 12 × (1 ≤ 12))
set_block_range_iff_example = set_block_range_iff (49 ∷ []) (49 ∷ 50 ∷ []) 1 12

-- In the place of the hash function and of the database of codes.
abbrev first_byte : Code → Hash
first_byte [] = 0
first_byte (b ∷ bs) = b

abbrev one_code : Address → ℕ → Code
one_code addr n = addr ∷ []

abbrev stored : Hash → Code
stored h = h ∷ []

abbrev no_hashes : CodeHashes
no_hashes = []

nothing_cached : lookup (key_of 7 (1 ∷ [])) no_hashes ≡ none
unfolding lookup
nothing_cached = refl

get_hash-stale_example :
    ((get_hash first_byte 7 (2 ∷ []) (get_hash first_byte 7 (1 ∷ []) no_hashes).0).1
      ≡ first_byte (1 ∷ []))
    × ((get_hash first_byte 7 (2 ∷ []) (get_hash first_byte 7 (1 ∷ []) no_hashes).0).1
        ≢ first_byte (2 ∷ []))
get_hash-stale_example =
    get_hash-stale first_byte 7 (1 ∷ []) (2 ∷ []) no_hashes nothing_cached refl
      (λ e. omega (arith, e))

print_summary-lifts_example :
    (f : Statistic ℕ → Option Summary) × ((a : CountMap ℕ) → f (Quot.mk a) ≡ print_summary a.0)
print_summary-lifts_example = print_summary-lifts
