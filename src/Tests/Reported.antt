-- ===== src/Tests/Reported.antt =====
-- What the replays report: block hashes that are missing, and outputs that differ.
use substate_cli.Prelude.{
  ◌≡◌, ◌↔◌, refl, Bool, true, false, ◌&&◌, Option, none, some, [], ◌∷◌, arith, nat_eq, nat_eqb_iff,
  ◌==◌,
}
use substate_cli.GoMap.{lookup}
use substate_cli.Types.{Address, Alloc, Account}
use substate_cli.Substate.{Result}
use substate_cli.InMemory.Frame.{InMemoryStateDb, make_in_memory_state_db}
use substate_cli.InMemory.Accounts.{set_nonce, set_state}
use substate_cli.InMemory.Journal.{snapshot, revert_to_snapshot}
use substate_cli.InMemory.Run.{step, run, prepare}
use substate_cli.InMemory.Effects.{get_substate_post_alloc}
use substate_cli.Tests.Records.{
  tx, output-Distinct, input-Distinct, before-Distinct, changed-Distinct,
}
use substate_cli.Tests.Replayed.{
  results_equal, allocs_equal, machine, hashing, chain_config, recording, left_by_machine,
}
use substate_cli.Types.Maps.{HasMaps}
use substate_cli.Replay.Diff.Allocations.{AgreeAt}
use substate_cli.Replay.Evm.{Applied}
use substate_cli.Replay.Task.{Outcome, compare_with_record, inconsistent_output, get_hash}
use substate_cli.Replay.Task.InMemory.{in_memory_state_db}
use substate_cli.Replay.Task.Reports.{shows_difference, compare_with_record-shows}
use substate_cli.Replay.Fork.Task.{
  replay_fork_task, Accepted, fork_context, prepared, replay_fork_task-none_iff,
}

-- Results are compared by their gas, and allocations by the nonces at their addresses.
abbrev same_gas : Result → Result → Bool
same_gas r s = r.gas_used == s.gas_used

abbrev nonces_agree : Option Account → Option Account → Bool
nonces_agree none none = true
nonces_agree (some v) (some w) = v.nonce == w.nonce
nonces_agree _ _ = false

abbrev agree_on : Alloc → Alloc → Alloc → Bool
agree_on [] m n = true
agree_on ((a, v) ∷ keys) m n = nonces_agree (lookup a m) (lookup a n) && agree_on keys m n

abbrev same_nonces : Alloc → Alloc → Bool
same_nonces m n = agree_on m m n && agree_on n m n

AgreeAt-nonces_agree : (o p : Option Account) → AgreeAt o p → nonces_agree o p ≡ true
AgreeAt-nonces_agree none none h = refl
AgreeAt-nonces_agree none (some w) h = absurd h
AgreeAt-nonces_agree (some v) none h = absurd h
AgreeAt-nonces_agree (some v) (some w) h = (nat_eqb_iff v.nonce w.nonce).1 h.nonces

agree_on-agree :
    (keys m n : Alloc)
    → ((a : Address) → AgreeAt (lookup a m) (lookup a n))
    → agree_on keys m n ≡ true
agree_on-agree [] m n h = refl
agree_on-agree ((a, v) ∷ keys) m n h =
    ground (arith, agree_on-agree keys m n h, AgreeAt-nonces_agree (lookup a m) (lookup a n) (h a))

same_nonces-agree :
    (m n : Alloc) → ((a : Address) → AgreeAt (lookup a m) (lookup a n)) → same_nonces m n ≡ true
same_nonces-agree m n h = ground (arith, agree_on-agree m m n h, agree_on-agree n m n h)

output-HasMaps : HasMaps tx.output_alloc
output-HasMaps = (changed-Distinct, (changed-Distinct, tt))

input-HasMaps : HasMaps tx.input_alloc
input-HasMaps = (before-Distinct, (before-Distinct, tt))

-- The account 8 of the input is not in the output.
abbrev differing : Option Outcome
differing = compare_with_record same_gas same_nonces 5 0 tx tx.result tx.input_alloc

abbrev reported : Outcome
reported = elim differing [ none ↦ record { lines = []; error = none } | some o ↦ o ]

differing-some : differing ≡ some reported
unfolding compare_with_record lookup
differing-some = refl

reported-inconsistent : reported.error ≡ some inconsistent_output
unfolding compare_with_record lookup
reported-inconsistent = refl

compare_with_record-shows_example : shows_difference reported.lines ≡ true
compare_with_record-shows_example =
    compare_with_record-shows same_gas same_nonces (λ r. (nat_eqb_iff r.gas_used r.gas_used).1 refl)
      same_nonces-agree 5 0 tx tx.result tx.input_alloc output-Distinct input-Distinct
      output-HasMaps input-HasMaps differing-some reported-inconsistent

abbrev make_at_5 : Alloc → InMemoryStateDb
make_at_5 alloc = make_in_memory_state_db alloc 5

abbrev post_alloc_of : InMemoryStateDb → Alloc
post_alloc_of db = (get_substate_post_alloc db).1

machine-fork_returns :
    machine
      (fork_context chain_config recording.env)
      (get_hash recording.env)
      recording.message
      recording.env.gas_limit
      (prepared results_equal allocs_equal hashing chain_config in_memory_state_db machine
        post_alloc_of make_at_5 0 recording).0
    ≡ some (left_by_machine, 4 ∷ [], Applied.executed false 21 "")
unfolding run step snapshot set_state revert_to_snapshot set_nonce make_in_memory_state_db prepare
machine-fork_returns = refl

replay_fork_task-none_iff_example :
    (replay_fork_task results_equal allocs_equal hashing chain_config in_memory_state_db machine
        post_alloc_of make_at_5 0 recording
      ≡ some none)
    ↔ Accepted results_equal allocs_equal hashing chain_config in_memory_state_db machine
        post_alloc_of recording left_by_machine
        (Applied.executed false 21 "")
replay_fork_task-none_iff_example =
    replay_fork_task-none_iff results_equal allocs_equal hashing chain_config in_memory_state_db
      machine post_alloc_of make_at_5 0 recording machine-fork_returns
