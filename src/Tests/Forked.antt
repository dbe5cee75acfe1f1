-- ===== src/Tests/Forked.antt =====
-- The pipeline of replay-fork and the concurrent callers of getHash on a schedule each.
use substate_cli.Prelude.{
  none, ◌+◌, ◌≡◌, refl, Bool, true, false, List, [], ◌∷◌, arith, nat_eq, length, if◌then◌else◌,
  nat_eqb,
}
use substate_cli.GoMap.{put, get_or, lookup}
use substate_cli.Types.{Address, Hash, Code}
use substate_cli.Replay.Fork.{ReplayForkStat, ReplayForkStatMap, string_eq, record_stat}
use substate_cli.Replay.Fork.Collected.{sent}
use substate_cli.Replay.Pipeline.{
  Stage, waiting, collected, Pipe, send, complete, fail, collect, finish, join, here, later,
}
use substate_cli.Replay.Pipeline.Runs.{HasEnded}
use substate_cli.Replay.Actions.ForkAction.{ForkReach, replay_fork-waits, finish_replay_fork}
use substate_cli.OffTheChain.{code_key_eq, key_of}
use substate_cli.Replay.Actions.ForkAction.Printed.{counts_of, is_sent, finish_replay_fork-sent}
use substate_cli.OffTheChain.Callers.{
  Callers, outside, missed, returned, set_caller, miss, store, CallReach, start, then_step,
  CallReach-keccak,
}

-- One statistic is sent and the pool fails.
abbrev misc : ReplayForkStat
misc = record { count = 1; err_str = "misc" }

abbrev stuck : Pipe ReplayForkStat ReplayForkStatMap
stuck = record {
  stage = waiting;
  unsent = [];
  channel = misc ∷ [];
  is_closed = false;
  state = [];
  is_done = false;
}

stuck-Reach : ForkReach true (misc ∷ misc ∷ []) stuck
stuck-Reach = later (later here (send misc (misc ∷ []) refl refl (omega arith))) (fail refl refl)

replay_fork-waits_example : ¬ HasEnded stuck.stage
replay_fork-waits_example = replay_fork-waits (misc ∷ misc ∷ []) stuck stuck-Reach

abbrev fork_pipe :
    Stage
    → List ReplayForkStat
    → List ReplayForkStat
    → Bool
    → ReplayForkStatMap
    → Bool
    → Pipe ReplayForkStat ReplayForkStatMap
fork_pipe stage unsent channel is_closed state is_done = record {
  stage = stage;
  unsent = unsent;
  channel = channel;
  is_closed = is_closed;
  state = state;
  is_done = is_done;
}

-- Both statistics are sent before the collector takes the first.
both_sent :
    ForkReach false (misc ∷ misc ∷ []) (fork_pipe waiting [] (misc ∷ misc ∷ []) true [] false)
both_sent =
    later
      (later (later here (send misc (misc ∷ []) refl refl (omega arith)))
        (send misc [] refl refl (omega arith)))
      (complete refl refl refl)

both_counted :
    ForkReach false (misc ∷ misc ∷ []) (fork_pipe collected [] [] true (("misc", 2) ∷ []) true)
unfolding record_stat put get_or lookup
both_counted =
    later
      (later
        (later (later both_sent (collect misc (misc ∷ []) refl refl)) (collect misc [] refl refl))
        (finish refl refl refl))
      (join refl refl)

finish_replay_fork-sent_example :
    (counts_of "misc" (finish_replay_fork (("misc", 2) ∷ []) none).0
      ≡ (if is_sent "misc" (misc ∷ misc ∷ []) then sent "misc" (misc ∷ misc ∷ []) ∷ [] else []))
    × ((finish_replay_fork (("misc", 2) ∷ []) none).1 ≡ none)
finish_replay_fork-sent_example =
    finish_replay_fork-sent (misc ∷ misc ∷ [])
      (fork_pipe collected [] [] true (("misc", 2) ∷ []) true) "misc" both_counted refl

-- Tasks 1 and 2 miss the code of address 7, and task 2 stores its hash after task 1 has.
abbrev first_byte : Code → Hash
first_byte code = length code + 1

abbrev push : Code
push = 96 ∷ 1 ∷ []

abbrev Asked : Address → Code → Type 0
Asked addr code = code ≡ (if nat_eqb (length code) 2 then push else [])

abbrev both_missed : Callers
both_missed = record {
  code_hashes = [];
  caller = set_caller 2 (missed 7 push) (set_caller 1 (missed 7 push) (λ i. outside));
}

both_missed-Reach : CallReach first_byte Asked both_missed
unfolding lookup
both_missed-Reach =
    then_step (then_step start (miss 1 7 push refl refl refl)) (miss 2 7 push refl refl refl)

abbrev both_stored : Callers
both_stored = record {
  code_hashes = put (key_of 7 push) (first_byte push) (put (key_of 7 push) (first_byte push) []);
  caller =
      set_caller 2 (returned 7 push (first_byte push))
        (set_caller 1 (returned 7 push (first_byte push)) both_missed.caller);
}

both_stored-Reach : CallReach first_byte Asked both_stored
both_stored-Reach =
    then_step (then_step both_missed-Reach (store 1 7 push refl)) (store 2 7 push refl)

CallReach-keccak_example : 3 ≡ first_byte push
CallReach-keccak_example =
    CallReach-keccak first_byte Asked (λ addr n. if nat_eqb n 2 then push else [])
      (λ addr code h. h) 2 7 push 3 both_stored-Reach refl
