-- ===== src/Tests/Locations.antt =====
-- Two tasks that number the slots of their records at the same time.
use substate_cli.Prelude.{
  ℕ, ◌<◌, ◌≡◌, arith, Bool, true, false, List, refl, [], ◌∷◌, ◌==◌, nat_eq, if◌then◌else◌,
}
use substate_cli.Prelude.Int.{pos}
use substate_cli.GoMap.{lookup, put, get_or}
use substate_cli.Types.{Account}
use substate_cli.Substate.{Substate}
use substate_cli.Tests.Records.{tx}
use substate_cli.Replay.Statistic.{AccessStatistics, register_access, collect_stats}
use substate_cli.Replay.Statistic.Counts.{count, all_sent}
use substate_cli.Replay.Pipeline.{
  Stage, collected, Pipe, send, complete, collect, finish, join, here, later,
}
use substate_cli.Replay.Actions.Statistics.{StatsReach}
use substate_cli.Replay.Actions.LocationStats.{Numbers, accessing_slot, StatsReach-accessing_slot}
use substate_cli.Replay.Location.{get, Location, location_eq}
use substate_cli.Replay.Location.Extracted.{slots_in, Located, AreNumberings}
use substate_cli.Replay.Location.Interleaved.{
  between, inside, Tasks, set_task, get_address, get_key, leave, all_accounts, at_start, GetReach,
  starts, goes_on, GetReach-Located,
}

abbrev with_slot : Account
with_slot = record { nonce = 0; balance = pos 0; storage = (1, 9) ∷ []; code = [] }

-- Task 0 has a slot of address 7, and every other task the same slot of address 8.
abbrev record_of : ℕ → Substate
record_of i = record tx {
  input_alloc = (if i == 0 then 7 else 8, with_slot) ∷ [];
  output_alloc = [];
}

abbrev its_location : Location
its_location = record { address_id = 1; key_id = 0 }

-- Task 1 numbers its address first.
abbrev ended : Tasks
ended = record {
  indices = record { addresses = (8, 0) ∷ (7, 1) ∷ []; keys = (1, 0) ∷ [] };
  task = set_task 0 (between [] (its_location ∷ [])) (
      set_task 0 (inside 7 1 [] [] (its_location ∷ [])) (
        set_task 0 (inside 7 1 ((1, 9) ∷ []) [] [])
          (set_task 1 (inside 8 0 ((1, 9) ∷ []) [] []) (at_start record_of).task)));
}

ended-Reach : GetReach record_of ended
unfolding get lookup put
ended-Reach =
    goes_on
      (goes_on
        (goes_on (goes_on starts (get_address 1 8 with_slot [] [] refl))
          (get_address 0 7 with_slot [] [] refl))
        (get_key 0 7 1 1 9 [] [] [] refl))
      (leave 0 7 1 [] (its_location ∷ []) refl)

GetReach-Located_example :
    AreNumberings ended.indices
    × Located ended.indices (slots_in (all_accounts record_of 0)) (its_location ∷ [])
GetReach-Located_example = GetReach-Located record_of 0 (its_location ∷ []) ended-Reach refl

-- The collector, at first with task 0's location still unsent.
abbrev pipe :
    Stage
    → List Location
    → List Location
    → Bool
    → AccessStatistics Location
    → Bool
    → Pipe Location (AccessStatistics Location)
pipe stage unsent channel is_closed state is_done = record {
  stage = stage;
  unsent = unsent;
  channel = channel;
  is_closed = is_closed;
  state = state;
  is_done = is_done;
}

abbrev counted_once : AccessStatistics Location
counted_once = (its_location, 1) ∷ []

location_run : StatsReach false (its_location ∷ []) (pipe collected [] [] true counted_once true)
unfolding register_access put get_or lookup
location_run =
    later
      (later
        (later
          (later (later here (send its_location [] refl refl (omega arith)))
            (complete refl refl refl))
          (collect its_location [] refl refl))
        (finish refl refl refl))
      (join refl refl)

sent_once :
    (l : Location) → count l (its_location ∷ []) ≡ count l (all_sent ((its_location ∷ []) ∷ []))
unfolding collect_stats put lookup
sent_once l = refl

StatsReach-accessing_slot_example :
    ((l : Location)
      → Numbers ended.indices 7 1 l
      → get_or l counted_once 0 ≡ accessing_slot record_of 7 1 (0 ∷ []))
    × (0 < accessing_slot record_of 7 1 (0 ∷ []) → (l : Location) × Numbers ended.indices 7 1 l)
StatsReach-accessing_slot_example =
    StatsReach-accessing_slot record_of (0 ∷ []) ((its_location ∷ []) ∷ []) (its_location ∷ [])
      (pipe collected [] [] true counted_once true) 7 1 ended-Reach (refl, tt) sent_once
      location_run refl
