-- ===== src/Tests/Pipes.antt =====
-- The pipelines of the statistics on a schedule each.
use substate_cli.Prelude.{
  ◌↔◌, ◌≢◌, ℕ, ◌<◌, ◌^◌, some, get_elem?, nat_eqb_iff, none, ◌≡◌, refl, Bool, true, false, List, [],
  ◌∷◌, arith, nat_eq,
}
use substate_cli.GoMap.{put, get_or, lookup, has, Distinct}
use substate_cli.Types.{Address, Hash}
use substate_cli.Substate.{Substate}
use substate_cli.Tests.Records.{tx, old_account}
use substate_cli.Replay.Statistic.{
  AccessStatistics, Summary, register_access, print_summary, collect_stats,
}
use substate_cli.Replay.Statistic.Counts.{count, accessing, all_sent}
use substate_cli.Replay.Pipeline.{
  Stage, executing, waiting, collected, return_error, Pipe, send, complete, collect, finish, join,
  Reach, here, later,
}
use substate_cli.Replay.Pipeline.Runs.{HasEnded}
use substate_cli.Replay.Statistic.Order.{tallied}
use substate_cli.Replay.Config.{set_block_range, parse_uint}
use substate_cli.Replay.KeyLength.{extract_keys}
use substate_cli.Replay.KeyLength.Extracted.{showing}
use substate_cli.Replay.KeyLength.Distribution.{keys_of, accesses_of}
use substate_cli.Replay.Actions.KeyStats.{get_key_stats_action, get_key_stats_action-rows}
use substate_cli.Replay.Actions.{Transaction, substates, TaskPool, read_arguments, range}
use substate_cli.Replay.Actions.Statistics.{
  get_reference_stats_action, get_reference_stats_action-none_iff, extracted, StatsReach,
  refs_capacity, collected-accessing, collected-print_summary, statistics-ends,
}

-- The address of the sender, from each of two transactions.
abbrev sender_of : Substate → List Address
sender_of st = st.message.sender ∷ []

abbrev txs : List Transaction
txs = record { block = 5; tx = 0; substate = tx } ∷ record { block = 5; tx = 1; substate = tx } ∷ []

abbrev senders : List Address
senders = 7 ∷ 7 ∷ []

abbrev pipe :
    Stage
    → List Address
    → List Address
    → Bool
    → AccessStatistics Address
    → Bool
    → Pipe Address (AccessStatistics Address)
pipe stage unsent channel is_closed state is_done = record {
  stage = stage;
  unsent = unsent;
  channel = channel;
  is_closed = is_closed;
  state = state;
  is_done = is_done;
}

sent_one : StatsReach false senders (pipe executing (7 ∷ []) (7 ∷ []) false [] false)
sent_one = later here (send 7 (7 ∷ []) refl refl (omega arith))

received_one : StatsReach false senders (pipe executing (7 ∷ []) [] false ((7, 1) ∷ []) false)
unfolding register_access put get_or lookup
received_one = later sent_one (collect 7 [] refl refl)

closed : StatsReach false senders (pipe waiting [] (7 ∷ []) true ((7, 1) ∷ []) false)
closed = later (later received_one (send 7 [] refl refl (omega arith))) (complete refl refl refl)

received_all : StatsReach false senders (pipe collected [] [] true ((7, 2) ∷ []) true)
unfolding register_access put get_or lookup
received_all =
    later (later (later closed (collect 7 [] refl refl)) (finish refl refl refl)) (join refl refl)

same_count : count 7 senders ≡ count 7 (all_sent (extracted sender_of txs))
unfolding collect_stats put lookup
same_count = refl

collected-accessing_example :
    get_or {K = Address} 7 ((7, 2) ∷ []) 0 ≡ accessing 7 (extracted sender_of txs)
collected-accessing_example =
    collected-accessing sender_of txs senders (pipe collected [] [] true ((7, 2) ∷ []) true) 7
      same_count received_all refl

statistics-ends_example :
    (t : Pipe Address (AccessStatistics Address)) × Reach register_access refs_capacity false
      return_error
      (pipe executing (7 ∷ []) (7 ∷ []) false [] false)
      t
    × HasEnded t.stage
statistics-ends_example =
    statistics-ends false senders (pipe executing (7 ∷ []) (7 ∷ []) false [] false) sent_one

-- Two runs, in which the addresses 7, 7 and 8 are sent in another order.
abbrev first_order : List Address
first_order = 7 ∷ 8 ∷ 7 ∷ []

abbrev second_order : List Address
second_order = 8 ∷ 7 ∷ 7 ∷ []

same_counts : (r : Address) → count r first_order ≡ count r second_order
same_counts r = ground arith

all_sent_at_once :
    (a b c : Address)
    → StatsReach false (a ∷ b ∷ c ∷ []) (pipe waiting [] (a ∷ b ∷ c ∷ []) true [] false)
all_sent_at_once a b c =
    later
      (later
        (later (later here (send a (b ∷ c ∷ []) refl refl (omega arith)))
          (send b (c ∷ []) refl refl (omega arith)))
        (send c [] refl refl (omega arith)))
      (complete refl refl refl)

first_run : StatsReach false first_order (pipe collected [] [] true ((7, 2) ∷ (8, 1) ∷ []) true)
unfolding register_access put get_or lookup
first_run =
    later
      (later
        (later
          (later (later (all_sent_at_once 7 8 7) (collect 7 (8 ∷ 7 ∷ []) refl refl))
            (collect 8 (7 ∷ []) refl refl))
          (collect 7 [] refl refl))
        (finish refl refl refl))
      (join refl refl)

second_run : StatsReach false second_order (pipe collected [] [] true ((8, 1) ∷ (7, 2) ∷ []) true)
unfolding register_access put get_or lookup
second_run =
    later
      (later
        (later
          (later (later (all_sent_at_once 8 7 7) (collect 8 (7 ∷ 7 ∷ []) refl refl))
            (collect 7 (7 ∷ []) refl refl))
          (collect 7 [] refl refl))
        (finish refl refl refl))
      (join refl refl)

collected-print_summary_example :
    print_summary {T = Address} ((7, 2) ∷ (8, 1) ∷ [])
    ≡ print_summary {T = Address} ((8, 1) ∷ (7, 2) ∷ [])
collected-print_summary_example =
    collected-print_summary first_order second_order
      (pipe collected [] [] true ((7, 2) ∷ (8, 1) ∷ []) true)
      (pipe collected [] [] true ((8, 1) ∷ (7, 2) ∷ []) true) same_counts first_run second_run refl
      refl

-- One transaction, in which the account 7 has the keys 1, 2 and 4 before and no account is left.
abbrev removing : Substate
removing = record tx { input_alloc = (7, old_account) ∷ []; output_alloc = [] }

abbrev one_removing : TaskPool
one_removing = record {
  handed = λ first last. record { block = 5; tx = 0; substate = removing } ∷ [];
  error = λ first last. none;
}

abbrev five_to_six : List (List ℕ)
five_to_six = (b'5' ∷ []) ∷ (b'6' ∷ []) ∷ []

range_read : read_arguments five_to_six ≡ range 5 6
unfolding read_arguments set_block_range parse_uint
range_read = refl

abbrev keys : List Hash
keys = 2 ∷ 1 ∷ 4 ∷ []

abbrev key_stats : AccessStatistics Hash
key_stats = (2, 1) ∷ (1, 1) ∷ (4, 1) ∷ []

keys_run : StatsReach false keys (pipe collected [] [] true key_stats true)
unfolding register_access put get_or lookup
keys_run =
    later
      (later
        (later
          (later (later (all_sent_at_once 2 1 4) (collect 2 (1 ∷ 4 ∷ []) refl refl))
            (collect 1 (4 ∷ []) refl refl))
          (collect 4 [] refl refl))
        (finish refl refl refl))
      (join refl refl)

abbrev removed : List Substate
removed = substates (one_removing.handed 5 6)

small_keys : (r : Hash) → 0 < showing r removed → r < 256 ^ 32
unfolding has lookup
small_keys r h = ground (arith, h, nat_eqb_iff 1 r, nat_eqb_iff 2 r, nat_eqb_iff 4 r)

keys_sent :
    (r : Hash)
    → count r keys ≡ count r (all_sent (extracted extract_keys (one_removing.handed 5 6)))
unfolding extract_keys collect_stats put lookup
keys_sent r = omega arith

key_4 : 0 < showing 4 removed
unfolding has lookup
key_4 = omega arith

get_key_stats_action-rows_example :
    Distinct key_stats
    × ((r : Hash) → lookup r key_stats ≡ tallied (showing r removed))
    × (summary : Summary) × (c : List ℕ) × (a : List ℕ) × (print_summary key_stats ≡ some summary)
    × (get_key_stats_action one_removing five_to_six key_stats
        ≡ some (some (summary, (c, a)), none))
    × ((i : ℕ)
        → i < 33
        → (get_elem? c i ≡ some (keys_of i key_stats))
          × (get_elem? a i ≡ some (accesses_of i key_stats)))
get_key_stats_action-rows_example =
    get_key_stats_action-rows one_removing five_to_six 5 6 keys
      (pipe collected [] [] true key_stats true) 4 range_read refl key_4 small_keys keys_sent
      keys_run refl

senders_sent : (r : Address) → count r senders ≡ count r (all_sent (extracted sender_of txs))
unfolding collect_stats put lookup
senders_sent r = omega arith

get_reference_stats_action-none_iff_example :
    ((get_reference_stats_action {T = Address} one_removing five_to_six ((7, 2) ∷ []) ≡ none)
      ↔ ((r : Address) → accessing r (extracted sender_of txs) ≡ 0))
    × ((get_reference_stats_action {T = Address} one_removing five_to_six ((7, 2) ∷ []) ≢ none)
        → (summary : Summary) × (get_reference_stats_action {T = Address} one_removing five_to_six
              ((7, 2) ∷ [])
            ≡ some (some (summary, tt), none)))
get_reference_stats_action-none_iff_example =
    get_reference_stats_action-none_iff one_removing five_to_six 5 6 (extracted sender_of txs)
      senders (pipe collected [] [] true ((7, 2) ∷ []) true) range_read refl senders_sent
      received_all refl
