-- ===== src/Replay/Actions/KeyStats.antt =====
-- key_stats.go and address_stats.go: the actions.
use substate_cli.Prelude.{
  ap, subst, ℕ, false, suc, zero, ◌^◌, ◌<◌, ◌≡◌, refl, sym, ◌∙◌, Option, none, some, List, [], ◌∷◌,
  arith, length, get_elem?, nat_eq, ==_refl,
}
use substate_cli.GoMap.{lookup, Distinct}
use substate_cli.Types.{Address, Hash}
use substate_cli.Replay.Statistic.{AccessStatistics, Summary, print_summary}
use substate_cli.Replay.Statistic.Counts.{count, accessing, all_sent}
use substate_cli.Replay.Statistic.Order.{Tally, tallied, Tally-nil_iff}
use substate_cli.Replay.KeyLength.{extract_keys}
use substate_cli.Replay.KeyLength.Extracted.{showing, contains-extract_keys}
use substate_cli.Replay.KeyLength.Distribution.{
  print_key_value_distribution, print_key_value_distribution-rows, keys_of, accesses_of, AllHashes,
}
use substate_cli.Replay.Pipeline.{collected, Pipe}
use substate_cli.Replay.Actions.{
  Transaction, substates, TaskPool, ActionError, range, read_arguments,
}
use substate_cli.Replay.Actions.Statistics.{
  extracted, StatsReach, get_reference_stats_action, get_reference_stats_action_with_consumer,
  get_reference_stats_action_with_consumer-some, collected-Tally,
}

-- `getKeyStatsAction`, given what the collector has at the end.
unfoldable pub get_key_stats_action :
    TaskPool
    → List (List ℕ)
    → AccessStatistics Hash
    → Option (Option (Summary × (List ℕ × List ℕ)) × Option ActionError)
unfolding get_reference_stats_action_with_consumer
get_key_stats_action = get_reference_stats_action_with_consumer print_key_value_distribution

-- `getAddressStatsAction`, given what the collector has at the end.
unfoldable pub get_address_stats_action :
    TaskPool
    → List (List ℕ)
    → AccessStatistics Address
    → Option (Option (Summary × Unit {0}) × Option ActionError)
unfolding get_reference_stats_action
get_address_stats_action = get_reference_stats_action

lookup-AllHashes :
    (stats : AccessStatistics Hash)
    → Distinct stats
    → ((r : Hash) (n : ℕ) → lookup r stats ≡ some n → r < 256 ^ 32)
    → AllHashes stats
unfolding lookup
lookup-AllHashes [] d h = tt
lookup-AllHashes ((k, v) ∷ stats) d h = (
  h k v (rw (==_refl k) refl),
  lookup-AllHashes stats d.1 (λ r n e. h r n (ground (arith, e, d.0, nat_eq.equal_iff k r))),
)

tallied-pos : (n v : ℕ) → tallied n ≡ some v → 0 < n
tallied-pos zero v e = absurd cc
tallied-pos (suc n) v e = omega arith

Tally-AllHashes :
    (txs : List (List Hash)) (stats : AccessStatistics Hash)
    → Tally txs stats
    → ((r : Hash) → 0 < accessing r txs → r < 256 ^ 32)
    → AllHashes stats
Tally-AllHashes txs stats (d, at) h =
    lookup-AllHashes stats d (λ r n e. h r (tallied-pos (accessing r txs) n (sym (at r) ∙ e)))

Tally-length :
    (txs : List (List Hash)) (stats : AccessStatistics Hash) (key : Hash)
    → Tally txs stats
    → 0 < accessing key txs
    → 0 < length stats
Tally-length txs stats key t h =
    let empty = (Tally-nil_iff txs stats t).0 in
    ground (arith, h, λ (e : length stats ≡ 0). empty e key)

accessing-showing :
    (key : Hash) (txs : List Transaction)
    → accessing key (extracted extract_keys txs) ≡ showing key (substates txs)
accessing-showing key [] = refl
accessing-showing key (t ∷ txs) =
    rw (contains-extract_keys key t.substate, accessing-showing key txs) refl

-- Let the pool return no error on the range of the arguments, some account of its transactions,
-- before or after them, have a slot, all keys of slots be of 32 bytes, and its tasks send, in any
-- order, each key as often as `collectStats` of the transactions does. Whatever the schedule of tasks
-- and collector, once the action of key-stats is past its wait its statistic has exactly the keys of
-- the slots of these accounts, each once, with the number of the transactions where an account has
-- it. It prints the summary of this statistic and, for each length up to 32, the number of its keys
-- of this length and the sum of their accesses, without a panic or an error.
pub get_key_stats_action-rows :
    (pool : TaskPool) (args : List (List ℕ)) (first last : ℕ) (items : List Hash)
    (s : Pipe Hash (AccessStatistics Hash)) (key : Hash)
    → read_arguments args ≡ range first last
    → pool.error first last ≡ none
    → 0 < showing key (substates (pool.handed first last))
    → ((r : Hash) → 0 < showing r (substates (pool.handed first last)) → r < 256 ^ 32)
    → ((r : Hash)
        → count r items ≡ count r (all_sent (extracted extract_keys (pool.handed first last))))
    → StatsReach false items s
    → s.stage ≡ collected
    → Distinct s.state
      × ((r : Hash) → lookup r s.state ≡ tallied (showing r (substates (pool.handed first last))))
      × (summary : Summary) × (c : List ℕ) × (a : List ℕ) × (print_summary s.state ≡ some summary)
      × (get_key_stats_action pool args s.state ≡ some (some (summary, (c, a)), none))
      × ((i : ℕ)
          → i < 33
          → (get_elem? c i ≡ some (keys_of i s.state))
            × (get_elem? a i ≡ some (accesses_of i s.state)))
unfolding get_key_stats_action
get_key_stats_action-rows pool args first last items s key r p k hashes sends reached e =
    let txs = pool.handed first last in
    let found = extracted extract_keys txs in
    let (d, at) = collected-Tally found items s sends reached e in
    let same : (r : Hash) → accessing r found ≡ showing r (substates txs) =
      λ r. accessing-showing r txs in
    let all =
      Tally-AllHashes found s.state (d, at) (λ r h. hashes r (subst (λ n. 0 < n) (same r) h)) in
    let (c, a, printed, rows) = print_key_value_distribution-rows s.state all in
    let some_key = Tally-length found s.state key (d, at) (subst (λ n. 0 < n) (sym (same key)) k) in
    let (summary, shown, done) =
      get_reference_stats_action_with_consumer-some print_key_value_distribution (c, a) pool args
        first last s.state r p some_key printed in
    (d, λ r. at r ∙ ap tallied (same r), summary, c, a, shown, done, rows)
