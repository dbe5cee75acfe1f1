-- ===== src/Replay/AddressStats.antt =====
-- cmd/substate-cli/replay/address_stats.go: the addresses that a transaction accesses.
use substate_cli.Prelude.{◌≡◌, refl, ◌∙◌, ◌||◌, List, [], ◌∷◌, ◌++◌, arith, nat_eq, if◌then◌else◌}
use substate_cli.GoMap.{lookup, has}
use substate_cli.Types.{Address, Alloc}
use substate_cli.Substate.{Substate}
use substate_cli.Replay.Statistic.{collect_stats}
use substate_cli.Replay.Statistic.Counts.{count, contains, contains-append, count-collect_stats}

-- `for address := range alloc { addresses = append(addresses, address) }`
unfoldable pub alloc_addresses : Alloc → List Address
alloc_addresses [] = []
alloc_addresses ((address, _) ∷ rest) = address ∷ alloc_addresses rest

-- The extractor of `getAddressStatsAction`.
unfoldable pub extract_addresses : Substate → List Address
unfolding alloc_addresses
extract_addresses st = alloc_addresses st.input_alloc ++ alloc_addresses st.output_alloc

contains-alloc_addresses : (a : Address) (m : Alloc) → contains a (alloc_addresses m) ≡ has a m
unfolding alloc_addresses has lookup
contains-alloc_addresses a [] = refl
contains-alloc_addresses a ((k, v) ∷ m) = ground (arith, contains-alloc_addresses a m)

-- A transaction reports an address once if either of its allocations has it, and not otherwise.
pub count-extract_addresses :
    (a : Address) (st : Substate)
    → count a (collect_stats (extract_addresses st))
      ≡ (if has a st.input_alloc || has a st.output_alloc then 1 else 0)
unfolding extract_addresses
count-extract_addresses a st =
    count-collect_stats a (extract_addresses st)
    ∙ rw (
      contains-append a (alloc_addresses st.input_alloc) (alloc_addresses st.output_alloc),
      contains-alloc_addresses a st.input_alloc,
      contains-alloc_addresses a st.output_alloc,
    )
