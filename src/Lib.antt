-- ===== src/Lib.antt =====
-- substate-cli: replay and measurement of recorded transactions.
--
-- A recorded transaction, a substate, is the allocation of accounts before it, the environment, the
-- message, the allocation after it and the result. The replay commands run the message again on a
-- state database that is filled with the allocation before it, and compare what comes out with the
-- record; the measuring commands read the records only. Of the two state databases, the in-memory
-- one is code of this program (state/in_memory_state_db.go); the other is go-ethereum's, which
-- state/off_the_chain.go sets up.
--
-- Files, and the code that they model:
--   Prelude, GoMap          shared types and tests, and Go's maps
--   Types, Substate         the values of go-ethereum and of the record, with the fields read here;
--                           Types.Maps: that no account has a slot twice
--   InMemory                state/in_memory_state_db.go
--     Frame                 snapshot, inMemoryStateDB, makeSnapshot, MakeInMemoryStateDB
--     Accounts              CreateAccount to Empty
--     Access                refunds, access lists, logs
--     Journal               Snapshot, RevertToSnapshot
--     Effects               GetEffects, GetSubstatePostAlloc; Effects.PostAlloc and Effects.Slots:
--                           what the allocation after a transaction reads, and which slots it has
--     Op, Run               the calls, sequences of them, and the methods that are stubs
--     Spec, Refine          the contract of a state database, and the calls against it
--     Spine, Nesting        the chain of snapshots and its identifiers
--   OffTheChain             state/off_the_chain.go: getHash, ContractCode, ContractCodeSize;
--                           and GetCodeHash of state/in_memory_state_db.go
--     Callers               getHash, called by many tasks at once
--     Make                  MakeOffTheChainStateDB; Make.Filling: the laws of go-ethereum's database;
--                           Make.Reads: what it reads
--     Tries                 offTheChainDB and NewOffTheChainStateDB
--   Replay.Storage          cmd/substate-cli/replay/storage.go
--   Replay.CodeSize         cmd/substate-cli/replay/codesize.go
--   Replay.Accounts         the two printing loops that storage.go and codesize.go share
--   Replay.Code             cmd/substate-cli/replay/code.go: registerContract, getCodeTask;
--                           Code.Interleaved: the calls of many tasks at once; Code.Registered: the
--                           codes that they register
--   Replay.Statistic        cmd/substate-cli/replay/statistic.go; Statistic.Order: the summary and
--                           the order of the map; Statistic.Sorted: its sort
--   Replay.Location         cmd/substate-cli/replay/location_stats.go; Location.Interleaved: its
--                           extractor in many tasks at once
--   Replay.AddressStats     cmd/substate-cli/replay/address_stats.go
--   Replay.KeyLength        cmd/substate-cli/replay/key_stats.go
--   Replay.Config           cmd/substate-cli/replay/config.go: SetBlockRange
--   Replay.Fork             cmd/substate-cli/replay/replay_fork.go: the comparison, its statistic,
--                           the table of the hard forks and the switch; Fork.Task: replayForkTask
--   Replay.Diff             cmd/substate-cli/replay/replay.go: the summaries of the differences
--   Replay.Evm              what the replays ask of go-ethereum: a state database and a machine
--   Replay.Task             cmd/substate-cli/replay/replay.go: replayTask; Task.InMemory puts the
--                           in-memory database in the place of the interface, Task.Reports is on
--                           what is printed, Task.Simulation on one database in the place of another
--   Replay.Pipeline         the channel, its collector and the wait that replay_fork.go and
--                           statistic.go have in common, as a step relation
--   Replay.Actions          the actions of the commands, from their arguments on
--     Measuring             storage.go, codesize.go, substate_dump.go
--     CodeDb                code.go: writeContracts, getCodeAction
--     Statistics            statistic.go: getReferenceStatsActionWithConsumer
--     KeyStats              key_stats.go and address_stats.go: the actions
--     LocationStats         location_stats.go: the action, its tasks and its collector
--     ForkAction            replay_fork.go: replayForkAction
--     Replaying             replay.go: replayAction, as the list of what it does
--   Replay.Duration         replay.go: the time spent in the machine
--   Db                      cmd/substate-cli/db/clone.go; Db.Compact: db/compact.go
--   Commands                cmd/substate-cli/main.go, and the commands and flags of all files
--   Tests                   runs on small inputs, and each result at one of them
--
-- How the code is modelled:
--   - A Go map is a list of entries, one for each key. Its order is that of `range`, which Go leaves
--     open; a result that holds for every list holds for every order. That no key is there twice is
--     the hypothesis `Distinct`.
--   - Addresses and hashes are the numbers that their bytes write, `[]byte` a list of numbers, and a
--     `*big.Int` an integer. The refund and the sizes of storage wrap at 2 ^ 64. Counters in memory
--     (snapshot identifiers, counts of accesses) have no bound.
--   - A panic is `none`. A call of the database is a function from state to state, and `run` makes a
--     sequence of them, which a panic ends. All loops are over lists or a known number of rounds, so
--     there is no fuel.
--   - The chain of snapshots behind `parent` is a list. `GetSubstatePostAlloc` changes the map that
--     the database points to, so the allocation becomes its result; accounts and their storage maps
--     are taken to be not nil, and no two addresses to share one.
--   - A mutex makes each of its sections one step. The task pool is go-ethereum's: it is a parameter,
--     the list of the transactions that it hands out and the error that it returns. Where only the
--     order of the sends matters the tasks run as this list; the channel with its collector, the
--     callers of getHash, and the tasks of location-stats and of code are step relations, in which the
--     parts run in any order.
--   - Keccak, the key-value stores, the equality of results and of allocations, the rules of a chain
--     configuration, go-ethereum's state database and the machine that applies a message are
--     parameters of the definitions that use them, with what the code relies on as hypotheses. That
--     a machine only uses the calls of its database is `OnlyCalls`.
--
-- Not modelled: the EVM, the parsing of the command line, the collectors of the profiles, LevelDB and
-- the opening of databases, which are libraries and parameters here; the texts for the user, and the
-- lines about the build.
pub mod Prelude
pub mod GoMap
pub mod Types
pub mod Substate
pub mod InMemory
pub mod OffTheChain
pub mod Replay
pub mod Db
pub mod Commands
mod Tests
