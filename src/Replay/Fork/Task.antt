-- ===== src/Replay/Fork/Task.antt =====
-- replay_fork.go: the task, on go-ethereum's state database.
use Prim.Native.Char.{code}
use Prim.Native.String.{String}
use mathlib.Core.Option.{some-injective}
use substate_cli.Prelude.{
  ◌||◌, Bool-cases, ℕ, ◌≡◌, ◌↔◌, refl, ap, inl, inr, Bool, true, false, ◌&&◌, Option, none, some,
  List, arith, ◌==◌, nat_eq, if◌then◌else◌, Option-cases,
}
use substate_cli.Types.{Alloc}
use substate_cli.Substate.{Env, Result, Substate}
use substate_cli.Replay.Evm.{StateDb, BlockContext, Applied, Machine, ChainConfig, Hashing}
use substate_cli.Replay.Task.{get_hash, block_context, hash_01, hash_02, evm_result, settle}
use substate_cli.Replay.Fork.{ReplayForkStat, stat, compare_outputs}
use substate_cli.Replay.Fork.Verdict.{compare_outputs-none_iff}

-- `strings.Split(text, ":")[0]`
unfoldable pub before_colon : String → String
before_colon String.[] = String.[]
before_colon (String.◌∷◌ c s) =
    let rest = before_colon s in if code c == b':' then String.[] else String.◌∷◌ c rest

-- `blockCtx`, with the base fee that London requires.
unfoldable pub fork_context : ChainConfig → Env → BlockContext
unfolding block_context
fork_context chain_config env = record (block_context env) {
  base_fee = elim env.base_fee [
    | some fee ↦ some fee
    | none ↦ if chain_config.is_london env.number then some 0 else none
  ];
}

module _ (result_equal : Result → Result → Bool) (alloc_equal : Alloc → Alloc → Bool)
    (hashing : Hashing) (chain_config : ChainConfig) (D : StateDb) (apply_message : Machine D.State)
    (substate_post_alloc : D.State → Alloc) where
  -- After `ApplyMessage`: the statistic that is sent, if one is; the outer `none` is a panic.
  unfoldable pub after_fork_apply :
      Substate → ℕ → D.State → Applied → Option (Option ReplayForkStat)
  unfolding before_colon settle evm_result compare_outputs
  after_fork_apply recording snapshot statedb (Applied.refused err) =
      elim (D.revert_to_snapshot snapshot statedb) [
        | none ↦ none
        | some _ ↦ some (stat (before_colon err))
      ]
  after_fork_apply recording snapshot statedb (Applied.executed failed used_gas err) =
      elim (settle chain_config recording.env.number D statedb) [
        | none ↦ none
        | some statedb' ↦ some (
            compare_outputs result_equal alloc_equal recording.result recording.output_alloc
              (evm_result hashing recording.message failed used_gas D hash_01 hash_02 statedb')
              (substate_post_alloc statedb') err)
      ]

  -- `replayForkTask`, which returns no error.
  unfoldable pub replay_fork_task :
      (Alloc → D.State) → ℕ → Substate → Option (Option ReplayForkStat)
  unfolding get_hash fork_context after_fork_apply
  replay_fork_task make_state_db tx recording =
      let (statedb, snapshot) =
        D.snapshot (D.prepare hash_01 tx (make_state_db recording.input_alloc)) in
      elim (apply_message (fork_context chain_config recording.env) (get_hash recording.env)
        recording.message recording.env.gas_limit statedb) [
          | none ↦ none
          | some (statedb', nums, applied) ↦ after_fork_apply recording snapshot statedb' applied
        ]

  -- The database before the message, and the identifier of its snapshot.
  abbrev pub prepared : (Alloc → D.State) → ℕ → Substate → D.State × ℕ
  prepared make_state_db tx recording =
      D.snapshot (D.prepare hash_01 tx (make_state_db recording.input_alloc))

  -- The message is not refused, the database settles, and the recorded result and allocation equal
  -- those read from it.
  abbrev pub Accepted : Substate → D.State → Applied → Type 0
  Accepted recording statedb (Applied.refused err) = ⊥
  Accepted recording statedb (Applied.executed failed used_gas err) =
      (settled : D.State) × (settle chain_config recording.env.number D statedb ≡ some settled)
      × ((result_equal recording.result
              (evm_result hashing recording.message failed used_gas D hash_01 hash_02 settled)
            && alloc_equal recording.output_alloc (substate_post_alloc settled))
          ≡ true)

  after_fork_apply_iff :
      (recording : Substate) (snapshot : ℕ) (statedb : D.State) (applied : Applied)
      → (after_fork_apply recording snapshot statedb applied ≡ some none)
        ↔ Accepted recording statedb applied
  unfolding after_fork_apply
  after_fork_apply_iff recording snapshot statedb (Applied.refused err) = (
    λ h. elim (Option-cases (D.revert_to_snapshot snapshot statedb)) [
      | inl panics ↦ absurd (ground (arith, panics))
      | inr (back, reverted) ↦ absurd (ground (arith, reverted))
    ],
    λ h. elim h [ ],
  )
  after_fork_apply_iff recording snapshot statedb (Applied.executed failed used_gas err) =
      let result = λ (settled : D.State).
        evm_result hashing recording.message failed used_gas D hash_01 hash_02 settled in
      let equal = λ (settled : D.State).
        compare_outputs-none_iff result_equal alloc_equal recording.result recording.output_alloc
          (result settled) (substate_post_alloc settled) err in
      (
        λ h. elim (Option-cases (settle chain_config recording.env.number D statedb)) [
          | inl panics ↦ absurd (ground (arith, panics))
          | inr (settled, made) ↦ (
            settled,
            made,
            (equal settled).0 (some-injective _ _ (rw (made, after_fork_apply) at h)),
          )
        ],
        λ h. rw (h.1, after_fork_apply) (ap some ((equal h.0).1 h.2)),
      )

  -- Let the machine return. The task ends without a panic and without a statistic exactly if the
  -- message is not refused, the database settles, and the recorded result and allocation equal
  -- those read from it: a refused message, like every difference, is counted.
  pub replay_fork_task-none_iff :
      (make_state_db : Alloc → D.State) (tx : ℕ) (recording : Substate) {statedb : D.State}
      {nums : List ℕ} {applied : Applied}
      → apply_message
          (fork_context chain_config recording.env)
          (get_hash recording.env)
          recording.message
          recording.env.gas_limit
          (prepared make_state_db tx recording).0
        ≡ some (statedb, nums, applied)
      → (replay_fork_task make_state_db tx recording ≡ some none)
        ↔ Accepted recording statedb applied
  unfolding replay_fork_task
  replay_fork_task-none_iff make_state_db tx recording {statedb} {nums} {applied} e =
      rw (e, replay_fork_task)
        (after_fork_apply_iff recording (prepared make_state_db tx recording).1 statedb applied)

abbrev pub has_colon : String → Bool
has_colon String.[] = false
has_colon (String.◌∷◌ c s) = code c == b':' || has_colon s

abbrev pub starts_with_colon : String → Bool
starts_with_colon String.[] = false
starts_with_colon (String.◌∷◌ c s) = code c == b':'

abbrev pub append : String → String → String
append String.[] t = t
append (String.◌∷◌ c s) t = String.◌∷◌ c (append s t)

abbrev pub is_empty : String → Bool
is_empty String.[] = true
is_empty (String.◌∷◌ c s) = false

-- The text that is counted for a refused message is the error's up to its first colon: it has no
-- colon, and the error is this text with a rest that is empty or starts with a colon.
pub before_colon_lem :
    (s : String)
    → (has_colon (before_colon s) ≡ false)
      × (rest : String) × (s ≡ append (before_colon s) rest)
      × ((is_empty rest || starts_with_colon rest) ≡ true)
unfolding before_colon
before_colon_lem String.[] = (refl, String.[], refl, refl)
before_colon_lem (String.◌∷◌ c s) = elim (Bool-cases (code c == b':')) [
  | inl colon ↦ rw colon (refl, String.◌∷◌ c s, refl, colon)
  | inr other ↦
      let (clean, rest, whole, ends) = before_colon_lem s in
      rw other (rw other clean, rest, ap (λ t. String.◌∷◌ c t) whole, ends)
]
