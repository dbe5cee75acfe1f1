-- ===== src/Replay/Task/Simulation.antt =====
-- A replay comes to the same verdict on two state databases of which one simulates the other: the
-- flag that chooses the database may change how fast a replay is, and not what it finds.
use substate_cli.Prelude.{ℕ, ◌≡◌, Bool, true, Option, none, some, List, nat_eq, is_some}
use substate_cli.Types.{Hash, Alloc}
use substate_cli.Substate.{Substate, Result, Message}
use substate_cli.Replay.Evm.{StateDb, BlockContext, Applied, Machine, ChainConfig, Hashing}
use substate_cli.Replay.Task.{Outcome, TaskError, hash_01, hash_02, after_apply}

-- The error that a task returns; `none` is a panic.
abbrev pub verdict : Option Outcome → Option (Option TaskError)
verdict none = none
verdict (some o) = some o.error

-- Two calls panic both, or leave related states.
abbrev pub Both : {S T : Type 0} → (S → T → Type 0) → Option S → Option T → Type 0
Both R none none = Unit
Both R (some s) (some t) = R s t
Both R none (some t) = ⊥
Both R (some s) none = ⊥

module _ (alloc_equal : Alloc → Alloc → Bool) (D E : StateDb) where
  -- `Made` relates the states that a task starts from, `Held` two snapshot identifiers with the states
  -- that still have them, before and after the message, and `Settled` the states after `Finalise`.
  -- Each law is on the arguments that a task gives.
  pub record Simulation (Made : D.State → E.State → Type 0)
      (Held : ℕ → ℕ → D.State → E.State → Type 0) (Settled : D.State → E.State → Type 0)
      : Type 0 where
    pub start :
        (tx : ℕ) (s : D.State) (t : E.State)
        → Made s t
        → Held
            (D.snapshot (D.prepare hash_02 tx s)).1
            (E.snapshot (E.prepare hash_02 tx t)).1
            (D.snapshot (D.prepare hash_02 tx s)).0
            (E.snapshot (E.prepare hash_02 tx t)).0
    pub revert :
        (m n : ℕ) (s : D.State) (t : E.State)
        → Held m n s t
        → is_some (D.revert_to_snapshot m s) ≡ is_some (E.revert_to_snapshot n t)
    pub finalise :
        (m n : ℕ) (s : D.State) (t : E.State)
        → Held m n s t
        → Both Settled (D.finalise true s) (E.finalise true t)
    pub get_logs :
        (s : D.State) (t : E.State)
        → Settled s t
        → D.get_logs hash_02 hash_01 s ≡ E.get_logs hash_02 hash_01 t
    pub post_alloc :
        (alloc : Alloc) (s : D.State) (t : E.State)
        → Settled s t
        → alloc_equal alloc (D.get_substate_post_alloc s).1
          ≡ alloc_equal alloc (E.get_substate_post_alloc t).1

  -- The machine does the same on related states, and keeps the identifiers that are held.
  abbrev pub RunsAlike :
      (ℕ → ℕ → D.State → E.State → Type 0) → Machine D.State → Machine E.State → Type 0
  RunsAlike Held d e =
      (context : BlockContext) (hash_of : ℕ → Hash) (msg : Message) (gas m n : ℕ) (s : D.State)
      (t : E.State)
      → Held m n s t
      → Both (λ x y. Held m n x.0 y.0 × (x.1 ≡ y.1) × (x.2 ≡ y.2)) (d context hash_of msg gas s)
          (e context hash_of msg gas t)

module _ (result_equal : Result → Result → Bool) (alloc_equal : Alloc → Alloc → Bool) where
  module _ (hashing : Hashing) (chain_config : ChainConfig) (only_successful : Bool) (D E : StateDb)
      (Made : D.State → E.State → Type 0) (Held : ℕ → ℕ → D.State → E.State → Type 0)
      (Settled : D.State → E.State → Type 0) (sim : Simulation alloc_equal D E Made Held Settled)
      (d : Machine D.State) (e : Machine E.State) (alike : RunsAlike alloc_equal D E Held d e) where
    abbrev after_D : ℕ → ℕ → Substate → ℕ → D.State → List ℕ → Applied → Option Outcome
    after_D = after_apply result_equal alloc_equal hashing chain_config only_successful D d

    abbrev after_E : ℕ → ℕ → Substate → ℕ → E.State → List ℕ → Applied → Option Outcome
    after_E = after_apply result_equal alloc_equal hashing chain_config only_successful E e
