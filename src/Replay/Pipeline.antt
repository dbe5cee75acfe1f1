-- ===== src/Replay/Pipeline.antt =====
-- The pipeline that replay_fork.go and statistic.go build: tasks of a pool send into a channel, a
-- collector receives in the background, and the action waits for the collector at the end.
pub mod Runs
pub mod Ends
use substate_cli.Prelude.{
  ℕ, zero, suc, ◌+◌, ◌*◌, ◌<◌, ◌≤◌, ◌≡◌, ◌≢◌, refl, sym, ◌∙◌, ap, inl, inr, ◌⊎◌, Bool, true, false,
  List, [], ◌∷◌, ◌++◌, arith, length,
}

-- Where the action stands: in `taskPool.Execute`, waiting for the collector, past the wait, or
-- returned with the error before it.
pub data Stage : Type 0 where
  executing waiting collected gave_up : Stage

-- What the action does when the pool returns an error: wait without closing the channel, as in
-- replay_fork.go, or return the error, as in statistic.go.
pub data OnError : Type 0 where
  wait_open return_error : OnError

-- `unsent` is what the tasks have still to send, in the order in which their sends happen.
pub record Pipe {ℓ κ} (A : Type ℓ) (M : Type κ) : Type (ℓ ⊔ κ) where
  pub stage : Stage
  pub unsent : List A
  pub channel : List A
  pub is_closed : Bool
  pub state : M
  pub is_done : Bool

-- The rest of the loop `for x := range channel { receive }`.
unfoldable pub receive_all {ℓ κ} : {A : Type ℓ} {M : Type κ} → (A → M → M) → List A → M → M
receive_all receive [] m = m
receive_all receive (x ∷ xs) m = receive_all receive xs (receive x m)

abbrev pub after_error : OnError → Stage
after_error wait_open = waiting
after_error return_error = gave_up

module _ {A M : Type 0} (receive : A → M → M) (capacity : ℕ) (fails : Bool)
    (on_error : OnError) where
  pub data Step (s : Pipe A M) : Pipe A M → Type 0 where
    -- `channel <- x`, which blocks while the buffer is full
    send :
        (x : A) (rest : List A)
        → s.stage ≡ executing
        → s.unsent ≡ x ∷ rest
        → length s.channel < capacity
        → Step s (record s { unsent = rest; channel = s.channel ++ x ∷ [] })
    -- `Execute` returns no error, and the channel is closed
    complete :
        fails ≡ false
        → s.stage ≡ executing
        → s.unsent ≡ []
        → Step s (record s { stage = waiting; is_closed = true })
    -- `Execute` returns an error; its tasks send no more
    fail :
        fails ≡ true
        → s.stage ≡ executing
        → Step s (record s { stage = after_error on_error; unsent = [] })
    -- the collector's loop
    collect :
        (x : A) (rest : List A)
        → s.channel ≡ x ∷ rest
        → s.is_done ≡ false
        → Step s (record s { channel = rest; state = receive x s.state })
    -- its end
    finish :
        s.channel ≡ []
        → s.is_closed ≡ true
        → s.is_done ≡ false
        → Step s (record s { is_done = true })
    -- the wait for the collector
    join : s.stage ≡ waiting → s.is_done ≡ true → Step s (record s { stage = collected })

  abbrev pub initial : List A → M → Pipe A M
  initial items m = record {
    stage = executing;
    unsent = items;
    channel = [];
    is_closed = false;
    state = m;
    is_done = false;
  }

  pub data Reach (s : Pipe A M) : Pipe A M → Type 0 where
    here : Reach s s
    later : {t u : Pipe A M} → Reach s t → Step t u → Reach s u
