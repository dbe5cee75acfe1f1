-- ===== src/Replay/Pipeline/Runs.antt =====
-- What the runs of the pipeline end with, and whether they end.
use substate_cli.Prelude.{ℕ, ◌≡◌, ◌≢◌, refl, sym, ◌∙◌, ap, Bool, true, false, List, [], ◌∷◌, ◌++◌}
use mathlib.Core.List.{append_assoc}
use substate_cli.Replay.Pipeline.{
  Stage, executing, waiting, collected, gave_up, OnError, wait_open, return_error, Pipe,
  receive_all, after_error, Step, send, complete, fail, collect, finish, join, initial, Reach, here,
  later,
}

-- The action is past its wait, or has returned the error.
abbrev pub HasEnded : Stage → Type 0
HasEnded executing = ⊥
HasEnded waiting = ⊥
HasEnded collected = Unit
HasEnded gave_up = Unit

after_error-ne-collected : (o : OnError) → after_error o ≢ collected
after_error-ne-collected wait_open h = cc
after_error-ne-collected return_error h = cc

returns : (o : OnError) → after_error o ≡ gave_up → o ≡ return_error
returns wait_open h = absurd cc
returns return_error h = refl

returns-ne-waiting : (o : OnError) → o ≡ return_error → after_error o ≢ waiting
returns-ne-waiting wait_open h g = cc
returns-ne-waiting return_error h g = cc

module _ {A M : Type 0} (receive : A → M → M) (capacity : ℕ) (fails : Bool)
    (on_error : OnError) where
  pub record Inv (items : List A) (m : M) (s : Pipe A M) : Type 0 where
    pub kept :
        fails ≡ false
        → receive_all receive (s.channel ++ s.unsent) s.state ≡ receive_all receive items m
    pub closed : s.is_closed ≡ true → (fails ≡ false) × (s.unsent ≡ [])
    pub done : s.is_done ≡ true → (s.is_closed ≡ true) × (s.channel ≡ [])
    pub waits : s.stage ≡ waiting → fails ≡ false → s.is_closed ≡ true
    pub open_stage : s.stage ≡ executing → s.is_closed ≡ false
    pub ends : s.stage ≡ collected → s.is_done ≡ true
    pub gives_up : s.stage ≡ gave_up → (fails ≡ true) × (on_error ≡ return_error)
    pub pool_fails : on_error ≡ return_error → s.stage ≡ waiting → fails ≡ false

  initial-Inv :
      (items : List A) (m : M) → Inv items m (initial receive capacity fails on_error items m)
  initial-Inv items m = record {
    kept = λ _. refl;
    closed = λ h. absurd cc;
    done = λ h. absurd cc;
    waits = λ h. absurd cc;
    open_stage = λ h. refl;
    ends = λ h. absurd cc;
    gives_up = λ h. absurd cc;
    pool_fails = λ h g. absurd cc;
  }

  pub Step-Inv :
      (items : List A) (m : M) {s t : Pipe A M}
      → Step receive capacity fails on_error s t
      → Inv items m s
      → Inv items m t
  unfolding receive_all
  Step-Inv items m {s} (send x rest e u c) v = record {
    kept = λ h.
        ap (λ l. receive_all receive l s.state)
          (append_assoc s.channel (x ∷ []) rest ∙ ap (λ l. s.channel ++ l) (sym u))
        ∙ v.kept h;
    closed = λ h. absurd (cc (h, v.open_stage e));
    done = λ h. absurd (cc ((v.done h).0, v.open_stage e));
    waits = v.waits;
    open_stage = v.open_stage;
    ends = v.ends;
    gives_up = v.gives_up;
    pool_fails = v.pool_fails;
  }
  Step-Inv items m (complete f e u) v = record {
    kept = v.kept;
    closed = λ h. (f, u);
    done = λ h. (refl, (v.done h).1);
    waits = λ h g. refl;
    open_stage = λ h. absurd cc;
    ends = λ h. absurd cc;
    gives_up = λ h. absurd cc;
    pool_fails = λ h g. f;
  }
  Step-Inv items m (fail f e) v = record {
    kept = λ h. absurd (cc (f, h));
    closed = λ h. absurd (cc (h, v.open_stage e));
    done = λ h. absurd (cc ((v.done h).0, v.open_stage e));
    waits = λ h g. absurd (cc (f, g));
    open_stage = λ h. v.open_stage e;
    ends = λ h. absurd (after_error-ne-collected on_error h);
    gives_up = λ h. (f, returns on_error h);
    pool_fails = λ h g. absurd (returns-ne-waiting on_error h g);
  }
  Step-Inv items m {s} (collect x rest c d) v = record {
    kept = λ h. ap (λ l. receive_all receive (l ++ s.unsent) s.state) (sym c) ∙ v.kept h;
    closed = v.closed;
    done = λ h. absurd (cc (h, d));
    waits = v.waits;
    open_stage = v.open_stage;
    ends = v.ends;
    gives_up = v.gives_up;
    pool_fails = v.pool_fails;
  }
  Step-Inv items m (finish c k d) v = record {
    kept = v.kept;
    closed = v.closed;
    done = λ h. (k, c);
    waits = v.waits;
    open_stage = v.open_stage;
    ends = λ h. refl;
    gives_up = v.gives_up;
    pool_fails = v.pool_fails;
  }
  Step-Inv items m (join e d) v = record {
    kept = v.kept;
    closed = v.closed;
    done = v.done;
    waits = λ h. absurd cc;
    open_stage = λ h. absurd cc;
    ends = λ h. d;
    gives_up = λ h. absurd cc;
    pool_fails = λ h g. absurd cc;
  }

  pub Reach-Inv :
      (items : List A) (m : M) {s : Pipe A M}
      → Reach receive capacity fails on_error (initial receive capacity fails on_error items m) s
      → Inv items m s
  Reach-Inv items m here = initial-Inv items m
  Reach-Inv items m (later r st) = Step-Inv items m st (Reach-Inv items m r)

  -- If the pool returns no error, then whatever the schedule, once the action is past its wait the
  -- collector has received everything that was sent, in the order of the sends.
  pub collected-receive_all :
      (items : List A) (m : M) (s : Pipe A M)
      → fails ≡ false
      → Reach receive capacity fails on_error (initial receive capacity fails on_error items m) s
      → s.stage ≡ collected
      → s.state ≡ receive_all receive items m
  collected-receive_all items m s f r e =
      let v = Reach-Inv items m r in
      let (closed, empty) = v.done (v.ends e) in
      let nothing = (v.closed closed).1 in (unfold receive_all in cc (empty, nothing, v.kept f))

  -- If the pool returns an error and the action then waits with the channel open, the action never
  -- gets past its wait and never returns, whatever the schedule.
  pub waits_for_ever :
      (items : List A) (m : M) (s : Pipe A M)
      → fails ≡ true
      → on_error ≡ wait_open
      → Reach receive capacity fails on_error (initial receive capacity fails on_error items m) s
      → ¬ HasEnded s.stage
  waits_for_ever items m s f o r = go s.stage refl
    where
      v : Inv items m s
      v = Reach-Inv items m r

      go : (g : Stage) → s.stage ≡ g → ¬ HasEnded g
      go executing e h = h
      go waiting e h = h
      go collected e h = cc (f, (v.closed (v.done (v.ends e)).0).0)
      go gave_up e h = cc (o, (v.gives_up e).1)
