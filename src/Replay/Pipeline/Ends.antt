-- ===== src/Replay/Pipeline/Ends.antt =====
-- The runs of the pipeline end.
use substate_cli.Prelude.{
  ℕ, zero, suc, ◌+◌, ◌*◌, ◌<◌, ◌≤◌, ◌≡◌, refl, inl, inr, ◌⊎◌, Bool, false, List, [], ◌∷◌, arith,
  length, length-append, Bool-cases, if◌then◌else◌,
}
use substate_cli.Replay.Pipeline.{
  Stage, executing, waiting, collected, gave_up, OnError, wait_open, return_error, Pipe,
  after_error, Step, send, complete, fail, collect, finish, join, initial, Reach, here, later,
}
use substate_cli.Replay.Pipeline.Runs.{HasEnded, Inv, Step-Inv, Reach-Inv}

-- Steps left at most, were there no more sends.
abbrev stage_steps : Stage → ℕ
stage_steps executing = 2
stage_steps waiting = 1
stage_steps collected = 0
stage_steps gave_up = 0

abbrev pub measure : {A M : Type 0} → Pipe A M → ℕ
measure s =
    2 * length s.unsent + length s.channel + stage_steps s.stage + (if s.is_done then 0 else 1)

executing-steps : (o : OnError) → stage_steps (after_error o) ≤ 1
executing-steps wait_open = omega arith
executing-steps return_error = omega arith

module _ {A M : Type 0} (receive : A → M → M) (capacity : ℕ) (fails : Bool)
    (on_error : OnError) where
  before :
      {s t u : Pipe A M}
      → Step receive capacity fails on_error s t
      → Reach receive capacity fails on_error t u
      → Reach receive capacity fails on_error s u
  before st here = later here st
  before st (later r sv) = later (before st r) sv

  -- Each step of the pipeline, of whichever of its parts, leaves fewer steps to do: no run goes on
  -- for ever, whatever the schedule.
  pub Step-measure :
      {s t : Pipe A M} → Step receive capacity fails on_error s t → measure t < measure s
  Step-measure {s} (send x rest e u c) = ground (arith, length-append s.channel (x ∷ []))
  Step-measure (complete f e u) = ground arith
  Step-measure (fail f e) = ground (arith, executing-steps on_error)
  Step-measure (collect x rest c d) = ground arith
  Step-measure (finish c k d) = ground arith
  Step-measure (join e d) = ground arith

  abbrev Stepping : Pipe A M → Type 0
  Stepping s = (t : Pipe A M) × Step receive capacity fails on_error s t

  -- The collector has something to do, or nothing is left in the channel.
  collecting : (s : Pipe A M) → s.is_done ≡ false → Stepping s ⊎ (s.channel ≡ [])
  collecting s d = go s.channel refl
    where
      go : (l : List A) → s.channel ≡ l → Stepping s ⊎ (s.channel ≡ [])
      go [] e = inr e
      go (x ∷ rest) e = inl (_, collect x rest e d)

  executing-Stepping :
      0 < capacity → (s : Pipe A M) → s.stage ≡ executing → s.channel ≡ [] → Stepping s
  executing-Stepping room s e c = elim (Bool-cases fails) [
    | inl f ↦ (_, fail f e)
    | inr f ↦ go f s.unsent refl
  ]
    where
      go : fails ≡ false → (l : List A) → s.unsent ≡ l → Stepping s
      go f [] u = (_, complete f e u)
      go f (x ∷ rest) u = (_, send x rest e u (rw c (omega (arith, room))))

  module _ (room : 0 < capacity) (answers : (fails ≡ false) ⊎ (on_error ≡ return_error))
      (items : List A) (m : M) where
    pool_answers :
        (s : Pipe A M)
        → Inv receive capacity fails on_error items m s
        → s.stage ≡ waiting
        → fails ≡ false
    pool_answers s v e = elim answers [ inl f ↦ f | inr o ↦ v.pool_fails o e ]

    stepping :
        (s : Pipe A M)
        → Inv receive capacity fails on_error items m s
        → HasEnded s.stage ⊎ Stepping s
    stepping s v = go s.stage refl
      where
        go : (g : Stage) → s.stage ≡ g → HasEnded s.stage ⊎ Stepping s
        go collected e = inl (rw e tt)
        go gave_up e = inl (rw e tt)
        go executing e = inr (elim (Bool-cases s.is_done) [
          | inl d ↦ executing-Stepping room s e (v.done d).1
          | inr d ↦ elim (collecting s d) [ inl t ↦ t | inr c ↦ executing-Stepping room s e c ]
        ])
        go waiting e = inr (elim (Bool-cases s.is_done) [
          | inl d ↦ (_, join e d)
          | inr d ↦ elim (collecting s d) [
            | inl t ↦ t
            | inr c ↦ (_, finish c (v.waits e (pool_answers s v e)) d)
          ]
        ])

    ending :
        (n : ℕ) (s : Pipe A M)
        → measure s < n
        → Inv receive capacity fails on_error items m s
        → (t : Pipe A M) × Reach receive capacity fails on_error s t × HasEnded t.stage
    ending zero s h v = absurd (omega arith)
    ending (suc n) s h v = elim (stepping s v) [
      | inl e ↦ (s, here, e)
      | inr (t, st) ↦
          let (u, r, e) =
            ending n t (omega (arith, h, Step-measure st))
              (Step-Inv receive capacity fails on_error items m st v) in
          (u, before st r, e)
    ]

    -- If the channel has room and the pool returns no error, or the action returns an error at once,
    -- then from every state that the pipeline reaches, in whatever order its parts run, it can reach
    -- one where the action is past its wait or has returned: it never blocks for ever.
    pub pipeline-ends :
        (s : Pipe A M)
        → Reach receive capacity fails on_error (initial receive capacity fails on_error items m) s
        → (t : Pipe A M) × Reach receive capacity fails on_error s t × HasEnded t.stage
    pipeline-ends s r =
        ending (suc (measure s)) s (omega arith)
          (Reach-Inv receive capacity fails on_error items m r)
