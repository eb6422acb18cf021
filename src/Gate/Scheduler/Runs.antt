-- ===== src/Gate/Scheduler/Runs.antt =====
-- The loop of `run_until_idle` of nawa/gate/src/lib.rs, turn by turn.
use i3ml_os.Prelude.{
  ℕ, zero, suc, ◌+◌, ◌-◌, ◌≤◌, ◌≡◌, ◌⊎◌, refl, sym, ap, inl, inr, none, some, arith, Option-cases,
  subst, ==_iff, find-reaches,
}
use i3ml_os.Gate.Acb.{Agent, Progress, Context}
use i3ml_os.Gate.Kernel.{Kernel, find_agent, has_id, now}
use i3ml_os.Gate.Scheduler.{
  Outcome, Verdict, context_of, judge, close_turn, report, turn, run_loop, run_until_idle,
  next_runnable,
}
use i3ml_os.Gate.Scheduler.Order.{next_runnable-Chosen}

-- The agent that is chosen is there.
chosen_found :
    (k : Kernel) (id : ℕ)
    → next_runnable k ≡ some id
    → (found : Agent) × (find_agent id k ≡ some found)
chosen_found k id h =
    let (a, named, chosen) = next_runnable-Chosen k id h in
    find-reaches (has_id id) k.supervisor.agents chosen.index a chosen.stands
      ((==_iff a.id id).1 named)

module _ (behaviour : ℕ → Context → Kernel → Outcome) where
  -- The step function of an agent run once, and what the supervisor makes of it: how many agents that
  -- completed, and the kernel.
  abbrev pub one_turn : ℕ → Agent → Kernel → ℕ × Kernel
  one_turn id found k =
      let o = behaviour found.step (context_of found) (now k).1 in
      close_turn id o.progress
        (judge id o.progress o.cursor ((now o.kernel).0 - (now k).0) (now o.kernel).1)

  -- Turns one after the other, each of the agent that is next in the kernel that the one before left, and
  -- how many agents they completed.
  pub data Ran : Kernel → ℕ → ℕ → Kernel → Type 0 where
    halted : (k : Kernel) → Ran k 0 0 k
    turned :
        (k k' : Kernel) (id turns completed : ℕ) (found : Agent)
        → next_runnable k ≡ some id
        → find_agent id k ≡ some found
        → Ran (one_turn id found k).1 turns completed k'
        → Ran k (suc turns) ((one_turn id found k).0 + completed) k'

  turn-eq :
      (k : Kernel) (id : ℕ) (found : Agent)
      → find_agent id k ≡ some found
      → turn behaviour id k ≡ one_turn id found k
  unfolding turn
  turn-eq k id found e = rw (e, turn) refl

  close_turn-le : (id : ℕ) (progress : Progress) (v : Verdict) → (close_turn id progress v).0 ≤ 1
  unfolding close_turn report
  close_turn-le id Progress.continue v = ground arith
  close_turn-le id Progress.await_consent v = ground arith
  close_turn-le id Progress.done v = ground arith
  close_turn-le id Progress.failed v = ground arith

  Ran-le : (k k' : Kernel) (turns completed : ℕ) → Ran k turns completed k' → completed ≤ turns
  Ran-le k k' turns completed (halted _) = omega arith
  Ran-le k k' turns completed (turned _ _ id n c found chosen there later) =
      omega (arith, close_turn-le id _ _, Ran-le (one_turn id found k).1 k' n c later)

  -- What the loop does that has counted `completed` agents before.
  record Loops (steps completed : ℕ) (k : Kernel) (r : ℕ × Kernel) : Type 0 where
    turns : ℕ
    more : ℕ
    within : turns ≤ steps
    ran : Ran k turns more r.1
    counted : completed + more ≡ r.0
    ended : (turns ≡ steps) ⊎ (next_runnable r.1 ≡ none)

  Loops-next :
      (steps completed : ℕ) (k : Kernel) (id : ℕ) (found : Agent) (r : ℕ × Kernel)
      → next_runnable k ≡ some id
      → find_agent id k ≡ some found
      → Loops steps (completed + (one_turn id found k).0) (one_turn id found k).1 r
      → Loops (suc steps) completed k r
  Loops-next steps completed k id found r chosen there later = record {
    turns = suc later.turns;
    more = (one_turn id found k).0 + later.more;
    within = omega (arith, later.within);
    ran = turned k r.1 id later.turns later.more found chosen there later.ran;
    counted = omega (arith, later.counted);
    ended = elim (later.ended) [ inl all ↦ inl (ap suc all) | inr idle ↦ inr idle ];
  }

  run_loop-Loops :
      (steps completed : ℕ) (k : Kernel)
      → Loops steps completed k (run_loop behaviour steps completed k)
  unfolding run_loop
  run_loop-Loops zero completed k = record {
    turns = 0;
    more = 0;
    within = omega arith;
    ran = halted k;
    counted = omega arith;
    ended = inl refl;
  }
  run_loop-Loops (suc steps) completed k = elim (Option-cases (next_runnable k)) [
    | inl idle ↦
        rw (idle, run_loop)
          (record {
            turns = 0;
            more = 0;
            within = omega arith;
            ran = halted k;
            counted = omega arith;
            ended = inr idle;
          })
    | inr (id, chosen) ↦
        let (found, there) = chosen_found k id chosen in
        let (n, k₁) = one_turn id found k in
        let out : run_loop behaviour (suc steps) completed k
            ≡ run_loop behaviour steps (completed + n) k₁ =
          rw (chosen, turn-eq k id found there, run_loop) refl in
        subst (Loops (suc steps) completed k) (sym out) (
          Loops-next steps completed k id found _ chosen there
            (run_loop-Loops steps (completed + n) k₁))
  ]

  -- What a run of at most `max_steps` turns did, and how it ended.
  pub record Runs (max_steps : ℕ) (k : Kernel) (r : ℕ × Kernel) : Type 0 where
    pub turns : ℕ
    pub within : turns ≤ max_steps
    pub ran : Ran k turns r.0 r.1
    pub each : r.0 ≤ turns
    pub ended : (turns ≡ max_steps) ⊎ (next_runnable r.1 ≡ none)

  -- Whatever the agents do, the loop of the supervisor ends after at most `max_steps` turns: it runs the
  -- agent that is next, then the one that is next in the kernel that this leaves, and so on. It stops short
  -- of `max_steps` only where no agent is left to run. It returns the number of agents that its turns
  -- completed, at most one in each.
  pub run_until_idle-Runs :
      (max_steps : ℕ) (k : Kernel) → Runs max_steps k (run_until_idle behaviour max_steps k)
  unfolding run_until_idle
  run_until_idle-Runs max_steps k =
      let l = run_loop-Loops max_steps 0 k in
      let r = run_loop behaviour max_steps 0 k in
      let ran : Ran k l.turns r.0 r.1 =
        subst (λ (n : ℕ). Ran k l.turns n r.1) (omega (arith, l.counted)) l.ran in
      record {
        turns = l.turns;
        within = l.within;
        ran = ran;
        each = Ran-le k r.1 l.turns r.0 ran;
        ended = l.ended;
      }
