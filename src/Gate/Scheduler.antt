-- ===== src/Gate/Scheduler.antt =====
-- The supervisor loop of nawa/gate/src/lib.rs. An agent's step function is code outside the gate, which
-- may cross the gate while it runs: it is a parameter that takes the kernel and returns it.
pub mod Order
pub mod Turns
pub mod Runs
use i3ml_os.Prelude.{
  ℕ, zero, suc, ◌+◌, ◌-◌, Bool, true, false, not, ◌&&◌, Option, none, some, List, [], ◌∷◌, map, ltb,
  filter, if◌then◌else◌, wrap64,
}
use mathlib.Core.Option
use i3ml_os.VecLite
use i3ml_os.Text.{literal}
use i3ml_os.Sijil.{Event}
use i3ml_os.Sijil.Label.{Label}
use i3ml_os.Gate.Acb.{State, Agent, Budget, Progress, Context, exhausted}
use i3ml_os.Gate.Kernel.{Kernel, journal, now, find_agent, update_agent}

abbrev pub is_runnable : State → Bool
is_runnable State.runnable = true
is_runnable State.awaiting_consent = false
is_runnable State.suspended = false
is_runnable State.finished = false
is_runnable State.killed = false

abbrev pub is_suspended : State → Bool
is_suspended State.runnable = false
is_suspended State.awaiting_consent = false
is_suspended State.suspended = true
is_suspended State.finished = false
is_suspended State.killed = false

abbrev pub is_ready : Agent → Bool
is_ready a = is_runnable a.state && not (exhausted a.budget)

-- `min_by_key(|agent| agent.deadline)`: the first of the least.
unfoldable pub min_from : Agent → List Agent → Agent
min_from best [] = best
min_from best (a ∷ agents) = min_from (if ltb a.deadline best.deadline then a else best) agents

unfoldable pub min_by_deadline : List Agent → Option Agent
min_by_deadline [] = none
min_by_deadline (a ∷ agents) = some (min_from a agents)

unfoldable pub next_runnable : Kernel → Option ℕ
next_runnable k = Option.map (λ a. a.id) (min_by_deadline (filter is_ready k.supervisor.agents))

-- What a step function gives back.
pub record Outcome : Type 0 where
  pub progress : Progress
  pub cursor : ℕ
  pub kernel : Kernel

-- What the supervisor decides about the agent after its step: whether it is suspended, and whether
-- that is the step's own doing.
pub record Verdict : Type 0 where
  pub suspended : Bool
  pub by_budget : Bool
  pub kernel : Kernel

abbrev pub verdict : Bool → Bool → Kernel → Verdict
verdict s b k = record { suspended = s; by_budget = b; kernel = k }

abbrev pub account : ℕ → ℕ → Agent → Agent
account cursor elapsed a = record a {
  cursor = cursor;
  budget = record (a.budget) { used_microseconds = wrap64 (a.budget.used_microseconds + elapsed) };
}

abbrev pub become : State → Agent → Agent
become s a = record a { state = s }

-- The `match progress` under the lock, for an agent that the gate did not suspend.
unfoldable pub dispatch : ℕ → Progress → Agent → Kernel → Verdict
dispatch id Progress.continue found k =
    let (at, k₁) = now k in
    if exhausted found.budget
    then verdict true true (update_agent id (become State.suspended) k)
    else verdict false false (update_agent id (λ a. record a { deadline = wrap64 (at + 1) }) k₁)
dispatch id Progress.await_consent found k =
    verdict false false (update_agent id (become State.awaiting_consent) k)
dispatch id Progress.done found k = verdict false false (update_agent id (become State.finished) k)
dispatch id Progress.failed found k = verdict false false (update_agent id (become State.killed) k)

-- The block after the step, under the lock.
unfoldable pub judge : ℕ → Progress → ℕ → ℕ → Kernel → Verdict
judge id progress cursor elapsed k = elim (find_agent id k) [
  | none ↦ verdict false false k
  | some found ↦
      let k₁ = update_agent id (account cursor elapsed) k in
      if is_suspended found.state
      then verdict true false k₁
      else dispatch id progress (account cursor elapsed found) k₁
]

-- The journal entries of a turn's end, and how many agents it completed.
unfoldable pub report : ℕ → Progress → Kernel → ℕ × Kernel
report id Progress.continue k = (0, k)
report id Progress.await_consent k = (0, k)
report id Progress.done k = (1, journal id Event.finished 0 (literal "ok") k)
report id Progress.failed k = (1, journal id Event.finished 1 (literal "failed") k)

unfoldable pub close_turn : ℕ → Progress → Verdict → ℕ × Kernel
close_turn id progress v =
    if v.suspended
    then (
      0,
      if v.by_budget
          then journal id Event.budget_exhausted 0 (literal "suspended at step end") v.kernel
          else v.kernel,
    )
    else report id progress v.kernel

abbrev pub context_of : Agent → Context
context_of a = record {
  id = a.id;
  goal = a.goal;
  capabilities = a.capabilities;
  budget = a.budget;
  cursor = a.cursor;
}

module _ (behaviour : ℕ → Context → Kernel → Outcome) where
  -- One round of the loop for the agent that was chosen.
  unfoldable pub turn : ℕ → Kernel → ℕ × Kernel
  turn id k = elim (find_agent id k) [
    | none ↦ (0, k)
    | some found ↦
        let (started, k₁) = now k in
        let o = behaviour found.step (context_of found) k₁ in
        let (ended, k₂) = now o.kernel in
        close_turn id o.progress (judge id o.progress o.cursor (ended - started) k₂)
  ]

  unfoldable pub run_loop : ℕ → ℕ → Kernel → ℕ × Kernel
  run_loop zero completed k = (completed, k)
  run_loop (suc steps) completed k = elim (next_runnable k) [
    | none ↦ (completed, k)
    | some id ↦ let (n, k₁) = turn id k in run_loop steps (completed + n) k₁
  ]

  unfoldable pub run_until_idle : ℕ → Kernel → ℕ × Kernel
  run_until_idle max_steps k = run_loop max_steps 0 k

pub record AgentSummary : Type 0 where
  pub id : ℕ
  pub parent : ℕ
  pub goal : Label
  pub state : State
  pub crossings : ℕ
  pub spent_micro_dollars : ℕ
  pub budget_micro_dollars : ℕ
  pub capabilities : ℕ

abbrev pub summary_of : Agent → AgentSummary
summary_of a = record {
  id = a.id;
  parent = a.parent;
  goal = a.goal;
  state = a.state;
  crossings = a.crossings;
  spent_micro_dollars = a.budget.spent_micro_dollars;
  budget_micro_dollars = a.budget.micro_dollars;
  capabilities = VecLite.len a.capabilities;
}

pub summaries : Kernel → List AgentSummary
summaries k = map summary_of k.supervisor.agents
