-- ===== src/Gate/Scheduler/Turns.antt =====
-- The decision of `run_until_idle` of nawa/gate/src/lib.rs about an agent after its step.
use i3ml_os.Prelude.{ℕ, ◌+◌, if◌then◌else◌, wrap64}
use i3ml_os.Gate.Acb.{State, Agent, Progress, exhausted}
use i3ml_os.Gate.Kernel.{Kernel}
use i3ml_os.Gate.Scheduler.{become}

-- The agent as `judge` leaves it, with the clock at `at` where it is read.
abbrev decided : Progress → ℕ → Agent → Agent
decided Progress.continue at a =
    if exhausted a.budget then become State.suspended a else record a { deadline = wrap64 (at + 1) }
decided Progress.await_consent at a = become State.awaiting_consent a
decided Progress.done at a = become State.finished a
decided Progress.failed at a = become State.killed a
