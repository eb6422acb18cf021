-- ===== src/Gate.antt =====
-- nawa/gate/src: the gate between agents and the world, and the supervisor that schedules them.
pub mod Acb
pub mod Budget
pub mod Kernel
pub mod Verbs
pub mod Invoke
pub mod Approvals
pub mod Scheduler
mod Tests
