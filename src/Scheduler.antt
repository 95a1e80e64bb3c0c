-- ===== src/Scheduler.antt =====
-- app/scheduler: the strategies that assign the ready subtasks of a task to nodes.
pub mod Floats
pub mod Base
pub mod Estimation
pub mod Greedy
pub mod Offload
pub mod Choice
pub mod Candidates
pub mod Plans
pub mod Least
