-- ===== src/TaskManager.antt =====
-- src/daemon/task_manager.cpp: what a download has already, and what becomes of it. `Reuse` has the
-- chunks that `cmd_add` and `cmd_update` find in files that are there, `Start` the first state of
-- the scheduler, `Tick` the round of a task and the address it is announced to.
pub mod Reuse
pub mod Matches
pub mod Cloned
pub mod Start
pub mod Tick
pub mod Waiting
mod Examples
