-- ===== src/Scheduler.antt =====
-- src/daemon/scheduler.hpp and src/daemon/scheduler.cpp: which sub-block is requested from which peer.
-- The scheduler runs on one thread; an operation takes its state and gives the state after the call.
pub mod State
pub mod Choice
pub mod Requests
pub mod Rebalance
pub mod Peers
pub mod Endgame
pub mod Completions
pub mod Issues
pub mod Limits
pub mod Counting
pub mod Phases
pub mod Wants
pub mod Resume
pub mod Reach
mod Examples
