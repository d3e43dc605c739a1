-- ===== src/PeerManager.antt =====
-- src/daemon/peer_manager.hpp and src/daemon/peer_manager.cpp: the sessions of a task, whom it
-- connects to, whom it unchokes, and what it tells its peers about each other. `Sessions` has the
-- sessions, `Choke` the choke rounds and `Exchange` the periodic exchange of peers.
pub mod Sessions
pub mod Choke
pub mod Exchange
pub mod Events
pub mod Ids
pub mod Slots
pub mod Departures
pub mod Rounds
pub mod Kept
mod Examples
