-- ===== src/PeerSession.antt =====
-- src/daemon/peer_session.cpp: a session with one peer. `Writer` has the queue of the outgoing
-- messages, `Greeting` the handshake, `Pex` the handler of a peer exchange, `Timeouts` the requests that wait for an answer,
-- `Serving` the requests that are answered, `Interest` the handlers of HAVE and BITFIELD and the
-- messages about interest. The other modules have the theorems.
pub mod Writer
pub mod WriteOrder
pub mod Pex
pub mod PexTrip
pub mod Greeting
pub mod Meeting
pub mod Timeouts
pub mod Expiry
pub mod Pipeline
pub mod Serving
pub mod Blocks
pub mod Cancelled
pub mod Pieces
pub mod Interest
pub mod Alternation
mod Examples
mod RequestExamples
mod MeetingExamples
