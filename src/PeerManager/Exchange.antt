-- ===== src/PeerManager/Exchange.antt =====
-- src/daemon/peer_manager.cpp: `tick_pex`, the periodic exchange of peers.
use new_thinbt.Common.{
  ℕ, ◌+◌, Bool, true, false, not, ◌&&◌, List, [], ◌∷◌, ◌++◌, bit_or, ltb, if◌then◌else◌, ◌==◌,
}
use new_thinbt.Common.Bytes.{byte_swap}
use new_thinbt.Protocol.{PexPeer, build_pex}
use new_thinbt.PeerManager.Sessions.{
  ManagedSession, RecentPeer, PeerManager, is_connectable_peer_ip,
}

-- An entry that is not older than a minute, has an address that can be connected to, and a port.
-- `cutoff` is a minute before now: `recent.when > cutoff`.
unfoldable pub is_current : (List ℕ → ℕ) → ℕ → RecentPeer → Bool
unfolding is_connectable_peer_ip
is_current inet_addr now r =
    ltb now (r.when + 60000000000) && (is_connectable_peer_ip inet_addr r.ip && not (r.port == 0))

unfoldable pub delta_peer : (List ℕ → ℕ) → Bool → RecentPeer → PexPeer
delta_peer inet_addr left r = record {
  ip = inet_addr r.ip;
  port = byte_swap 2 r.port;
  flags = if left then bit_or r.flags 128 else r.flags;
  reserved = 0;
}

-- One of the two loops: over the peers that came, or over those that left, which are marked.
unfoldable pub delta_of : (List ℕ → ℕ) → ℕ → Bool → List RecentPeer → List PexPeer
unfolding is_current delta_peer
delta_of inet_addr now left [] = []
delta_of inet_addr now left (r ∷ recents) = elim (is_current inet_addr now r) [
  | true ↦ delta_peer inet_addr left r ∷ delta_of inet_addr now left recents
  | false ↦ delta_of inet_addr now left recents
]

unfoldable pub send_all : List ℕ → List ManagedSession → List ManagedSession
send_all msg [] = []
send_all msg (s ∷ sessions) = record s { outgoing = msg ∷ s.outgoing } ∷ send_all msg sessions

unfoldable pub send_delta : List PexPeer → List ManagedSession → List ManagedSession
unfolding send_all
send_delta [] sessions = sessions
send_delta (p ∷ delta) sessions = send_all (build_pex true (p ∷ delta)) sessions

unfoldable pub tick_pex : (List ℕ → ℕ) → PeerManager → ℕ → PeerManager
unfolding delta_of send_delta
tick_pex inet_addr m now = record m {
  sessions =
      send_delta
        (delta_of inet_addr now false m.recent_connects
          ++ delta_of inet_addr now true m.recent_disconnects)
        m.sessions;
  recent_connects = [];
  recent_disconnects = [];
}
