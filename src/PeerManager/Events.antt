-- ===== src/PeerManager/Events.antt =====
-- What happens to a manager of src/daemon/peer_manager.cpp, as one function of the event.
use new_thinbt.Common.{ℕ, Option, none, some, List, [], ◌∷◌}
use new_thinbt.Common.Text.{codes}
use new_thinbt.PeerManager.Sessions.{
  ManagedSession, PeerManager, connect_to, on_pex_peer, do_accept, on_pex_remove,
  on_peer_disconnected, update_session, get_session, on_handshake_done,
}
use new_thinbt.PeerManager.Choke.{Lottery, tick_choke}
use new_thinbt.PeerManager.Exchange.{tick_pex}

-- What happens to a manager: connections that are accepted, started, found in a peer exchange,
-- established and lost, and the ticks. A handshake tells the address, the port, the listening port
-- and the speed of the peer.
pub data ManagerEvent : Type 0 where
  accepted : List ℕ → ℕ → ℕ → ManagerEvent
  connect : List ℕ → ℕ → ℕ → ManagerEvent
  pex_peer : List ℕ → ℕ → ℕ → ManagerEvent
  pex_removed : List ℕ → ManagerEvent
  handshaken : ℕ → List ℕ → ℕ → ℕ → ℕ → ℕ → ManagerEvent
  disconnected : ℕ → ℕ → ManagerEvent
  choke_tick : ℕ → ManagerEvent
  pex_tick : ℕ → ManagerEvent

-- What the session knows of its peer after the handshake.
unfoldable pub learn : List ℕ → ℕ → ℕ → ℕ → ManagedSession → ManagedSession
learn ip port listen speed s = record s {
  remote_ip = ip;
  remote_port = port;
  remote_listen_port = listen;
  link_speed_reported = speed;
}

-- A session whose socket was closed, which PeerSession::disconnect does before it calls the manager:
-- the socket no longer answers an address.
unfoldable pub closed : ManagedSession → ManagedSession
closed s = record s { remote_ip = codes "unknown"; remote_port = 0 }

unfoldable pub with_session :
    Option ManagedSession → (ManagedSession → PeerManager) → PeerManager → PeerManager
with_session none f m = m
with_session (some s) f m = f s

module _ (inet_addr : List ℕ → ℕ) (lottery : Lottery) where
  unfoldable pub on_manager_event : PeerManager → ManagerEvent → PeerManager
  unfolding do_accept connect_to on_pex_peer on_pex_remove learn closed update_session
      on_handshake_done get_session with_session on_peer_disconnected tick_choke tick_pex
  on_manager_event m (accepted ip port now) = do_accept m ip port now
  on_manager_event m (connect ip port now) = connect_to inet_addr m ip port now
  on_manager_event m (pex_peer ip port now) = on_pex_peer inet_addr m ip port now
  on_manager_event m (pex_removed ip) = on_pex_remove m ip
  on_manager_event m (handshaken id ip port listen speed now) =
      let told : PeerManager = record m {
        sessions = update_session id (learn ip port listen speed) m.sessions;
      } in
      with_session (get_session id told.sessions) (λ s. on_handshake_done inet_addr told s now) m
  on_manager_event m (disconnected id now) =
      with_session (get_session id m.sessions)
        (λ s. on_peer_disconnected inet_addr m (closed s) now) m
  on_manager_event m (choke_tick now) = tick_choke lottery m now
  on_manager_event m (pex_tick now) = tick_pex inet_addr m now

  unfoldable pub run_manager : PeerManager → List ManagerEvent → PeerManager
  unfolding on_manager_event
  run_manager m [] = m
  run_manager m (e ∷ events) = run_manager (on_manager_event m e) events
