-- ===== src/PeerManager/Departures.antt =====
-- What becomes of the peers that left: PeerSession::disconnect closes the socket before it tells the
-- manager, which then asks the socket for the address to remember.
use new_thinbt.Common.{
  ℕ, ◌≡◌, refl, ◌∙◌, inl, inr, Bool, true, false, not, ◌||◌, Option, none, some, List, [], ◌∷◌,
  length, leb, Bool-cases,
}
use new_thinbt.Common.Bytes.{bytes_eq}
use new_thinbt.PeerManager.Sessions.{
  ManagedSession, PeerManager, max_peers, is_connectable_peer_ip, has_session_to, is_refused,
  connect_unless, connect_to, on_pex_peer, accept_unless, do_accept, on_peer_connected,
  on_pex_remove, note_recent, on_peer_disconnected, get_session, update_session, on_handshake_done,
}
use new_thinbt.PeerManager.Choke.{Lottery, tick_choke}
use new_thinbt.PeerManager.Exchange.{tick_pex}
use new_thinbt.PeerManager.Events.{
  ManagerEvent, accepted, connect, pex_peer, pex_removed, handshaken, disconnected, choke_tick,
  pex_tick, learn, closed, with_session, on_manager_event, run_manager,
}

accept_unless-departures :
    (full : Bool) (m : PeerManager) (ip : List ℕ) (port now : ℕ)
    → (accept_unless full m ip port now).recent_disconnects ≡ m.recent_disconnects
unfolding accept_unless on_peer_connected
accept_unless-departures true m ip port now = refl
accept_unless-departures false m ip port now = refl

connect_unless-departures :
    (refused : Bool) (m : PeerManager) (ip : List ℕ) (port now : ℕ)
    → (connect_unless refused m ip port now).recent_disconnects ≡ m.recent_disconnects
unfolding connect_unless on_peer_connected
connect_unless-departures true m ip port now = refl
connect_unless-departures false m ip port now = refl

module _ (inet_addr : List ℕ → ℕ) where
  on_pex_peer-departures :
      (m : PeerManager) (ip : List ℕ) (port now : ℕ)
      → (on_pex_peer inet_addr m ip port now).recent_disconnects ≡ m.recent_disconnects
  unfolding on_pex_peer connect_to
  on_pex_peer-departures m ip port now =
      elim (Bool-cases (
        leb max_peers (length m.sessions)
        || (not (is_connectable_peer_ip inet_addr ip) || has_session_to ip m.sessions))) [
          | inl refused ↦ rw (on_pex_peer, refused) refl
          | inr free ↦
              rw (on_pex_peer, free)
                (connect_unless-departures (is_refused inet_addr m ip port) m ip port now)
        ]

  handshake-departures :
      (found : Option ManagedSession) (m m0 : PeerManager) (now : ℕ)
      → m.recent_disconnects ≡ m0.recent_disconnects
      → (with_session found (λ s. on_handshake_done inet_addr m s now) m0).recent_disconnects
        ≡ m0.recent_disconnects
  unfolding with_session on_handshake_done
  handshake-departures none m m0 now same = refl
  handshake-departures (some s) m m0 now same = same

  disconnect-departures :
      (found : Option ManagedSession) (m : PeerManager) (now : ℕ)
      → (with_session found
          (λ s. on_peer_disconnected inet_addr m (closed s) now)
          m).recent_disconnects
        ≡ m.recent_disconnects
  unfolding with_session on_peer_disconnected closed note_recent is_connectable_peer_ip bytes_eq
  disconnect-departures none m now = refl
  disconnect-departures (some s) m now = refl

  module _ (lottery : Lottery) where
    -- No peer that leaves is ever remembered: a manager that begins without departures has none after
    -- any sequence of connections, handshakes, disconnects, peer exchanges and choke rounds.
    pub run_manager-departures :
        (m : PeerManager) (events : List ManagerEvent)
        → m.recent_disconnects ≡ []
        → (run_manager inet_addr lottery m events).recent_disconnects ≡ []
    unfolding run_manager on_manager_event do_accept connect_to on_pex_remove tick_choke tick_pex
    run_manager-departures m [] h = h
    run_manager-departures m (accepted ip port now ∷ events) h =
        run_manager-departures (do_accept m ip port now) events
          (accept_unless-departures (leb max_peers (length m.sessions)) m ip port now ∙ h)
    run_manager-departures m (connect ip port now ∷ events) h =
        run_manager-departures (connect_to inet_addr m ip port now) events
          (connect_unless-departures (is_refused inet_addr m ip port) m ip port now ∙ h)
    run_manager-departures m (pex_peer ip port now ∷ events) h =
        run_manager-departures (on_pex_peer inet_addr m ip port now) events
          (on_pex_peer-departures m ip port now ∙ h)
    run_manager-departures m (pex_removed ip ∷ events) h =
        run_manager-departures (on_pex_remove m ip) events h
    run_manager-departures m (handshaken id ip port listen speed now ∷ events) h =
        let told : PeerManager = record m {
          sessions = update_session id (learn ip port listen speed) m.sessions;
        } in
        run_manager-departures
          (on_manager_event inet_addr lottery m (handshaken id ip port listen speed now)) events
          (handshake-departures (get_session id told.sessions) told m now refl ∙ h)
    run_manager-departures m (disconnected id now ∷ events) h =
        run_manager-departures (on_manager_event inet_addr lottery m (disconnected id now)) events
          (disconnect-departures (get_session id m.sessions) m now ∙ h)
    run_manager-departures m (choke_tick now ∷ events) h =
        run_manager-departures (tick_choke lottery m now) events h
    run_manager-departures m (pex_tick now ∷ events) h =
        run_manager-departures (tick_pex inet_addr m now) events refl
