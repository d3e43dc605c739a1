-- ===== src/PeerManager/Slots.antt =====
-- The sessions of the manager and the peers of the scheduler, over every sequence of events.
use new_thinbt.Common.{
  ℕ, suc, ◌+◌, ◌≤◌, ◌<◌, ◌≡◌, refl, sym, ap, subst, ◌∙◌, inl, inr, true, false, not, ◌||◌, Option,
  none, some, List, [], ◌∷◌, ◌++◌, length, length-append, leb, inc32, u32_mod, Bool-cases, arith,
}
use new_thinbt.Scheduler.Peers.{on_peer_added}
use new_thinbt.Common.Text.{codes}
use new_thinbt.Protocol.{PexPeer, build_pex}
use new_thinbt.PeerManager.Sessions.{
  ManagedSession, PeerManager, max_peers, new_session, is_refused, connect_unless, connect_to,
  on_pex_peer, accept_unless, do_accept, on_pex_remove, on_peer_connected, on_peer_disconnected,
  greet, update_session, get_session, on_handshake_done, is_connectable_peer_ip, has_session_to,
}
use new_thinbt.PeerManager.Ids.{
  peer_ids, Rising, without, slot_ids-without_session, length-slot_ids, slot_ids-append,
  slot_ids-update, peer_ids-removed, peer_ids-speed, peer_ids-append, Rising-push, Rising-without,
  length-without,
}
use new_thinbt.PeerManager.Choke.{Lottery, slot_ids, tick_choke}
use new_thinbt.PeerManager.Events.{
  ManagerEvent, accepted, connect, pex_peer, pex_removed, handshaken, disconnected, choke_tick,
  pex_tick, learn, closed, closed, with_session, on_manager_event, run_manager,
}
use new_thinbt.PeerManager.Kept.{slot_ids-choke_round}
use new_thinbt.PeerManager.Exchange.{send_all, send_delta, delta_of, tick_pex}

-- There are at most 60 sessions; their slots are different and below the next one, and they are the
-- slots of the scheduler's peers, in the same order.
pub record IsManaged (m : PeerManager) : Type 0 where
  pub few : length (slot_ids m.sessions) ≤ max_peers
  pub matched : slot_ids m.sessions ≡ peer_ids m.sched.peer_slots
  pub rising : Rising 0 (slot_ids m.sessions) m.next_slot_id

send_all-ids :
    (msg : List ℕ) (sessions : List ManagedSession)
    → slot_ids (send_all msg sessions) ≡ slot_ids sessions
unfolding send_all slot_ids
send_all-ids msg [] = refl
send_all-ids msg (s ∷ sessions) = ap (λ t. s.slot_id ∷ t) (send_all-ids msg sessions)

send_delta-ids :
    (delta : List PexPeer) (sessions : List ManagedSession)
    → slot_ids (send_delta delta sessions) ≡ slot_ids sessions
unfolding send_delta
send_delta-ids [] sessions = refl
send_delta-ids (p ∷ delta) sessions = send_all-ids (build_pex true (p ∷ delta)) sessions

module _ (inet_addr : List ℕ → ℕ) where
  unrefused :
      (m : PeerManager) (ip : List ℕ) (port : ℕ)
      → is_refused inet_addr m ip port ≡ false
      → leb max_peers (length m.sessions) ≡ false
  unfolding is_refused
  unrefused m ip port free = elim (Bool-cases (leb max_peers (length m.sessions))) [
    | inl full ↦ let e : true ≡ false = rw (is_refused, full) at free in cc
    | inr few ↦ few
  ]

  -- Slots that stay.
  kept :
      (m m' : PeerManager)
      → slot_ids m'.sessions ≡ slot_ids m.sessions
      → peer_ids m'.sched.peer_slots ≡ peer_ids m.sched.peer_slots
      → m'.next_slot_id ≡ m.next_slot_id
      → IsManaged m
      → IsManaged m'
  kept m m' same peers next h = record {
    few = omega (arith, ap length same, h.few);
    matched = same ∙ h.matched ∙ sym peers;
    rising =
        subst (λ ids. Rising 0 ids m'.next_slot_id) (sym same)
          (subst (Rising 0 (slot_ids m.sessions)) (sym next) h.rising);
  }

  -- What an event does to the invariant and to the number of slots given out.
  abbrev Steps : PeerManager → PeerManager → Type 0
  Steps m m' = IsManaged m' × (m'.next_slot_id ≤ suc m.next_slot_id)

  connected-Steps :
      (m : PeerManager) (s : ManagedSession)
      → suc (length (slot_ids m.sessions)) ≤ max_peers
      → suc m.next_slot_id < u32_mod
      → IsManaged m
      → Steps m (on_peer_connected m s)
  unfolding on_peer_connected on_peer_added
  connected-Steps m s room small h =
      let next : inc32 m.next_slot_id ≡ suc m.next_slot_id = omega arith in
      let ids = slot_ids-append m.sessions (record s { slot_id = m.next_slot_id }) in
      (
        record {
          few =
              omega
                (arith, ap length ids, length-append (slot_ids m.sessions) (m.next_slot_id ∷ []));
          matched =
              ids
              ∙ ap (λ t. t ++ (m.next_slot_id ∷ [])) h.matched
              ∙ sym (peer_ids-append m.sched.peer_slots _);
          rising =
              subst (λ t. Rising 0 t (inc32 m.next_slot_id)) (sym ids)
                (subst (Rising 0 (slot_ids m.sessions ++ (m.next_slot_id ∷ []))) (sym next)
                  (Rising-push 0 (slot_ids m.sessions) m.next_slot_id h.rising));
        },
        omega (arith, next),
      )

  stays :
      (m m' : PeerManager)
      → slot_ids m'.sessions ≡ slot_ids m.sessions
      → peer_ids m'.sched.peer_slots ≡ peer_ids m.sched.peer_slots
      → m'.next_slot_id ≡ m.next_slot_id
      → IsManaged m
      → Steps m m'
  stays m m' same peers next h = (kept m m' same peers next h, omega (arith, next))

  room :
      (m : PeerManager)
      → leb max_peers (length m.sessions) ≡ false
      → suc (length (slot_ids m.sessions)) ≤ max_peers
  room m few = let size = length-slot_ids m.sessions in ground (arith, few, size)

  accept_unless-Steps :
      (m : PeerManager) (ip : List ℕ) (port now : ℕ)
      → suc m.next_slot_id < u32_mod
      → IsManaged m
      → Steps m (do_accept m ip port now)
  unfolding do_accept accept_unless
  accept_unless-Steps m ip port now small h =
      elim (Bool-cases (leb max_peers (length m.sessions))) [
        | inl full ↦ rw (do_accept, full) (stays m m refl refl refl h)
        | inr few ↦
            rw (do_accept, few) (connected-Steps m (new_session ip port now) (room m few) small h)
      ]

  connect_to-Steps :
      (m : PeerManager) (ip : List ℕ) (port now : ℕ)
      → suc m.next_slot_id < u32_mod
      → IsManaged m
      → Steps m (connect_to inet_addr m ip port now)
  unfolding connect_to connect_unless
  connect_to-Steps m ip port now small h = elim (Bool-cases (is_refused inet_addr m ip port)) [
    | inl refused ↦ rw (connect_to, refused) (stays m m refl refl refl h)
    | inr free ↦
        let few : leb max_peers (length m.sessions) ≡ false = unrefused m ip port free in
        let noted : PeerManager = record m { connects = (ip, port) ∷ m.connects } in
        rw (connect_to, free)
          (connected-Steps noted (new_session (codes "unknown") 0 now) (room m few) small
            (kept m noted refl refl refl h))
  ]

  on_pex_peer-Steps :
      (m : PeerManager) (ip : List ℕ) (port now : ℕ)
      → suc m.next_slot_id < u32_mod
      → IsManaged m
      → Steps m (on_pex_peer inet_addr m ip port now)
  unfolding on_pex_peer
  on_pex_peer-Steps m ip port now small h =
      elim (Bool-cases (
        leb max_peers (length m.sessions)
        || (not (is_connectable_peer_ip inet_addr ip) || has_session_to ip m.sessions))) [
          | inl refused ↦ rw (on_pex_peer, refused) (stays m m refl refl refl h)
          | inr free ↦ rw (on_pex_peer, free) (connect_to-Steps m ip port now small h)
        ]

  on_handshake_done-Steps :
      (m : PeerManager) (found : Option ManagedSession) (m0 : PeerManager) (now : ℕ)
      → slot_ids m.sessions ≡ slot_ids m0.sessions
      → m.sched.peer_slots ≡ m0.sched.peer_slots
      → m.next_slot_id ≡ m0.next_slot_id
      → IsManaged m0
      → Steps m0 (with_session found (λ s. on_handshake_done inet_addr m s now) m0)
  unfolding with_session on_handshake_done greet
  on_handshake_done-Steps m none m0 now ids peers next h = stays m0 m0 refl refl refl h
  on_handshake_done-Steps m (some s) m0 now ids peers next h =
      stays m0 (on_handshake_done inet_addr m s now)
        (slot_ids-update s.slot_id (greet inet_addr m) (λ t. refl) m.sessions ∙ ids)
        (peer_ids-speed m.sched s.slot_id s.link_speed_reported ∙ ap peer_ids peers) next h

  on_peer_disconnected-Steps :
      (m : PeerManager) (found : Option ManagedSession) (now : ℕ)
      → IsManaged m
      → Steps m (with_session found (λ s. on_peer_disconnected inet_addr m (closed s) now) m)
  unfolding with_session on_peer_disconnected closed
  on_peer_disconnected-Steps m none now h = stays m m refl refl refl h
  on_peer_disconnected-Steps m (some s) now h =
      let ids = slot_ids-without_session s.slot_id m.sessions in
      (
        record {
          few = omega (arith, ap length ids, length-without s.slot_id (slot_ids m.sessions), h.few);
          matched =
              ids ∙ ap (without s.slot_id) h.matched ∙ sym (peer_ids-removed m.sched s.slot_id);
          rising =
              subst (λ t. Rising 0 t m.next_slot_id) (sym ids)
                (Rising-without 0 s.slot_id (slot_ids m.sessions) m.next_slot_id h.rising);
        },
        omega arith,
      )

  module _ (lottery : Lottery) where
    on_manager_event-Steps :
        (m : PeerManager) (e : ManagerEvent)
        → suc m.next_slot_id < u32_mod
        → IsManaged m
        → Steps m (on_manager_event inet_addr lottery m e)
    unfolding on_manager_event on_pex_remove learn tick_choke tick_pex
    on_manager_event-Steps m (accepted ip port now) small h =
        accept_unless-Steps m ip port now small h
    on_manager_event-Steps m (connect ip port now) small h = connect_to-Steps m ip port now small h
    on_manager_event-Steps m (pex_peer ip port now) small h =
        on_pex_peer-Steps m ip port now small h
    on_manager_event-Steps m (pex_removed ip) small h =
        stays m (on_pex_remove m ip) refl refl refl h
    on_manager_event-Steps m (handshaken id ip port listen speed now) small h =
        let told : PeerManager = record m {
          sessions = update_session id (learn ip port listen speed) m.sessions;
        } in
        on_handshake_done-Steps told (get_session id told.sessions) m now
          (slot_ids-update id (learn ip port listen speed) (λ s. refl) m.sessions) refl refl h
    on_manager_event-Steps m (disconnected id now) small h =
        on_peer_disconnected-Steps m (get_session id m.sessions) now h
    on_manager_event-Steps m (choke_tick now) small h =
        stays m (tick_choke lottery m now)
          (slot_ids-choke_round lottery m.local_speed_mbps now m.sessions) refl refl h
    on_manager_event-Steps m (pex_tick now) small h =
        stays m (tick_pex inet_addr m now)
          (send_delta-ids
            (delta_of inet_addr now false m.recent_connects
              ++ delta_of inet_addr now true m.recent_disconnects)
            m.sessions)
          refl refl h

    -- Over every sequence of connections, handshakes, disconnects, peer exchanges and choke rounds,
    -- short enough for the 32-bit slots not to wrap, there are at most 60 sessions, their slots are
    -- different, and the scheduler has exactly one peer for each session, in the same order.
    pub run_manager-IsManaged :
        (m : PeerManager) (events : List ManagerEvent)
        → m.next_slot_id + length events < u32_mod
        → IsManaged m
        → IsManaged (run_manager inet_addr lottery m events)
    unfolding run_manager
    run_manager-IsManaged m [] small h = h
    run_manager-IsManaged m (e ∷ events) small h =
        let step = on_manager_event-Steps m e (omega arith) h in
        run_manager-IsManaged (on_manager_event inet_addr lottery m e) events
          (omega (arith, step.1)) step.0
