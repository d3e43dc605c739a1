-- ===== src/PeerManager/Examples.antt =====
-- The theorems of the manager at a few sessions, and tests.
use new_thinbt.Common.{ℕ, ◌≡◌, ◌≤◌, refl, true, List, [], ◌∷◌, All, arith}
use new_thinbt.Common.Text.{codes}
use new_thinbt.Scheduler.State.{Scheduler, normal}
use new_thinbt.PeerManager.Sessions.{ManagedSession, PeerManager, new_session, connect_to}
use new_thinbt.PeerManager.Choke.{Lottery, begin_round, slot_count, slot_ids, choke_round}
use new_thinbt.PeerManager.Events.{
  ManagerEvent, accepted, connect, handshaken, disconnected, choke_tick, pex_tick, run_manager,
}
use new_thinbt.PeerManager.Ids.{peer_ids, Rising}
use new_thinbt.PeerManager.Slots.{IsManaged, run_manager-IsManaged}
use new_thinbt.PeerManager.Departures.{run_manager-departures}
use new_thinbt.PeerManager.Rounds.{unchoked, IsTold, choke_round-unchoked}

abbrev no_chunks : Scheduler
no_chunks = record {
  chunk_states = [];
  chunk_sub_blocks = [];
  availability = [];
  active_chunks = [];
  chunk_sub_done = [];
  chunk_sub_req = [];
  chunk_sub_req_time = [];
  chunk_sub_done_count = [];
  chunk_sub_req_count = [];
  peer_slots = [];
  phase = normal;
  missing_count = 0;
  local_speed_mbps = 1000;
  has_cancel = true;
  has_broadcast_not_interested = true;
  has_not_interested_issuer = true;
  events = [];
}

abbrev new_manager : PeerManager
new_manager = record {
  sessions = [];
  next_slot_id = 0;
  sched = no_chunks;
  recent_connects = [];
  recent_disconnects = [];
  local_peer_ips = codes "127.0.0.1" ∷ [];
  p2p_port = 6881;
  local_speed_mbps = 100;
  initial_bitfield = true ∷ [];
  connects = [];
}

abbrev some_address : List ℕ → ℕ
some_address ip = 16777343

abbrev first_in_order : Lottery
first_in_order = record { kbps = λ bytes elapsed. 0; sort = λ ss. ss; shuffle = λ ids. ids }

abbrev day : List ManagerEvent
day =
    accepted (codes "10.0.0.2") 50000 1
    ∷ connect (codes "10.0.0.3") 6881 2
    ∷ handshaken 0 (codes "10.0.0.2") 50000 6881 100 3
    ∷ choke_tick 4
    ∷ disconnected 0 5
    ∷ pex_tick 6
    ∷ []

new_manager-IsManaged : IsManaged new_manager
unfolding slot_ids peer_ids Rising
new_manager-IsManaged = record { few = omega arith; matched = refl; rising = omega arith }

run_manager-IsManaged_example : IsManaged (run_manager some_address first_in_order new_manager day)
run_manager-IsManaged_example =
    run_manager-IsManaged some_address first_in_order new_manager day (omega arith)
      new_manager-IsManaged

run_manager-departures_example :
    (run_manager some_address first_in_order new_manager day).recent_disconnects ≡ []
run_manager-departures_example =
    run_manager-departures some_address first_in_order new_manager day refl

-- The second session is left.
left_session : slot_ids (run_manager some_address first_in_order new_manager day).sessions ≡ 1 ∷ []
unfolding run_manager
left_session = refl

-- An address is connected to a second time while the first connection is not yet established.
connected_twice :
    (connect_to some_address
      (connect_to some_address new_manager (codes "10.0.0.3") 6881 1)
      (codes "10.0.0.3")
      6881
      2).connects
    ≡ (codes "10.0.0.3", 6881) ∷ (codes "10.0.0.3", 6881) ∷ []
unfolding connect_to
connected_twice = refl

abbrev two_sessions : List ManagedSession
two_sessions =
    record (new_session (codes "10.0.0.2") 50000 1) { is_peer_interested = true }
    ∷ record (new_session (codes "10.0.0.3") 50001 1) { slot_id = 1 }
    ∷ []

choke_round-unchoked_example :
    (unchoked (choke_round first_in_order 100 9 two_sessions)
      ≤ slot_count 100 (begin_round first_in_order 9 two_sessions))
    × (slot_count 100 (begin_round first_in_order 9 two_sessions) ≤ 20)
    × All IsTold (choke_round first_in_order 100 9 two_sessions)
choke_round-unchoked_example = choke_round-unchoked first_in_order 100 9 two_sessions
