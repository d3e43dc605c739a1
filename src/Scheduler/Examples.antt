-- ===== src/Scheduler/Examples.antt =====
-- The theorems of the scheduler at a file of three chunks and two peers, and tests.
use new_thinbt.Common.{◌≡◌, ◌≤◌, ◌↔◌, refl, max, true, false, some, List, [], ◌∷◌, arith}
use new_thinbt.ChunkAssembler.{ChunkCompleteMsg}
use new_thinbt.Scheduler.State.{
  missing, downloading, complete, is_complete, is_done, PeerSlot, default_peer, Scheduler, normal,
  peer_at,
}
use new_thinbt.Scheduler.Choice.{any_wanted, select_best_peer}
use new_thinbt.Scheduler.Requests.{try_schedule_for_peer}
use new_thinbt.Scheduler.Completions.{process_completions}
use new_thinbt.Scheduler.Issues.{Issues}
use new_thinbt.Scheduler.Limits.{pending-try_schedule}
use new_thinbt.Scheduler.Counting.{open_chunks, IsCounted}
use new_thinbt.Scheduler.Phases.{AllOpen, process_completions-done}
use new_thinbt.Scheduler.Wants.{Wanted, any_wanted_iff, Serves, select_best_peer-Serves}

-- Two peers, of which the second has all the chunks and the first has the chunks 0 and 2.
abbrev peers : List PeerSlot
peers =
    record default_peer {
      slot_id = 4;
      am_choking = false;
      remote_bitfield = true ∷ false ∷ true ∷ [];
    }
    ∷ record default_peer {
      slot_id = 9;
      am_choking = false;
      remote_bitfield = true ∷ true ∷ true ∷ [];
    }
    ∷ []

-- Chunks of two, one and two sub-blocks, the second complete.
abbrev swarm : Scheduler
swarm = record {
  chunk_states = missing ∷ complete ∷ downloading ∷ [];
  chunk_sub_blocks = 2 ∷ 1 ∷ 2 ∷ [];
  availability = 2 ∷ 1 ∷ 2 ∷ [];
  active_chunks = 0 ∷ 2 ∷ [];
  chunk_sub_done = (false ∷ false ∷ []) ∷ (true ∷ []) ∷ (false ∷ false ∷ []) ∷ [];
  chunk_sub_req = (false ∷ false ∷ []) ∷ (true ∷ []) ∷ (true ∷ false ∷ []) ∷ [];
  chunk_sub_req_time = (0 ∷ 0 ∷ []) ∷ (7 ∷ []) ∷ (8 ∷ 0 ∷ []) ∷ [];
  chunk_sub_done_count = 0 ∷ 1 ∷ 0 ∷ [];
  chunk_sub_req_count = 0 ∷ 0 ∷ 1 ∷ [];
  peer_slots = peers;
  phase = normal;
  missing_count = 2;
  local_speed_mbps = 1000;
  has_cancel = true;
  has_broadcast_not_interested = true;
  has_not_interested_issuer = true;
  events = [];
}

swarm-IsCounted : IsCounted swarm
unfolding open_chunks is_complete
swarm-IsCounted = record { counted = refl; small = omega arith }

pending-try_schedule_example :
    (peer_at (try_schedule_for_peer swarm 0 50).0 0).pending_requests ≤ max 128 0
pending-try_schedule_example = pending-try_schedule swarm 0 50 (omega arith) (omega arith)

abbrev both : List ChunkCompleteMsg
both =
    record { chunk_idx = 2; winning_peer_slot = 4 }
    ∷ record { chunk_idx = 0; winning_peer_slot = 9 }
    ∷ []

both-AllOpen : AllOpen both swarm.chunk_states
unfolding is_complete
both-AllOpen = (omega arith, refl, (omega arith, refl, tt))

swarm_running : is_done swarm.phase ≡ false
unfolding is_done
swarm_running = refl

process_completions-done_example :
    (is_done (process_completions swarm both).phase ≡ true)
    ↔ (open_chunks (process_completions swarm both).chunk_states ≡ 0)
process_completions-done_example =
    process_completions-done swarm both swarm-IsCounted both-AllOpen swarm_running

any_wanted_iff_example :
    (any_wanted (true ∷ false ∷ []) swarm.chunk_states ≡ true)
    ↔ Wanted (true ∷ false ∷ []) swarm.chunk_states
any_wanted_iff_example = any_wanted_iff (true ∷ false ∷ []) swarm.chunk_states

best_of_swarm : select_best_peer swarm 0 ≡ some 4
unfolding select_best_peer
best_of_swarm = refl

select_best_peer-Serves_example : Serves 0 4 swarm.peer_slots
select_best_peer-Serves_example = select_best_peer-Serves swarm 0 4 best_of_swarm

-- The first peer is asked for the two sub-blocks of chunk 0; the other is then the better one for
-- chunk 2.
pending_swarm : (peer_at (try_schedule_for_peer swarm 0 50).0 0).pending_requests ≡ 2
unfolding try_schedule_for_peer
pending_swarm = refl
