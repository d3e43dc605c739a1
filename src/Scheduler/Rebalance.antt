-- ===== src/Scheduler/Rebalance.antt =====
-- `rebalance_seed_requests_for_peer`: requests move from full sources to a peer that is not one.
use new_thinbt.Common.{
  ℕ, zero, suc, ◌/◌, Bool, true, false, not, ◌&&◌, ◌||◌, List, [], ◌∷◌, length, set, ltb, leb,
  if◌then◌else◌, ◌==◌, dec_sat,
}
use new_thinbt.Scheduler.State.{
  is_complete, Scheduler, cancel, has_chunk, begins_of, put_begins, erase_begin, erase_sub_block,
  peer_at, set_peer, state_at, cell, set_cell, sub_block_size, upto,
}
use new_thinbt.Scheduler.Choice.{is_full_source}
use new_thinbt.Scheduler.Requests.{issue_to}

-- The request of `begin` leaves `source`: cancel_request_, if it is set, and the counters.
unfoldable pub take_from : Scheduler → ℕ → ℕ → ℕ → Scheduler
unfolding erase_sub_block
take_from s source c begin =
    let peer = peer_at s source in
    record s {
      peer_slots = set s.peer_slots source (record peer {
        pending_requests = dec_sat peer.pending_requests;
        active_sub_blocks = erase_sub_block c begin peer.active_sub_blocks;
      });
      events =
          if s.has_cancel then cancel peer.slot_id c begin sub_block_size ∷ s.events else s.events;
    }

unfoldable pub mark_requested : Scheduler → ℕ → ℕ → ℕ → Scheduler
mark_requested s c sub_idx now = record s {
  chunk_sub_req = set_cell s.chunk_sub_req c sub_idx true;
  chunk_sub_req_time = set_cell s.chunk_sub_req_time c sub_idx now;
}

-- it->second.erase(begin), where an empty set stays in the map.
unfoldable pub forget_begin : Scheduler → ℕ → ℕ → ℕ → Scheduler
unfolding put_begins erase_begin begins_of
forget_begin s source c begin =
    let peer = peer_at s source in
    set_peer s source (record peer {
      active_sub_blocks =
          put_begins c (erase_begin begin (begins_of c peer.active_sub_blocks))
            peer.active_sub_blocks;
    })

-- The innermost loop, over the indices of the peers; the flag says that a request was moved.
unfoldable pub move_from_sources : List ℕ → Scheduler → ℕ → ℕ → ℕ → Scheduler × Bool
unfolding is_full_source begins_of take_from mark_requested issue_to forget_begin
move_from_sources [] s p c now = (s, false)
move_from_sources (source ∷ sources) s p c now =
    elim (((peer_at s source).slot_id == (peer_at s p).slot_id)
      || not (is_full_source (peer_at s source) (length s.chunk_states))) [
        | true ↦ move_from_sources sources s p c now
        | false ↦ elim (begins_of c (peer_at s source).active_sub_blocks) [
          | [] ↦ move_from_sources sources s p c now
          | begin ∷ _ ↦ elim (cell s.chunk_sub_done c (begin / sub_block_size) false) [
            | true ↦ move_from_sources sources (forget_begin s source c begin) p c now
            | false ↦ (
              issue_to (mark_requested (take_from s source c begin) c (begin / sub_block_size) now)
                  p c begin,
              true,
            )
          ]
        ]
      ]

-- The loop over the chunks, up to the first request that moves.
unfoldable pub move_for_chunks : List ℕ → Scheduler → ℕ → ℕ → ℕ → Scheduler × Bool
unfolding is_complete move_from_sources upto
move_for_chunks [] s p now limit = (s, false)
move_for_chunks (c ∷ chunks) s p now limit = elim (leb limit (peer_at s p).pending_requests) [
  | true ↦ (s, false)
  | false ↦
      elim (has_chunk (peer_at s p) c
        && (ltb c (length s.chunk_states) && not (is_complete (state_at s c)))) [
          | false ↦ move_for_chunks chunks s p now limit
          | true ↦
              let (s', moved) = move_from_sources (upto (length s.peer_slots) 0) s p c now in
              elim moved [ true ↦ (s', true) | false ↦ move_for_chunks chunks s' p now limit ]
        ]
]

-- The outer loop. Each round that goes on has counted a move, so the first argument, `max_moves`
-- less the moves made, bounds the rounds.
unfoldable pub rebalance_rounds : ℕ → Scheduler → ℕ → ℕ → ℕ → Scheduler
unfolding move_for_chunks
rebalance_rounds zero s p now limit = s
rebalance_rounds (suc n) s p now limit = elim (leb limit (peer_at s p).pending_requests) [
  | true ↦ s
  | false ↦
      let (s', moved) = move_for_chunks s.active_chunks s p now limit in
      elim moved [ true ↦ rebalance_rounds n s' p now limit | false ↦ s' ]
]

unfoldable pub rebalance_seed_requests_for_peer : Scheduler → ℕ → ℕ → ℕ → Scheduler
unfolding is_full_source rebalance_rounds
rebalance_seed_requests_for_peer s p now max_moves =
    elim (is_full_source (peer_at s p) (length s.chunk_states)) [
      | true ↦ s
      | false ↦ rebalance_rounds max_moves s p now (peer_at s p).pipeline_cap
    ]
