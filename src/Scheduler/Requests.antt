-- ===== src/Scheduler/Requests.antt =====
-- The requests to one peer: `try_schedule_chunk_on_peer` and `try_schedule_for_peer`.
use new_thinbt.Common.{
  ℕ, zero, suc, ◌+◌, ◌*◌, ◌%◌, min, Bool, true, false, not, ◌&&◌, ◌||◌, Option, none, some, List,
  [], ◌∷◌, length, get_or, set, ltb, leb, if◌then◌else◌, ◌==◌, u32_mod, inc32,
}
use new_thinbt.Scheduler.State.{
  downloading, is_complete, PeerSlot, Scheduler, request, has_chunk, begins_of, put_begins,
  insert_begin, peer_at, state_at, cell, set_cell, sub_block_size,
}
use new_thinbt.Scheduler.Choice.{
  is_full_source, has_partial_sources, select_best_peer, can_serve, stable_sort,
}

-- peer.active_sub_blocks[chunk_idx].insert(begin), with pending_requests++.
unfoldable pub with_request : PeerSlot → ℕ → ℕ → PeerSlot
unfolding put_begins begins_of insert_begin
with_request peer c begin = record peer {
  pending_requests = inc32 peer.pending_requests;
  active_sub_blocks =
      put_begins c (insert_begin begin (begins_of c peer.active_sub_blocks)) peer.active_sub_blocks;
}

-- issue_request_, and the peer's side of it.
unfoldable pub issue_to : Scheduler → ℕ → ℕ → ℕ → Scheduler
unfolding with_request
issue_to s p c begin = record s {
  peer_slots = set s.peer_slots p (with_request (peer_at s p) c begin);
  events = request (peer_at s p).slot_id c begin sub_block_size ∷ s.events;
}

-- One sub-block that is not requested yet.
unfoldable pub request_sub : Scheduler → ℕ → ℕ → ℕ → ℕ → Scheduler
unfolding issue_to
request_sub s p c sub_idx now =
    issue_to
      (record s {
        chunk_sub_req = set_cell s.chunk_sub_req c sub_idx true;
        chunk_sub_req_time = set_cell s.chunk_sub_req_time c sub_idx now;
        chunk_sub_req_count =
            set s.chunk_sub_req_count c (inc32 (get_or s.chunk_sub_req_count c 0));
      })
      p c (sub_idx * sub_block_size % u32_mod)

-- The loop over the sub-blocks: `n` rounds from `sub_idx` on.
unfoldable pub request_subs : ℕ → ℕ → Scheduler → ℕ → ℕ → ℕ → ℕ → Scheduler × Bool
unfolding request_sub
request_subs zero sub_idx s p c now limit = (s, false)
request_subs (suc n) sub_idx s p c now limit = elim (leb limit (peer_at s p).pending_requests) [
  | true ↦ (s, false)
  | false ↦ elim (cell s.chunk_sub_req c sub_idx false) [
    | true ↦ request_subs n (sub_idx + 1) s p c now limit
    | false ↦ ((request_subs n (sub_idx + 1) (request_sub s p c sub_idx now) p c now limit).0, true)
  ]
]

-- best_peer && *best_peer == peer.slot_id
unfoldable pub is_slot : Option ℕ → ℕ → Bool
is_slot none slot = false
is_slot (some best) slot = best == slot

-- The early returns of `try_schedule_chunk_on_peer`, `false` where one is taken.
unfoldable pub may_schedule : Scheduler → ℕ → ℕ → Bool
unfolding is_complete can_serve select_best_peer is_slot
may_schedule s p c =
    ltb c (length s.chunk_states)
    && (not (is_complete (state_at s c))
        && (can_serve (peer_at s p) c
            && (is_slot (select_best_peer s c) (peer_at s p).slot_id
                && ltb 0 (get_or s.chunk_sub_blocks c 0))))

unfoldable pub try_schedule_chunk_on_peer : Scheduler → ℕ → ℕ → ℕ → ℕ → Scheduler × Bool
unfolding may_schedule request_subs
try_schedule_chunk_on_peer s p c now limit = elim (may_schedule s p c) [
  | false ↦ (s, false)
  | true ↦
      request_subs (get_or s.chunk_sub_blocks c 0) 0
        (record s { chunk_states = set s.chunk_states c downloading }) p c now limit
]

unfoldable pub effective_cap : Scheduler → ℕ → ℕ
unfolding is_full_source has_partial_sources
effective_cap s p =
    if is_full_source (peer_at s p) (length s.chunk_states)
      && has_partial_sources s.peer_slots (length s.chunk_states)
    then min (peer_at s p).pipeline_cap 32
    else (peer_at s p).pipeline_cap

-- The chunks with a sub-block to request from the peer, each with its availability.
unfoldable pub pending_chunks : Scheduler → ℕ → List ℕ → List (ℕ × ℕ)
unfolding is_complete
pending_chunks s p [] = []
pending_chunks s p (c ∷ chunks) =
    let rest = pending_chunks s p chunks in
    if ltb c (length s.chunk_states)
      && (not (is_complete (state_at s c))
          && (has_chunk (peer_at s p) c
              && ltb (get_or s.chunk_sub_req_count c 0) (get_or s.chunk_sub_blocks c 0)))
    then (get_or s.availability c 0, c) ∷ rest
    else rest

unfoldable pub rarer : ℕ × ℕ → ℕ × ℕ → Bool
rarer a b = ltb a.0 b.0

unfoldable pub schedule_chunks : List (ℕ × ℕ) → Scheduler → ℕ → ℕ → ℕ → Scheduler × Bool
unfolding try_schedule_chunk_on_peer
schedule_chunks [] s p now limit = (s, false)
schedule_chunks ((avail, c) ∷ chunks) s p now limit =
    elim (leb limit (peer_at s p).pending_requests) [
      | true ↦ (s, false)
      | false ↦
          let (s', issued) = try_schedule_chunk_on_peer s p c now limit in
          let (s'', more) = schedule_chunks chunks s' p now limit in (s'', issued || more)
    ]

unfoldable pub try_schedule_for_peer : Scheduler → ℕ → ℕ → Scheduler × Bool
unfolding effective_cap pending_chunks stable_sort rarer schedule_chunks
try_schedule_for_peer s p now =
    let limit = effective_cap s p in
    elim (leb limit (peer_at s p).pending_requests) [
      | true ↦ (s, false)
      | false ↦
          schedule_chunks (stable_sort rarer (pending_chunks s p s.active_chunks)) s p now limit
    ]
