-- ===== src/Scheduler/Peers.antt =====
-- The events of the peers: bitfields, haves, arrivals, departures, chokes and pieces. `now` is what
-- monotonic_ms answers.
use new_thinbt.Common.{
  ℕ, ◌/◌, Bool, true, false, not, ◌&&◌, none, some, List, [], ◌∷◌, ◌++◌, length, get_or, set,
  replicate, ltb, leb, if◌then◌else◌, ◌==◌, inc32, dec32, dec_sat,
}
use new_thinbt.Scheduler.State.{
  missing, is_complete, is_done, PeerSlot, default_peer, Scheduler, not_interested, has_chunk,
  erase_sub_block, find_peer, peer_at, set_peer, record_event, state_at, cell, set_cell,
  sub_block_size,
}
use new_thinbt.Scheduler.Choice.{wants_peer}
use new_thinbt.Scheduler.Requests.{try_schedule_for_peer}
use new_thinbt.Scheduler.Rebalance.{rebalance_seed_requests_for_peer}

unfoldable pub check_peer_interest : Scheduler → ℕ → Scheduler
unfolding wants_peer
check_peer_interest s id =
    if s.has_not_interested_issuer && not (wants_peer s id)
    then record_event s (not_interested id)
    else s

-- The loops over a bitfield that count a peer's chunks in and out of `availability_`.
unfoldable pub count_in : List Bool → List ℕ → List ℕ
count_in [] counts = counts
count_in (b ∷ bits) [] = []
count_in (b ∷ bits) (n ∷ counts) = (if b then inc32 n else n) ∷ count_in bits counts

unfoldable pub count_out : List Bool → List ℕ → List ℕ
count_out [] counts = counts
count_out (b ∷ bits) [] = []
count_out (b ∷ bits) (n ∷ counts) = (if b then dec32 n else n) ∷ count_out bits counts

unfoldable pub on_bitfield : Scheduler → ℕ → List Bool → ℕ → Scheduler
unfolding find_peer count_in check_peer_interest rebalance_seed_requests_for_peer
on_bitfield s id bf now = elim (find_peer id s.peer_slots) [
  | none ↦ s
  | some p ↦
      let s' = record (set_peer s p (record (peer_at s p) { remote_bitfield = bf })) {
        availability = count_in bf s.availability;
      } in
      rebalance_seed_requests_for_peer (check_peer_interest s' id) p now 16
]

-- The bit of `on_have`, and the count of the chunk if the bit is new.
unfoldable pub note_have : Scheduler → ℕ → ℕ → Scheduler
note_have s p c =
    let peer = peer_at s p in
    if has_chunk peer c then s else record s {
      peer_slots =
          set s.peer_slots p (record peer { remote_bitfield = set peer.remote_bitfield c true });
      availability = set s.availability c (inc32 (get_or s.availability c 0));
    }

unfoldable pub on_have : Scheduler → ℕ → ℕ → ℕ → Scheduler
unfolding find_peer note_have check_peer_interest rebalance_seed_requests_for_peer
on_have s id c now = elim (find_peer id s.peer_slots) [
  | none ↦ s
  | some p ↦ elim (leb (length (peer_at s p).remote_bitfield) c) [
    | true ↦ s
    | false ↦ rebalance_seed_requests_for_peer (check_peer_interest (note_have s p c) id) p now 8
  ]
]

unfoldable pub on_peer_added : Scheduler → ℕ → ℕ → Scheduler
on_peer_added s id reported_speed = record s {
  peer_slots =
      s.peer_slots
      ++ (record default_peer {
        slot_id = id;
        link_speed_reported = reported_speed;
        link_speed_mbps = reported_speed;
        remote_bitfield = replicate (length s.availability) false;
      }
          ∷ []);
}

unfoldable pub on_peer_speed : Scheduler → ℕ → ℕ → Scheduler
unfolding find_peer
on_peer_speed s id reported_speed = elim (find_peer id s.peer_slots) [
  | none ↦ s
  | some p ↦ set_peer s p (record (peer_at s p) {
    link_speed_reported = reported_speed;
    link_speed_mbps = reported_speed;
  })
]

-- A sub-block that a departing peer was asked for, and those of a chunk.
unfoldable pub release_begin : ℕ → ℕ → Scheduler → Scheduler
release_begin c begin s =
    let sub_idx = begin / sub_block_size in
    if cell s.chunk_sub_req c sub_idx false
    then record s {
      chunk_sub_req = set_cell s.chunk_sub_req c sub_idx false;
      chunk_sub_req_time = set_cell s.chunk_sub_req_time c sub_idx 0;
      chunk_sub_req_count =
          set s.chunk_sub_req_count c (dec_sat (get_or s.chunk_sub_req_count c 0));
    }
    else s

unfoldable pub release_begins : ℕ → List ℕ → Scheduler → Scheduler
unfolding release_begin
release_begins c [] s = s
release_begins c (begin ∷ begins) s = release_begins c begins (release_begin c begin s)

unfoldable pub settle_released : ℕ → Scheduler → Scheduler
unfolding is_complete
settle_released c s =
    if ltb c (length s.chunk_states)
      && (not (is_complete (state_at s c))
          && (ltb c (length s.chunk_sub_req_count) && (get_or s.chunk_sub_req_count c 0 == 0)))
    then record s { chunk_states = set s.chunk_states c missing }
    else s

unfoldable pub release_chunks : List (ℕ × List ℕ) → Scheduler → Scheduler
unfolding release_begins settle_released
release_chunks [] s = s
release_chunks ((c, begins) ∷ chunks) s =
    release_chunks chunks (settle_released c (release_begins c begins s))

unfoldable pub without_slot : ℕ → List PeerSlot → List PeerSlot
without_slot id [] = []
without_slot id (peer ∷ peers) =
    let rest = without_slot id peers in if peer.slot_id == id then rest else peer ∷ rest

unfoldable pub on_peer_removed : Scheduler → ℕ → Scheduler
unfolding find_peer count_out release_chunks without_slot
on_peer_removed s id =
    let s' : Scheduler = elim (find_peer id s.peer_slots) [
      | none ↦ s
      | some p ↦
          release_chunks (peer_at s p).active_sub_blocks
            (record s { availability = count_out (peer_at s p).remote_bitfield s.availability })
    ] in
    record s' { peer_slots = without_slot id s'.peer_slots }

unfoldable pub on_choke_change : Scheduler → ℕ → Bool → Scheduler
unfolding find_peer
on_choke_change s id choking = elim (find_peer id s.peer_slots) [
  | none ↦ s
  | some p ↦ set_peer s p (record (peer_at s p) { am_choking = choking })
]

-- The sub-block of a piece that arrived counts as done, once.
unfoldable pub note_done : Scheduler → ℕ → ℕ → Scheduler
note_done s c sub_idx =
    if ltb c (length s.chunk_sub_done)
      && (ltb sub_idx (length (get_or s.chunk_sub_done c []))
          && not (cell s.chunk_sub_done c sub_idx false))
    then record s {
      chunk_sub_done = set_cell s.chunk_sub_done c sub_idx true;
      chunk_sub_done_count =
          set s.chunk_sub_done_count c (inc32 (get_or s.chunk_sub_done_count c 0));
    }
    else s

-- The peer's side of a piece that arrived.
unfoldable pub without_request : PeerSlot → ℕ → ℕ → PeerSlot
unfolding erase_sub_block
without_request peer c begin = record peer {
  pending_requests = dec_sat peer.pending_requests;
  active_sub_blocks = erase_sub_block c begin peer.active_sub_blocks;
}

unfoldable pub dec_peer_pending : Scheduler → ℕ → ℕ → ℕ → ℕ → Scheduler
unfolding find_peer note_done without_request is_done try_schedule_for_peer
dec_peer_pending s id c begin now = elim (find_peer id s.peer_slots) [
  | none ↦ s
  | some p ↦ elim ((peer_at s p).pending_requests == 0) [
    | true ↦ s
    | false ↦
        let s' =
          note_done (set_peer s p (without_request (peer_at s p) c begin)) c
            (begin / sub_block_size) in
        if is_done s'.phase then s' else (try_schedule_for_peer s' p now).0
  ]
]
