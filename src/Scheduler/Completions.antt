-- ===== src/Scheduler/Completions.antt =====
-- The chunks that are complete, that fail their check, and the requests that time out.
use new_thinbt.Common.{
  ℕ, ◌+◌, ◌-◌, ◌/◌, Bool, true, false, ◌&&◌, ◌||◌, none, some, List, [], ◌∷◌, ◌++◌, length, get_or,
  set, replicate, ltb, leb, if◌then◌else◌, ◌==◌, dec32, dec_sat,
}
use new_thinbt.ChunkAssembler.{ChunkCompleteMsg}
use new_thinbt.Scheduler.State.{
  missing, complete, is_complete, is_missing, SchedulerPhase, endgame, done, PeerSlot, Scheduler,
  Event, cancel, have, not_interested_all, begins_of, erase_chunk, state_at, cell, set_cell,
  sub_block_size, index_of, swap_remove,
}

-- ENDGAME_THRESHOLD
abbrev pub endgame_threshold : ℕ
endgame_threshold = 128

-- The cancels of one peer, the newest first, and the counter after as many decrements.
unfoldable pub cancel_begins : ℕ → ℕ → List ℕ → List Event → List Event
cancel_begins slot c [] events = events
cancel_begins slot c (begin ∷ begins) events =
    cancel_begins slot c begins (cancel slot c begin sub_block_size ∷ events)

unfoldable pub cancel_peers : ℕ → ℕ → List PeerSlot → List Event → List PeerSlot × List Event
unfolding begins_of cancel_begins erase_chunk
cancel_peers c exclude [] events = ([], events)
cancel_peers c exclude (peer ∷ peers) events =
    let begins = begins_of c peer.active_sub_blocks in
    elim ((peer.slot_id == exclude) || (length begins == 0)) [
      | true ↦
          let (peers', events') = cancel_peers c exclude peers events in (peer ∷ peers', events')
      | false ↦
          let (peers', events') =
            cancel_peers c exclude peers (cancel_begins peer.slot_id c begins events) in
          (
            record peer {
              pending_requests = peer.pending_requests - length begins;
              active_sub_blocks = erase_chunk c peer.active_sub_blocks;
            }
                ∷ peers',
            events',
          )
    ]

unfoldable pub send_cancel_for_chunk : Scheduler → ℕ → ℕ → Scheduler
unfolding cancel_peers
send_cancel_for_chunk s c exclude =
    if s.has_cancel
    then (let (peers, events) = cancel_peers c exclude s.peer_slots s.events in
        record s { peer_slots = peers; events = events })
    else s

-- The body of the loop of `process_completions`. A chunk that is out of range, where the source
-- would write outside the vector, changes no state here.
unfoldable pub complete_chunk : Scheduler → ChunkCompleteMsg → Scheduler
unfolding swap_remove send_cancel_for_chunk
complete_chunk s msg =
    let c = msg.chunk_idx in
    let s₁ = record s {
      chunk_states = set s.chunk_states c complete;
      missing_count = dec32 s.missing_count;
      active_chunks = swap_remove c s.active_chunks;
    } in
    let s₂ = send_cancel_for_chunk s₁ c msg.winning_peer_slot in
    record s₂ { chunk_sub_req_count = set s₂.chunk_sub_req_count c 0; events = have c ∷ s₂.events }

unfoldable pub complete_chunks : List ChunkCompleteMsg → Scheduler → Scheduler
unfolding complete_chunk
complete_chunks [] s = s
complete_chunks (msg ∷ msgs) s = complete_chunks msgs (complete_chunk s msg)

unfoldable pub settle_phase : SchedulerPhase → ℕ → SchedulerPhase
settle_phase phase missing_count =
    if missing_count == 0
    then done
    else if ltb missing_count endgame_threshold
    then endgame
    else phase

-- `completions` is empty after the call.
unfoldable pub process_completions : Scheduler → List ChunkCompleteMsg → Scheduler
unfolding complete_chunks settle_phase
process_completions s completions =
    let s' = complete_chunks completions s in
    record s' {
      phase = settle_phase s'.phase s'.missing_count;
      events =
          if (s'.missing_count == 0) && s'.has_broadcast_not_interested
          then not_interested_all ∷ s'.events
          else s'.events;
    }

-- fill of a row, and the entry of a chunk that is not listed.
abbrev fill {ℓ} : {A : Type ℓ} → List (List A) → ℕ → A → List (List A)
fill table c v = set table c (replicate (length (get_or table c [])) v)

unfoldable pub add_active : ℕ → List ℕ → List ℕ
unfolding index_of
add_active c chunks = elim (index_of c chunks) [ none ↦ chunks ++ (c ∷ []) | some _ ↦ chunks ]

unfoldable pub on_verify_failed : Scheduler → ℕ → Scheduler
unfolding add_active
on_verify_failed s c = record s {
  chunk_states = set s.chunk_states c missing;
  chunk_sub_req = fill s.chunk_sub_req c false;
  chunk_sub_req_time = fill s.chunk_sub_req_time c 0;
  chunk_sub_done = fill s.chunk_sub_done c false;
  chunk_sub_done_count = set s.chunk_sub_done_count c 0;
  chunk_sub_req_count = set s.chunk_sub_req_count c 0;
  active_chunks = add_active c s.active_chunks;
}

unfoldable pub on_subblock_timeout : Scheduler → ℕ → ℕ → Scheduler
unfolding is_complete
on_subblock_timeout s c begin =
    let sub_idx = begin / sub_block_size in
    let timed : Scheduler = record s {
      chunk_sub_req_time = set_cell s.chunk_sub_req_time c sub_idx 0;
    } in
    if leb (length s.chunk_states) c || is_complete (state_at s c)
    then s
    else if cell s.chunk_sub_req c sub_idx false
    then record timed {
      chunk_sub_req = set_cell s.chunk_sub_req c sub_idx false;
      chunk_sub_req_count =
          set s.chunk_sub_req_count c (dec_sat (get_or s.chunk_sub_req_count c 0));
    }
    else timed

-- One chunk of the bitfield of `mark_all_complete`.
unfoldable pub mark_complete : Scheduler → ℕ → Scheduler
unfolding is_complete is_missing swap_remove
mark_complete s i = if is_complete (state_at s i) then s else record s {
  missing_count = if is_missing (state_at s i) then dec32 s.missing_count else s.missing_count;
  chunk_states = set s.chunk_states i complete;
  active_chunks = swap_remove i s.active_chunks;
  chunk_sub_req_count = set s.chunk_sub_req_count i 0;
}

-- The loop, over the bits from index `i` on.
unfoldable pub mark_bits : List Bool → ℕ → Scheduler → Scheduler
unfolding mark_complete
mark_bits [] i s = s
mark_bits (b ∷ bits) i s =
    mark_bits bits (i + 1) (if b && ltb i (length s.chunk_states) then mark_complete s i else s)

unfoldable pub mark_all_complete : Scheduler → List Bool → Scheduler
unfolding mark_bits settle_phase
mark_all_complete s bitfield =
    let s' = mark_bits bitfield 0 s in record s' { phase = settle_phase s'.phase s'.missing_count }
