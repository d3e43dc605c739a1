-- ===== src/Scheduler/Endgame.antt =====
-- `tick` and `tick_endgame`.
use new_thinbt.Common.{
  ℕ, zero, suc, ◌+◌, ◌-◌, ◌*◌, ◌/◌, ◌%◌, max, Bool, true, false, not, ◌&&◌, ◌||◌, none, some, List,
  [], ◌∷◌, length, get_or, ltb, leb, if◌then◌else◌, ◌==◌, u32_mod, u64_mod,
}
use new_thinbt.Scheduler.State.{
  is_downloading, endgame, done, PeerSlot, Scheduler, begins_of, find_peer, peer_at, state_at, cell,
  sub_block_size, upto,
}
use new_thinbt.Scheduler.Choice.{find_redundant_peers}
use new_thinbt.Scheduler.Requests.{issue_to, try_schedule_for_peer}
use new_thinbt.Scheduler.Rebalance.{rebalance_seed_requests_for_peer}

-- MAX_ENDGAME_CHUNKS, MAX_REDUNDANT_PEERS and UINT32_MAX.
abbrev pub max_endgame_chunks : ℕ
max_endgame_chunks = 32

abbrev pub max_redundant_peers : ℕ
max_redundant_peers = 2

abbrev pub no_peer : ℕ
no_peer = 4294967295

unfoldable pub downloading_chunks : Scheduler → List ℕ → List ℕ
unfolding is_downloading
downloading_chunks s [] = []
downloading_chunks s (c ∷ chunks) =
    let rest = downloading_chunks s chunks in
    if ltb c (length s.chunk_states) && is_downloading (state_at s c) then c ∷ rest else rest

-- The key of the sort: the sub-blocks of a chunk that are not done.
unfoldable pub remaining : Scheduler → ℕ → ℕ
remaining s c = get_or s.chunk_sub_blocks c 0 - get_or s.chunk_sub_done_count c 0

-- The peer with the most requests of the chunk, and their number.
unfoldable pub primary_peer : ℕ → List PeerSlot → ℕ × ℕ → ℕ × ℕ
unfolding begins_of
primary_peer c [] best = best
primary_peer c (peer ∷ peers) (slot, max_active) =
    let active = length (begins_of c peer.active_sub_blocks) in
    primary_peer c peers
      (if ltb max_active active then (peer.slot_id, active) else (slot, max_active))

unfoldable pub hunger_threshold_ms : Scheduler → ℕ → ℕ
unfolding find_peer
hunger_threshold_ms s slot = if slot == no_peer then 50 else elim (find_peer slot s.peer_slots) [
  | none ↦ 50
  | some p ↦
      if ltb 0 (peer_at s p).rtt_us then max ((peer_at s p).rtt_us * 2 % u32_mod / 1000) 50 else 50
]

unfoldable pub is_hungry : Scheduler → ℕ → ℕ → ℕ → ℕ → Bool
is_hungry s c sub_idx now threshold =
    let req_time = cell s.chunk_sub_req_time c sub_idx 0 in
    not (cell s.chunk_sub_done c sub_idx false)
    && (cell s.chunk_sub_req c sub_idx false
        && (not (req_time == 0) && ltb threshold ((now + u64_mod - req_time) % u64_mod)))

unfoldable pub ask_redundant : List ℕ → ℕ → ℕ → Scheduler → Scheduler
unfolding find_peer issue_to
ask_redundant [] c sub_idx s = s
ask_redundant (slot ∷ slots) c sub_idx s = elim (find_peer slot s.peer_slots) [
  | none ↦ ask_redundant slots c sub_idx s
  | some p ↦ ask_redundant slots c sub_idx (issue_to s p c (sub_idx * sub_block_size % u32_mod))
]

-- The loop over the sub-blocks of a chunk: `n` rounds from `sub_idx` on, and any_hungry.
unfoldable pub feed_chunk : ℕ → ℕ → ℕ → ℕ → ℕ → ℕ → Scheduler → Scheduler × Bool
unfolding is_hungry find_redundant_peers ask_redundant
feed_chunk zero sub_idx c primary threshold now s = (s, false)
feed_chunk (suc n) sub_idx c primary threshold now s = elim (is_hungry s c sub_idx now threshold) [
  | false ↦ feed_chunk n (sub_idx + 1) c primary threshold now s
  | true ↦
      let slots = find_redundant_peers c primary max_redundant_peers s.peer_slots in
      (
        (feed_chunk n (sub_idx + 1) c primary threshold now (ask_redundant slots c sub_idx s)).0,
        true,
      )
]

-- The loop over the chunks that are downloading.
unfoldable pub feed_chunks : List ℕ → ℕ → ℕ → Scheduler → Scheduler
unfolding primary_peer hunger_threshold_ms feed_chunk
feed_chunks [] processed now s = s
feed_chunks (c ∷ chunks) processed now s =
    let total = get_or s.chunk_sub_blocks c 0 in
    elim (leb max_endgame_chunks processed) [
      | true ↦ s
      | false ↦ elim ((total == 0) || leb (length s.chunk_sub_req_time) c) [
        | true ↦ feed_chunks chunks processed now s
        | false ↦
            let primary = (primary_peer c s.peer_slots (no_peer, 0)).0 in
            let (s', hungry) = feed_chunk total 0 c primary (hunger_threshold_ms s primary) now s in
            feed_chunks chunks (if hungry then processed + 1 else processed) now s'
      ]
    ]

unfoldable pub each_peer : (Scheduler → ℕ → Scheduler) → List ℕ → Scheduler → Scheduler
each_peer f [] s = s
each_peer f (p ∷ ps) s = each_peer f ps (f s p)

-- `sort key` is std::sort by a key; the order of equal keys is not specified.
module _ (sort : (ℕ → ℕ) → List ℕ → List ℕ) where
  unfoldable pub tick_endgame : Scheduler → ℕ → Scheduler
  unfolding downloading_chunks remaining feed_chunks
  tick_endgame s now =
      feed_chunks (sort (remaining s) (downloading_chunks s s.active_chunks)) 0 now s

  unfoldable pub tick : Scheduler → ℕ → Scheduler
  unfolding each_peer rebalance_seed_requests_for_peer try_schedule_for_peer tick_endgame upto
  tick s now = elim s.phase [
    | done ↦ s
    | _ ↦
        let s₁ =
          each_peer (λ t p. rebalance_seed_requests_for_peer t p now 4)
            (upto (length s.peer_slots) 0) s in
        let s₂ =
          each_peer (λ t p. (try_schedule_for_peer t p now).0) (upto (length s₁.peer_slots) 0) s₁ in
        elim s₂.phase [ endgame ↦ tick_endgame s₂ now | _ ↦ s₂ ]
  ]
