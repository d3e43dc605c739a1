-- ===== src/Scheduler/Choice.antt =====
-- The tests and the choices of peers and chunks: `wants_peer`, `select_best_peer`,
-- `find_redundant_peers`.
use new_thinbt.Common.{
  ℕ, suc, ◌+◌, ◌-◌, ◌*◌, ◌/◌, ◌%◌, min, Bool, true, false, not, ◌&&◌, ◌||◌, Option, none, some,
  List, [], ◌∷◌, map, length, take, ltb, leb, if◌then◌else◌, ◌==◌, u32_mod,
}
use new_thinbt.Scheduler.State.{
  ChunkState, is_complete, PeerSlot, Scheduler, has_chunk, begins_of, find_peer, peer_at,
}

unfoldable pub count_true : List Bool → ℕ
count_true [] = 0
count_true (true ∷ bs) = suc (count_true bs)
count_true (false ∷ bs) = count_true bs

unfoldable pub peer_have_count : PeerSlot → ℕ
unfolding count_true
peer_have_count peer = count_true peer.remote_bitfield

unfoldable pub is_full_source : PeerSlot → ℕ → Bool
unfolding peer_have_count
is_full_source peer total_chunks =
    ltb 0 total_chunks
    && (leb total_chunks (length peer.remote_bitfield) && leb total_chunks (peer_have_count peer))

unfoldable pub has_partial_sources : List PeerSlot → ℕ → Bool
unfolding peer_have_count
has_partial_sources [] total_chunks = false
has_partial_sources (peer ∷ peers) total_chunks =
    (ltb 0 (peer_have_count peer) && ltb (peer_have_count peer) total_chunks)
    || has_partial_sources peers total_chunks

-- The loop of `wants_peer` over the peer's bits and the states of the chunks.
unfoldable pub any_wanted : List Bool → List ChunkState → Bool
unfolding is_complete
any_wanted [] states = false
any_wanted (b ∷ bits) [] = false
any_wanted (b ∷ bits) (state ∷ states) = (b && not (is_complete state)) || any_wanted bits states

unfoldable pub wants_peer : Scheduler → ℕ → Bool
unfolding any_wanted find_peer
wants_peer s id = elim (find_peer id s.peer_slots) [
  | none ↦ false
  | some p ↦ any_wanted (peer_at s p).remote_bitfield s.chunk_states
]

-- The four `continue`s at the head of the loops over the peers.
unfoldable pub can_serve : PeerSlot → ℕ → Bool
can_serve peer c = has_chunk peer c && (not peer.am_choking && ltb peer.consecutive_timeouts 3)

-- An `int` is the number of its two's complement plus 2 ^ 31, so that INT_MIN is 0 and the order is
-- that of the numbers. `int_cast_div_2000 n` is `static_cast<int>(n) / 2000`, modulo 2 ^ 32.
unfoldable pub int_cast_div_2000 : ℕ → ℕ
int_cast_div_2000 n =
    if ltb n 2147483648 then n / 2000 else (u32_mod - (u32_mod - n) / 2000) % u32_mod

unfoldable pub rarity_bonus : ℕ → ℕ → ℕ
rarity_bonus size have_count = if ltb have_count size then min 50 ((size - have_count) / 64) else 0

unfoldable pub peer_score : ℕ → PeerSlot → ℕ
unfolding peer_have_count int_cast_div_2000 rarity_bonus
peer_score local_speed peer =
    let fast = (if leb 1000 local_speed && leb 1000 peer.link_speed_mbps then 10 else 0) in
    (2147483648
      + fast
      + rarity_bonus (length peer.remote_bitfield) (peer_have_count peer)
      + (u32_mod - peer.pending_requests * 6 % u32_mod)
      + (u32_mod - int_cast_div_2000 peer.rtt_us))
    % u32_mod

-- best_slot, best_score and best_peer_have_count.
pub record Best : Type 0 where
  pub slot : ℕ
  pub score : ℕ
  pub have_count : ℕ

-- score > best_score || (score == best_score && have_count < best_peer_have_count)
unfoldable pub is_better : ℕ → ℕ → Best → Bool
is_better score have_count best =
    ltb best.score score || ((score == best.score) && ltb have_count best.have_count)

unfoldable pub best_peer : ℕ → ℕ → List PeerSlot → Best → Best
unfolding can_serve peer_score is_better peer_have_count
best_peer local_speed c [] best = best
best_peer local_speed c (peer ∷ peers) best =
    let score = peer_score local_speed peer in
    let have_count = peer_have_count peer in
    best_peer local_speed c peers (
      if can_serve peer c && is_better score have_count best
      then record { slot = peer.slot_id; score = score; have_count = have_count }
      else best)

abbrev pub no_best : Best
no_best = record { slot = 0; score = 0; have_count = 18446744073709551615 }

unfoldable pub select_best_peer : Scheduler → ℕ → Option ℕ
unfolding best_peer
select_best_peer s c =
    let best = best_peer s.local_speed_mbps c s.peer_slots no_best in
    if best.score == 0 then none else some best.slot

-- Insertion sort: it keeps the order of entries that compare equal.
module _ {ℓ} {A : Type ℓ} (less : A → A → Bool) where
  unfoldable pub insert_by : A → List A → List A
  insert_by x [] = x ∷ []
  insert_by x (y ∷ ys) = if less y x then y ∷ insert_by x ys else x ∷ y ∷ ys

  unfoldable pub stable_sort : List A → List A
  unfolding insert_by
  stable_sort [] = []
  stable_sort (x ∷ xs) = insert_by x (stable_sort xs)

-- The pending requests, cast to int, with the slot.
unfoldable pub candidates : ℕ → ℕ → List PeerSlot → List (ℕ × ℕ)
unfolding can_serve begins_of
candidates c exclude [] = []
candidates c exclude (peer ∷ peers) =
    let rest = candidates c exclude peers in
    if peer.slot_id == exclude
    then rest
    else if can_serve peer c
    then elim (begins_of c peer.active_sub_blocks) [
      | [] ↦ ((peer.pending_requests + 2147483648) % u32_mod, peer.slot_id) ∷ rest
      | _ ∷ _ ↦ rest
    ]
    else rest

-- The order of std::pair.
unfoldable pub pair_less : ℕ × ℕ → ℕ × ℕ → Bool
pair_less (a, b) (c, d) = ltb a c || ((a == c) && ltb b d)

unfoldable pub find_redundant_peers : ℕ → ℕ → ℕ → List PeerSlot → List ℕ
unfolding candidates stable_sort pair_less
find_redundant_peers c exclude count peers =
    take count (map (λ e. e.1) (stable_sort pair_less (candidates c exclude peers)))
