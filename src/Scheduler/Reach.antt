-- ===== src/Scheduler/Reach.antt =====
-- The number of missing chunks over every sequence of calls of the scheduler.
use new_thinbt.Common.{
  ℕ, ◌<◌, ◌≡◌, refl, inl, inr, Bool, false, not, ◌&&◌, List, [], ◌∷◌, length, get_or, ltb, ◌==◌,
  Bool-cases, Option-cases, arith,
}
use new_thinbt.ChunkAssembler.{ChunkCompleteMsg}
use new_thinbt.Scheduler.State.{Scheduler, missing, is_complete, find_peer, peer_at, state_at}
use new_thinbt.Scheduler.Requests.{try_schedule_for_peer}
use new_thinbt.Scheduler.Peers.{
  on_peer_added, on_peer_removed, on_choke_change, release_begin, release_begins, settle_released,
  release_chunks, count_out,
}
use new_thinbt.Scheduler.Completions.{
  process_completions, on_verify_failed, on_subblock_timeout, mark_all_complete,
}
use new_thinbt.Scheduler.Counting.{IsCounted, set-IsCounted, same-IsCounted, try_schedule-IsCounted}
use new_thinbt.Scheduler.Phases.{AllOpen, process_completions-IsCounted, on_verify_failed-IsCounted}
use new_thinbt.Scheduler.Resume.{IsIdle, mark_all_complete-IsCounted}

-- The states that calls lead to. A completion and a failed verification are of chunks that are not
-- complete, and chunks are marked while none is under way.
pub data Reach : Scheduler → Scheduler → Type 0 where
  stay : {s : Scheduler} → Reach s s
  schedules :
      {s t : Scheduler} (p now : ℕ)
      → p < length s.peer_slots
      → Reach (try_schedule_for_peer s p now).0 t
      → Reach s t
  completes :
      {s t : Scheduler} (msgs : List ChunkCompleteMsg)
      → AllOpen msgs s.chunk_states
      → Reach (process_completions s msgs) t
      → Reach s t
  fails :
      {s t : Scheduler} (c : ℕ)
      → c < length s.chunk_states
      → is_complete (state_at s c) ≡ false
      → Reach (on_verify_failed s c) t
      → Reach s t
  resumes :
      {s t : Scheduler} (bits : List Bool)
      → IsIdle s
      → Reach (mark_all_complete s bits) t
      → Reach s t
  times_out : {s t : Scheduler} (c begin : ℕ) → Reach (on_subblock_timeout s c begin) t → Reach s t
  joins : {s t : Scheduler} (id speed : ℕ) → Reach (on_peer_added s id speed) t → Reach s t
  leaves : {s t : Scheduler} (id : ℕ) → Reach (on_peer_removed s id) t → Reach s t
  chokes :
      {s t : Scheduler} (id : ℕ) (choking : Bool)
      → Reach (on_choke_change s id choking) t
      → Reach s t

on_subblock_timeout-IsCounted :
    (s : Scheduler) (c begin : ℕ) → IsCounted s → IsCounted (on_subblock_timeout s c begin)
unfolding on_subblock_timeout
on_subblock_timeout-IsCounted s c begin is =
    same-IsCounted s (on_subblock_timeout s c begin) is (ground arith) (ground arith)

on_choke_change-IsCounted :
    (s : Scheduler) (id : ℕ) (choking : Bool)
    → IsCounted s
    → IsCounted (on_choke_change s id choking)
unfolding on_choke_change
on_choke_change-IsCounted s id choking is = elim (Option-cases (find_peer id s.peer_slots)) [
  | inl absent ↦ rw (on_choke_change, absent) is
  | inr (p, found) ↦ rw (on_choke_change, found) (record { counted = is.counted; small = is.small })
]

release_begins-IsCounted :
    (c : ℕ) (begins : List ℕ) (s : Scheduler) → IsCounted s → IsCounted (release_begins c begins s)
unfolding release_begins release_begin
release_begins-IsCounted c [] s is = is
release_begins-IsCounted c (b ∷ begins) s is =
    release_begins-IsCounted c begins (release_begin c b s)
      (same-IsCounted s (release_begin c b s) is (ground arith) (ground arith))

settle_released-IsCounted : (c : ℕ) (s : Scheduler) → IsCounted s → IsCounted (settle_released c s)
unfolding settle_released is_complete
settle_released-IsCounted c s is =
    let idle : Bool =
      ltb c (length s.chunk_states)
      && (not (is_complete (state_at s c))
          && (ltb c (length s.chunk_sub_req_count) && (get_or s.chunk_sub_req_count c 0 == 0))) in
    elim (Bool-cases idle) [
      | inr busy ↦ rw (settle_released, busy) is
      | inl settled ↦
          let inside : c < length s.chunk_states = ground (arith, settled) in
          let opened : is_complete (state_at s c) ≡ false = ground (arith, settled) in
          rw (settle_released, settled)
            (set-IsCounted s _ c missing is inside opened refl refl refl)
    ]

release_chunks-IsCounted :
    (chunks : List (ℕ × List ℕ)) (s : Scheduler) → IsCounted s → IsCounted (release_chunks chunks s)
unfolding release_chunks
release_chunks-IsCounted [] s is = is
release_chunks-IsCounted ((c, begins) ∷ chunks) s is =
    release_chunks-IsCounted chunks (settle_released c (release_begins c begins s)) (
      settle_released-IsCounted c (release_begins c begins s)
        (release_begins-IsCounted c begins s is))

on_peer_removed-IsCounted :
    (s : Scheduler) (id : ℕ) → IsCounted s → IsCounted (on_peer_removed s id)
unfolding on_peer_removed
on_peer_removed-IsCounted s id is = elim (Option-cases (find_peer id s.peer_slots)) [
  | inl absent ↦ rw (on_peer_removed, absent) (record { counted = is.counted; small = is.small })
  | inr (p, found) ↦
      let counted : Scheduler = record s {
        availability = count_out (peer_at s p).remote_bitfield s.availability;
      } in
      let after =
        release_chunks-IsCounted (peer_at s p).active_sub_blocks counted
          (record { counted = is.counted; small = is.small }) in
      rw (on_peer_removed, found) (record { counted = after.counted; small = after.small })
]

-- Over every sequence of schedulings, completions of open chunks, failed verifications of open
-- chunks, resumptions while no chunk is under way, timeouts, arrivals, departures and chokes,
-- missing_count stays the number of chunks that are not complete.
pub Reach-IsCounted : {s t : Scheduler} → Reach s t → IsCounted s → IsCounted t
unfolding on_peer_added
Reach-IsCounted stay is = is
Reach-IsCounted {s = s} (schedules p now lt more) is =
    Reach-IsCounted more (try_schedule-IsCounted s p now lt is)
Reach-IsCounted {s = s} (completes msgs all more) is =
    Reach-IsCounted more (process_completions-IsCounted s msgs is all)
Reach-IsCounted {s = s} (fails c inside opened more) is =
    Reach-IsCounted more (on_verify_failed-IsCounted s c is inside opened)
Reach-IsCounted {s = s} (resumes bits idle more) is =
    Reach-IsCounted more (mark_all_complete-IsCounted s bits is idle)
Reach-IsCounted {s = s} (times_out c begin more) is =
    Reach-IsCounted more (on_subblock_timeout-IsCounted s c begin is)
Reach-IsCounted {s = s} (joins id speed more) is =
    Reach-IsCounted more (same-IsCounted s (on_peer_added s id speed) is refl refl)
Reach-IsCounted {s = s} (leaves id more) is =
    Reach-IsCounted more (on_peer_removed-IsCounted s id is)
Reach-IsCounted {s = s} (chokes id choking more) is =
    Reach-IsCounted more (on_choke_change-IsCounted s id choking is)
