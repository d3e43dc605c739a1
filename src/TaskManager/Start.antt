-- ===== src/TaskManager/Start.antt =====
-- src/daemon/task_manager.cpp: how `cmd_add` sets up the scheduler of a download.
use new_thinbt.Common.{
  ℕ, suc, zero, ◌<◌, ◌≡◌, refl, ap, Bool, true, false, List, length-replicate, get_or-replicate,
  replicate, ltb, u32_mod, arith,
}
use new_thinbt.Scheduler.State.{
  Scheduler, missing, is_complete, is_missing, init, set_chunk_sizes, randomize_piece_order,
  set_cancel_issuer, set_not_interested_issuer,
}
use new_thinbt.Scheduler.Completions.{mark_all_complete}
use new_thinbt.Scheduler.Counting.{IsCounted, open_chunks}
use new_thinbt.Scheduler.Resume.{IsIdle, mark_all_complete-IsCounted}
use new_thinbt.Scheduler.Reach.{Reach, Reach-IsCounted}

-- mark_seed_complete, and the chunks of a resumed download.
unfoldable pub mark_resumed : Bool → Scheduler → List Bool → Scheduler
unfolding mark_all_complete
mark_resumed false s bits = s
mark_resumed true s bits = mark_all_complete s bits

unfoldable pub prepare : (ℕ → List ℕ → List ℕ) → Scheduler → ℕ → ℕ → List ℕ → ℕ → Scheduler
unfolding init set_chunk_sizes randomize_piece_order
prepare shuffle s chunk_count local_speed sizes seed =
    randomize_piece_order shuffle (set_chunk_sizes (init s chunk_count local_speed true) sizes) seed

-- The calls of `cmd_add`, where `done` is initial_bytes_done.
unfoldable pub start_download :
    (ℕ → List ℕ → List ℕ) → Scheduler → ℕ → ℕ → List ℕ → ℕ → List Bool → ℕ → Scheduler
unfolding prepare mark_resumed set_cancel_issuer set_not_interested_issuer
start_download shuffle s chunk_count local_speed sizes seed bits done =
    set_not_interested_issuer
      (set_cancel_issuer
        (mark_resumed (ltb 0 done) (prepare shuffle s chunk_count local_speed sizes seed) bits)
        true)
      true

open_chunks-replicate : (n : ℕ) → open_chunks (replicate n missing) ≡ n
unfolding open_chunks is_complete
open_chunks-replicate zero = refl
open_chunks-replicate (suc n) = ap suc (open_chunks-replicate n)

module _ (shuffle : ℕ → List ℕ → List ℕ) (s : Scheduler) (n speed : ℕ) (sizes : List ℕ)
    (seed : ℕ) where
  prepare-IsCounted : n < u32_mod → IsCounted (prepare shuffle s n speed sizes seed)
  unfolding prepare init set_chunk_sizes randomize_piece_order
  prepare-IsCounted small = record {
    counted = omega (arith, open_chunks-replicate n);
    small = omega (arith, length-replicate n missing);
  }

  prepare-IsIdle : IsIdle (prepare shuffle s n speed sizes seed)
  unfolding prepare init set_chunk_sizes randomize_piece_order is_missing
  prepare-IsIdle i opened = ap is_missing (get_or-replicate n i missing)

  mark_resumed-IsCounted :
      (resumed : Bool) (bits : List Bool)
      → n < u32_mod
      → IsCounted (mark_resumed resumed (prepare shuffle s n speed sizes seed) bits)
  unfolding mark_resumed
  mark_resumed-IsCounted false bits small = prepare-IsCounted small
  mark_resumed-IsCounted true bits small =
      mark_all_complete-IsCounted (prepare shuffle s n speed sizes seed) bits
        (prepare-IsCounted small) prepare-IsIdle

  -- From the start of a download, whatever part of it is there already, and over every sequence of
  -- schedulings, completions and failed verifications of open chunks, timeouts, arrivals, departures
  -- and chokes, missing_count is the number of chunks that are not complete.
  pub start_download-IsCounted :
      (bits : List Bool) (done : ℕ) (t : Scheduler)
      → n < u32_mod
      → Reach (start_download shuffle s n speed sizes seed bits done) t
      → IsCounted t
  unfolding start_download set_cancel_issuer set_not_interested_issuer
  start_download-IsCounted bits done t small reached =
      let is = mark_resumed-IsCounted (ltb 0 done) bits small in
      Reach-IsCounted reached (record { counted = is.counted; small = is.small })
