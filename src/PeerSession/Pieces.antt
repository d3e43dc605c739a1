-- ===== src/PeerSession/Pieces.antt =====
-- A PIECE from the message to the queue of a worker.
use new_thinbt.Common.{
  ℕ, ◌+◌, ◌-◌, ◌<◌, ◌≡◌, refl, ap, ap₂, ◌∙◌, inl, inr, false, some, List, ◌∷◌, ◌++◌, length,
  length-append, ltb, Option-cases, arith, u32_mod,
}
use new_thinbt.Common.Bytes.{put_be, length-put_be}
use new_thinbt.PeerSession.Blocks.{drop_twice, chunk_first, begin_second}
use new_thinbt.PeerSession.Timeouts.{
  Latency, Requests, PieceTask, worker_of, find_pending, note_latency, take_piece, piece_task,
  piece_unless, handle_piece_msg,
}

-- The payload of a PIECE.
abbrev pub piece_payload : ℕ → ℕ → List ℕ → List ℕ
piece_payload c b block = put_be 4 c ++ (put_be 4 b ++ block)

abbrev pub task_of : ℕ → ℕ → ℕ → List ℕ → PieceTask
task_of slot c b block = record {
  chunk_idx = c;
  begin = b;
  length = length block;
  peer_slot = slot;
  data_bytes = block;
}

length-piece_payload :
    (c b : ℕ) (block : List ℕ) → length (piece_payload c b block) ≡ 8 + length block
length-piece_payload c b block = omega (
  arith,
  length-append (put_be 4 c) (put_be 4 b ++ block),
  length-append (put_be 4 b) block,
  length-put_be 4 c,
  length-put_be 4 b,
)

piece_task-payload :
    (slot c b : ℕ) (block : List ℕ)
    → c < u32_mod
    → b < u32_mod
    → piece_task slot (piece_payload c b block) ≡ task_of slot c b block
unfolding piece_task
piece_task-payload slot c b block c_lt b_lt = λ i. record {
  chunk_idx = chunk_first c b block c_lt i;
  begin = begin_second c b block b_lt i;
  length = size i;
  peer_slot = slot;
  data_bytes = drop_twice c b block i;
}
  where
    size : length (piece_payload c b block) - 8 ≡ length block
    size = omega (arith, length-piece_payload c b block)

worker_lt : (n : ℕ) (task : PieceTask) → 0 < n → worker_of n task < n
unfolding worker_of
worker_lt n task some_worker = omega arith

module _ {l : Latency} where
  note_latency-tasks :
      (r : Requests l) (c b now : ℕ)
      → ((note_latency r c b now).tasks ≡ r.tasks) × ((note_latency r c b now).slot_id ≡ r.slot_id)
  unfolding note_latency
  note_latency-tasks r c b now = elim (Option-cases (find_pending c b r.pending_times)) [
    | inl absent ↦ rw (note_latency, absent) (refl, refl)
    | inr (p, found) ↦ rw (note_latency, found) (refl, refl)
  ]

  -- A PIECE that carries a block of chunk `c` at offset `b` becomes one task, with this chunk, this
  -- offset and these bytes, in the queue of one of the workers.
  pub handle_piece-piece_payload :
      (r : Requests l) (n c b : ℕ) (block : List ℕ) (now now_ms : ℕ)
      → r.num_workers ≡ some n
      → 0 < n
      → c < u32_mod
      → b < u32_mod
      → (worker : ℕ) × (worker < n)
        × ((handle_piece_msg r (piece_payload c b block) now now_ms).tasks
            ≡ (worker, task_of r.slot_id c b block) ∷ r.tasks)
  unfolding handle_piece_msg piece_unless take_piece
  handle_piece-piece_payload r n c b block now now_ms workers some_worker c_lt b_lt =
      let long : ltb (length (piece_payload c b block)) 8 ≡ false =
        ground (arith, length-piece_payload c b block) in
      let task : PieceTask = task_of r.slot_id c b block in
      let kept = note_latency-tasks (record r { consecutive_timeouts = 0 }) c b now in
      (
        worker_of n task,
        worker_lt n task some_worker,
        ap₂ (λ k t. (piece_unless r.num_workers k r t now now_ms).tasks) long
              (piece_task-payload r.slot_id c b block c_lt b_lt)
            ∙ ap (λ w. (piece_unless w false r task now now_ms).tasks) workers
            ∙ ap (λ ts. (worker_of n task, task) ∷ ts) kept.0,
      )
