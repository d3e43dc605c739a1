-- ===== src/PeerSession/Serving.antt =====
-- src/daemon/peer_session.cpp: `handle_request_msg` and `handle_cancel_msg`, with the two ways a
-- block is sent; src/daemon/file_read_pool.cpp: what a task of the pool gives to its callback.
use new_thinbt.Common.{
  ℕ, ◌+◌, ◌*◌, ◌%◌, Bool, true, false, not, ◌&&◌, ◌||◌, Option, none, some, List, [], ◌∷◌, ◌++◌,
  length, drop, get_or, ltb, if◌then◌else◌, ◌==◌, u32_mod, u64_mod,
}
use new_thinbt.Common.Bytes.{get_be, put_be}
use new_thinbt.Protocol.{piece, id_byte, build_piece}
use new_thinbt.PeerSession.Writer.{Writer, send_message, do_write}

-- A block that is asked for, and its place in the file.
pub record Block : Type 0 where
  pub chunk_idx : ℕ
  pub begin : ℕ
  pub length : ℕ
  pub offset : ℕ

-- What is posted to SendfilePool and to FileReadPool.
pub data Job : Type 0 where
  sendfile_job : Block → Job
  read_job : Block → Job

-- `jobs` lists the jobs that were posted, the newest first. `closed` is closed_.
pub record Upload : Type 0 where
  pub choking_peer : Bool
  pub cancelled_set : List (ℕ × ℕ)
  pub has_file : Bool
  pub chunk_offsets : Option (List ℕ)
  pub use_sendfile : Bool
  pub closed : Bool
  pub writer : Writer
  pub jobs : List Job
  pub sent_bytes_since_last_choke : ℕ

unfoldable pub is_cancelled : ℕ → ℕ → List (ℕ × ℕ) → Bool
is_cancelled c b [] = false
is_cancelled c b ((c', b') ∷ blocks) = (c' == c && (b' == b)) || is_cancelled c b blocks

-- A std::set: a block that is there is not inserted again. Only membership is ever asked for.
unfoldable pub insert_cancelled : ℕ → ℕ → List (ℕ × ℕ) → List (ℕ × ℕ)
unfolding is_cancelled
insert_cancelled c b blocks = if is_cancelled c b blocks then blocks else (c, b) ∷ blocks

-- The start of a chunk in the file: from the table, or at 128 KiB for each chunk before it.
unfoldable pub base_off : Option (List ℕ) → ℕ → ℕ
base_off none c = c * 131072
base_off (some offsets) c = if ltb c (length offsets) then get_or offsets c 0 else c * 131072

unfoldable pub block_of : Option (List ℕ) → List ℕ → Block
unfolding base_off
block_of offsets body =
    let c = get_be 4 body in
    let b = get_be 4 (drop 4 body) in
    record {
      chunk_idx = c;
      begin = b;
      length = get_be 4 (drop 8 body);
      offset = (base_off offsets c + b) % u64_mod;
    }

-- With sendfile, no write under way (the first argument) and no message waiting the block goes to
-- SendfilePool, and the writer counts as writing until that is over.
unfoldable pub post_block : Bool → List (List ℕ) → Upload → Block → Upload
post_block true [] u block = record u {
  writer = record (u.writer) { is_writing = true };
  jobs = sendfile_job block ∷ u.jobs;
}
post_block true (_ ∷ _) u block = record u { jobs = read_job block ∷ u.jobs }
post_block false queue u block = record u { jobs = read_job block ∷ u.jobs }

-- A cancelled block is not sent, and none without a file.
unfoldable pub serve_block : Bool → Bool → Upload → Block → Upload
unfolding post_block
serve_block true has_file u block = u
serve_block false false u block = u
serve_block false true u block =
    post_block (u.use_sendfile && not u.writer.is_writing) u.writer.write_queue u block

-- A peer that is choked gets no answer. `none` is a read behind the end of the body.
unfoldable pub request_unless : Bool → Bool → Upload → Block → Option Upload
unfolding is_cancelled serve_block
request_unless true short u block = some u
request_unless false true u block = none
request_unless false false u block =
    some (serve_block (is_cancelled block.chunk_idx block.begin u.cancelled_set) u.has_file u block)

unfoldable pub handle_request_msg : Upload → List ℕ → Option Upload
unfolding block_of request_unless
handle_request_msg u body =
    request_unless u.choking_peer (ltb (length body) 12) u (block_of u.chunk_offsets body)

unfoldable pub note_cancel : Bool → Upload → List ℕ → Option Upload
unfolding insert_cancelled
note_cancel true u body = none
note_cancel false u body = some (record u {
  cancelled_set = insert_cancelled (get_be 4 body) (get_be 4 (drop 4 body)) u.cancelled_set;
})

unfoldable pub handle_cancel_msg : Upload → List ℕ → Option Upload
unfolding note_cancel
handle_cancel_msg u body = note_cancel (ltb (length body) 8) u body

-- `pread off len` is what thinbt_pread reads: the bytes, or `none` for an error. The callback gets
-- the bytes, cut to their number, and an empty buffer on an error or at the end of the file.
unfoldable pub read_task : (ℕ → ℕ → Option (List ℕ)) → Block → List ℕ
read_task pread block = elim (pread block.offset block.length) [ none ↦ [] | some bytes ↦ bytes ]

unfoldable pub send_piece : Upload → Block → List ℕ → Upload
unfolding send_message
send_piece u block bytes =
    let msg = build_piece block.chunk_idx block.begin bytes in
    record u {
      writer = send_message u.writer msg;
      sent_bytes_since_last_choke =
          (u.sent_bytes_since_last_choke + length msg % u32_mod) % u64_mod;
    }

-- The callback of a read, which a closed session ignores, and the handler that it posts.
unfoldable pub send_read : Bool → List ℕ → Upload → Block → Upload
unfolding send_piece
send_read true bytes u block = u
send_read false [] u block = u
send_read false (x ∷ xs) u block = send_piece u block (x ∷ xs)

unfoldable pub on_block_read : Upload → Block → List ℕ → Upload
unfolding send_read
on_block_read u block bytes = send_read u.closed bytes u block

-- The header that a sendfile job writes itself, before the bytes of the file.
unfoldable pub sendfile_header : Block → List ℕ
sendfile_header block =
    put_be 4 ((1 + 8 + block.length) % u32_mod)
    ++ (id_byte piece ∷ (put_be 4 block.chunk_idx ++ put_be 4 block.begin))

-- The handler that a sendfile job posts, with the number of bytes of the file that went out.
unfoldable pub write_next : List (List ℕ) → Writer → Writer
unfolding do_write
write_next [] w = w
write_next (buf ∷ queue) w = do_write w

unfoldable pub on_sendfile_done : Upload → ℕ → Upload
unfolding write_next
on_sendfile_done u sent_body = record u {
  sent_bytes_since_last_choke =
      if sent_body == 0
      then u.sent_bytes_since_last_choke
      else (u.sent_bytes_since_last_choke + (13 + sent_body) % u32_mod) % u64_mod;
  writer = write_next u.writer.write_queue (record (u.writer) { is_writing = false });
}

-- What happens to the blocks that a peer asks for.
pub data BlockEvent : Type 0 where
  got_request : List ℕ → BlockEvent
  got_cancel : List ℕ → BlockEvent
  block_read : Block → List ℕ → BlockEvent
  sendfile_done : ℕ → BlockEvent

unfoldable pub on_block_event : Upload → BlockEvent → Option Upload
unfolding handle_request_msg handle_cancel_msg on_block_read on_sendfile_done
on_block_event u (got_request body) = handle_request_msg u body
on_block_event u (got_cancel body) = handle_cancel_msg u body
on_block_event u (block_read block bytes) = some (on_block_read u block bytes)
on_block_event u (sendfile_done sent_body) = some (on_sendfile_done u sent_body)

-- The events in order, up to a read behind the end of a body.
unfoldable pub run_blocks : Upload → List BlockEvent → Option Upload
unfolding on_block_event
run_blocks u [] = some u
run_blocks u (e ∷ events) = elim (on_block_event u e) [
  | none ↦ none
  | some u' ↦ run_blocks u' events
]
