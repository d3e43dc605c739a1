-- ===== src/PeerSession/RequestExamples.antt =====
-- The theorems on requests and blocks at a session with one request under way, and tests.
use mathlib.Core.List.{Memᴰ}
use new_thinbt.Common.{
  ℕ, ◌≡◌, ◌<◌, refl, true, false, Option, none, some, List, [], ◌∷◌, ◌++◌, All, arith,
}
use new_thinbt.Common.Bytes.{put_be, le_bytes, get_be, byte_swap}
use new_thinbt.Protocol.{block_payload, build_piece}
use new_thinbt.PeerSession.Writer.{new_writer, send_message}
use new_thinbt.PeerSession.Timeouts.{
  Latency, PendingTime, Requests, elapsed_ms, age_ms, RequestEvent, sent, timer_fired, do_eval_tick,
  handle_piece_msg, run_requests,
}
use new_thinbt.PeerSession.Expiry.{IsExpired, IsFresh, IsOverdue, IsDue, do_eval_tick-overdue}
use new_thinbt.PeerSession.Pipeline.{IsCapped, run_requests-IsCapped}
use new_thinbt.PeerSession.Serving.{
  Block, read_job, Upload, BlockEvent, block_read, sendfile_done, is_cancelled, handle_request_msg,
  handle_cancel_msg, read_task, on_block_read, sendfile_header, run_blocks,
}
use new_thinbt.PeerSession.Blocks.{
  IsBlock, IsServing, requested, handle_request-send_piece, sendfile_header-build_piece,
}
use new_thinbt.PeerSession.Cancelled.{cancel-request_ignored}
use new_thinbt.PeerSession.Pieces.{piece_payload, task_of, handle_piece-piece_payload}

-- Estimates that are whole numbers of microseconds.
abbrev whole : Latency
whole = record {
  Estimate = ℕ;
  smooth = λ elapsed old. elapsed;
  is_low = λ estimate. true;
  to_us = λ estimate. estimate;
}

abbrev old_request : PendingTime
old_request = record { chunk_idx = 2; begin = 16384; sent_at = 0 }

abbrev waiting : Requests whole
waiting = record {
  slot_id = 4;
  connected = true;
  pending_times = old_request ∷ [];
  pending_requests = 1;
  consecutive_timeouts = 0;
  timeout_count_this_cycle = 0;
  pipeline_eval_cycles = 0;
  pipeline_cap = 128;
  avg_latency_us = 500;
  last_eval_time = 0;
  recv_bytes_since_last_choke = 0;
  scheduler = none;
  num_workers = some 4;
  outgoing = [];
  reports = [];
  tasks = [];
  timer = none;
}

waiting-IsDue : IsDue waiting 3000000000
unfolding elapsed_ms
waiting-IsDue = record { connected = refl; elapsed = omega arith }

old-IsOverdue : IsOverdue 3000000000 old_request
unfolding age_ms
old-IsOverdue = omega arith

do_eval_tick-overdue_example :
    IsExpired old_request (do_eval_tick waiting false 3000000000)
    × All (IsFresh 3000000000) (do_eval_tick waiting false 3000000000).pending_times
do_eval_tick-overdue_example =
    do_eval_tick-overdue waiting 3000000000 old_request waiting-IsDue (Memᴰ.head refl) old-IsOverdue

abbrev ticks : List RequestEvent
ticks = timer_fired false 3000000000 ∷ sent 1 0 3000000001 ∷ timer_fired false 3600000000 ∷ []

run_requests-IsCapped_example : IsCapped (run_requests waiting ticks)
run_requests-IsCapped_example =
    run_requests-IsCapped waiting ticks (record { low = omega arith; high = omega arith })

-- The timeout halves the capacity, and the quiet half second after it raises it to the most.
cap_after : (run_requests waiting ticks).pipeline_cap ≡ 96
unfolding run_requests
cap_after = refl

handle_piece-piece_payload_example :
    (worker : ℕ) × (worker < 4)
    × ((handle_piece_msg waiting (piece_payload 2 16384 (7 ∷ 8 ∷ [])) 9 9).tasks
        ≡ (worker, task_of 4 2 16384 (7 ∷ 8 ∷ [])) ∷ [])
handle_piece-piece_payload_example =
    handle_piece-piece_payload waiting 4 2 16384 (7 ∷ 8 ∷ []) 9 9 refl (omega arith) (omega arith)
      (omega arith)

abbrev uploading : Upload
uploading = record {
  choking_peer = false;
  cancelled_set = [];
  has_file = true;
  chunk_offsets = some (0 ∷ 100 ∷ []);
  use_sendfile = false;
  closed = false;
  writer = new_writer;
  jobs = [];
  sent_bytes_since_last_choke = 0;
}

abbrev two_bytes : ℕ → ℕ → Option (List ℕ)
two_bytes off len = some (7 ∷ 8 ∷ [])

small-IsBlock : IsBlock 1 0 2
small-IsBlock = record { chunk_lt = omega arith; begin_lt = omega arith; length_lt = omega arith }

uploading-IsServing : IsServing uploading
uploading-IsServing = record { unchoked = refl; filed = refl; reading = refl; live = refl }

wanted : is_cancelled 1 0 [] ≡ false
unfolding is_cancelled
wanted = refl

handle_request-send_piece_example :
    (u' : Upload) × (handle_request_msg uploading (block_payload 1 0 2) ≡ some u')
    × (u'.jobs ≡ read_job (requested (some (0 ∷ 100 ∷ [])) 1 0 2) ∷ [])
    × ((on_block_read u'
          (requested (some (0 ∷ 100 ∷ [])) 1 0 2)
          (read_task two_bytes (requested (some (0 ∷ 100 ∷ [])) 1 0 2))).writer
        ≡ send_message new_writer (build_piece 1 0 (7 ∷ 8 ∷ [])))
handle_request-send_piece_example =
    handle_request-send_piece uploading 1 0 2 two_bytes 7 (8 ∷ []) small-IsBlock uploading-IsServing
      wanted refl

abbrev a_block : Block
a_block = record { chunk_idx = 1; begin = 0; length = 2; offset = 100 }

sendfile_header-build_piece_example :
    sendfile_header a_block ++ (7 ∷ 8 ∷ []) ≡ build_piece 1 0 (7 ∷ 8 ∷ [])
sendfile_header-build_piece_example = sendfile_header-build_piece a_block (7 ∷ 8 ∷ []) refl

-- The session after the CANCEL of the block, and after a read and a sendfile that were under way.
abbrev cancelled : Upload
cancelled = record uploading { cancelled_set = (1, 0) ∷ [] }

abbrev late : List BlockEvent
late = block_read a_block [] ∷ sendfile_done 0 ∷ []

cancelled_one : handle_cancel_msg uploading (block_payload 1 0 2) ≡ some cancelled
unfolding handle_cancel_msg put_be le_bytes get_be byte_swap
cancelled_one = refl

late_ran : run_blocks cancelled late ≡ some cancelled
unfolding run_blocks
late_ran = refl

cancel-request_ignored_example : handle_request_msg cancelled (block_payload 1 0 2) ≡ some cancelled
cancel-request_ignored_example =
    cancel-request_ignored uploading cancelled cancelled 1 0 2 2 late small-IsBlock small-IsBlock
      cancelled_one late_ran
