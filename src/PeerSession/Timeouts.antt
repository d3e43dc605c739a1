-- ===== src/PeerSession/Timeouts.antt =====
-- src/daemon/peer_session.cpp: the requests of a session that wait for an answer, `handle_piece_msg`,
-- `record_request_sent` and the periodic evaluation `do_eval_tick`; src/daemon/io_worker.cpp:
-- `dispatch`. A time is a number of nanoseconds of the steady clock. A `double` is of a type of its
-- own, with the operations that the code applies to one.
use new_thinbt.Common.{
  ℕ, ◌+◌, ◌-◌, ◌*◌, ◌/◌, ◌%◌, min, max, bit_xor, Bool, true, false, not, ◌&&◌, ◌||◌, Option, none,
  some, List, [], ◌∷◌, length, drop, ltb, leb, if◌then◌else◌, ◌==◌, inc32, dec_sat, u64_mod,
}
use new_thinbt.Common.Bytes.{get_be}
use new_thinbt.Protocol.{build_cancel}
use new_thinbt.Scheduler.State.{Scheduler, find_peer, peer_at, set_peer, sub_block_size}
use new_thinbt.Scheduler.Peers.{dec_peer_pending}

abbrev pub pipeline_eval_ms : ℕ
pipeline_eval_ms = 500

abbrev pub request_timeout_ms : ℕ
request_timeout_ms = 3000

abbrev pub request_timeout_limit : ℕ
request_timeout_limit = 3

abbrev pub pipeline_min : ℕ
pipeline_min = 8

abbrev pub pipeline_max : ℕ
pipeline_max = 100

-- The estimate of the latency: LATENCY_EMA_ALPHA * elapsed_us + (1 - LATENCY_EMA_ALPHA) * old, the
-- test against LATENCY_THRESHOLD_US, and static_cast<uint32_t>.
pub record Latency : Type 1 where
  pub Estimate : Type 0
  pub smooth : ℕ → Estimate → Estimate
  pub is_low : Estimate → Bool
  pub to_us : Estimate → ℕ

-- An entry of `pending_times_`.
pub record PendingTime : Type 0 where
  pub chunk_idx : ℕ
  pub begin : ℕ
  pub sent_at : ℕ

pub record PieceTask : Type 0 where
  pub chunk_idx : ℕ
  pub begin : ℕ
  pub length : ℕ
  pub peer_slot : ℕ
  pub data_bytes : List ℕ

-- The queue of the worker that a piece goes to.
unfoldable pub worker_of : ℕ → PieceTask → ℕ
worker_of num_workers task = bit_xor task.chunk_idx (task.begin / sub_block_size) % num_workers

-- `outgoing` lists the messages given to send_message, `reports` the calls of on_request_timeout_ and
-- `tasks` the pieces with the queue each goes to, all newest first. `timer` is the time in
-- milliseconds that eval_timer_ was set to last. `num_workers` is `none` without an I/O pool.
pub record Requests (l : Latency) : Type 0 where
  pub slot_id : ℕ
  pub connected : Bool
  pub pending_times : List PendingTime
  pub pending_requests : ℕ
  pub consecutive_timeouts : ℕ
  pub timeout_count_this_cycle : ℕ
  pub pipeline_eval_cycles : ℕ
  pub pipeline_cap : ℕ
  pub avg_latency_us : l.Estimate
  pub last_eval_time : ℕ
  pub recv_bytes_since_last_choke : ℕ
  pub scheduler : Option Scheduler
  pub num_workers : Option ℕ
  pub outgoing : List (List ℕ)
  pub reports : List (ℕ × ℕ)
  pub tasks : List (ℕ × PieceTask)
  pub timer : Option ℕ

unfoldable pub is_pending : ℕ → ℕ → PendingTime → Bool
is_pending c b p = p.chunk_idx == c && (p.begin == b)

-- A std::map in the order of its keys, pairs of a chunk and an offset.
unfoldable pub put_pending : PendingTime → List PendingTime → List PendingTime
unfolding is_pending
put_pending new [] = new ∷ []
put_pending new (p ∷ ps) =
    if is_pending new.chunk_idx new.begin p
    then new ∷ ps
    else if ltb new.chunk_idx p.chunk_idx || (new.chunk_idx == p.chunk_idx && ltb new.begin p.begin)
    then new ∷ p ∷ ps
    else p ∷ put_pending new ps

unfoldable pub find_pending : ℕ → ℕ → List PendingTime → Option PendingTime
unfolding is_pending
find_pending c b [] = none
find_pending c b (p ∷ ps) = if is_pending c b p then some p else find_pending c b ps

unfoldable pub erase_pending : ℕ → ℕ → List PendingTime → List PendingTime
unfolding is_pending
erase_pending c b [] = []
erase_pending c b (p ∷ ps) = if is_pending c b p then ps else p ∷ erase_pending c b ps

unfoldable pub age_ms : ℕ → PendingTime → ℕ
age_ms now p = (now - p.sent_at) / 1000000

unfoldable pub piece_task : ℕ → List ℕ → PieceTask
piece_task slot body = record {
  chunk_idx = get_be 4 body;
  begin = get_be 4 (drop 4 body);
  length = length body - 8;
  peer_slot = slot;
  data_bytes = drop 8 body;
}

-- What happens to the requests of a session.
pub data RequestEvent : Type 0 where
  sent : ℕ → ℕ → ℕ → RequestEvent
  got : List ℕ → ℕ → ℕ → RequestEvent
  timer_fired : Bool → ℕ → RequestEvent

module _ {l : Latency} where
  unfoldable pub record_request_sent : Requests l → ℕ → ℕ → ℕ → Requests l
  unfolding put_pending
  record_request_sent r c b now = record r {
    pending_times =
        put_pending (record { chunk_idx = c; begin = b; sent_at = now }) r.pending_times;
  }

  unfoldable pub start_eval_timer : Requests l → ℕ → Requests l
  start_eval_timer r now = record r { last_eval_time = now; timer = some pipeline_eval_ms }

  -- One overdue request: a CANCEL, a report, and the counters.
  unfoldable pub expire : Requests l → PendingTime → Requests l
  expire r p = record r {
    outgoing = build_cancel p.chunk_idx p.begin sub_block_size ∷ r.outgoing;
    reports = (p.chunk_idx, p.begin) ∷ r.reports;
    consecutive_timeouts = inc32 r.consecutive_timeouts;
    timeout_count_this_cycle = inc32 r.timeout_count_this_cycle;
  }

  -- The loop over the pending requests.
  unfoldable pub check_timeouts : ℕ → List PendingTime → Requests l → Requests l
  unfolding age_ms expire
  check_timeouts now [] r = record r { pending_times = [] }
  check_timeouts now (p ∷ ps) r = elim (leb request_timeout_ms (age_ms now p)) [
    | true ↦ check_timeouts now ps (expire r p)
    | false ↦
        let rest = check_timeouts now ps r in record rest { pending_times = p ∷ rest.pending_times }
  ]

  -- std::ceil(cap * 1.5), which a double holds exactly, and the halving.
  unfoldable pub next_cap : Requests l → ℕ
  next_cap r =
      if r.timeout_count_this_cycle == 0 && l.is_low r.avg_latency_us
      then min ((r.pipeline_cap * 3 + 1) / 2) pipeline_max
      else max (r.pipeline_cap / 2) pipeline_min

  unfoldable pub sync_slot : Requests l → Requests l
  unfolding find_peer
  sync_slot r = elim r.scheduler [
    | none ↦ r
    | some s ↦ elim (find_peer r.slot_id s.peer_slots) [
      | none ↦ r
      | some p ↦ record r {
        scheduler = some (
            set_peer s p (record (peer_at s p) {
              pipeline_cap = r.pipeline_cap;
              consecutive_timeouts = r.consecutive_timeouts;
              rtt_us = l.to_us r.avg_latency_us;
            }));
      }
    ]
  ]

  -- The new capacity, before it goes to the scheduler.
  unfoldable pub with_next_cap : Requests l → Requests l
  unfolding next_cap
  with_next_cap r = record r {
    pipeline_eval_cycles = inc32 r.pipeline_eval_cycles;
    pipeline_cap = next_cap r;
    timeout_count_this_cycle = 0;
  }

  unfoldable pub evaluate : Requests l → Requests l
  unfolding with_next_cap sync_slot
  evaluate r = record (sync_slot (with_next_cap r)) { timer = some pipeline_eval_ms }

  -- The rest of the evaluation after the loop: disconnect, or the pipeline.
  unfoldable pub settle : Requests l → Requests l
  unfolding evaluate
  settle r =
      if leb request_timeout_limit r.consecutive_timeouts
      then record r { connected = false }
      else evaluate r

  unfoldable pub elapsed_ms : Requests l → ℕ → ℕ
  elapsed_ms r now = (now - r.last_eval_time) / 1000000

  unfoldable pub checked : Requests l → ℕ → Requests l
  unfolding check_timeouts
  checked r now = check_timeouts now r.pending_times (record r { last_eval_time = now })

  -- The two early returns, of a dead session and of a timer that fired early.
  unfoldable pub tick_unless : Bool → Bool → Requests l → ℕ → Requests l
  unfolding settle elapsed_ms checked
  tick_unless true early r now = r
  tick_unless false true r now = record r { timer = some (pipeline_eval_ms - elapsed_ms r now) }
  tick_unless false false r now = settle (checked r now)

  -- `failed` is an error of the timer.
  unfoldable pub do_eval_tick : Requests l → Bool → ℕ → Requests l
  unfolding tick_unless elapsed_ms
  do_eval_tick r failed now =
      tick_unless (failed || not r.connected) (ltb (elapsed_ms r now) pipeline_eval_ms) r now

  -- The latency of a request that waits.
  unfoldable pub note_latency : Requests l → ℕ → ℕ → ℕ → Requests l
  unfolding find_pending erase_pending
  note_latency r c b now = elim (find_pending c b r.pending_times) [
    | none ↦ r
    | some p ↦ record r {
      avg_latency_us = l.smooth ((now - p.sent_at) / 1000) r.avg_latency_us;
      pending_times = erase_pending c b r.pending_times;
    }
  ]

  -- The piece goes to its queue, and the counts of the session and of the scheduler go down.
  -- `now_ms` is what monotonic_ms answers.
  unfoldable pub take_piece : Requests l → ℕ → PieceTask → ℕ → Requests l
  unfolding worker_of dec_peer_pending
  take_piece r n task now_ms = record r {
    recv_bytes_since_last_choke = (r.recv_bytes_since_last_choke + task.length) % u64_mod;
    tasks = (worker_of n task, task) ∷ r.tasks;
    pending_requests = dec_sat r.pending_requests;
    scheduler = elim r.scheduler [
      | none ↦ none
      | some s ↦ some (dec_peer_pending s r.slot_id task.chunk_idx task.begin now_ms)
    ];
  }

  -- Nothing without an I/O pool and for a body that is too short.
  unfoldable pub piece_unless : Option ℕ → Bool → Requests l → PieceTask → ℕ → ℕ → Requests l
  unfolding note_latency take_piece
  piece_unless none short r task now now_ms = r
  piece_unless (some n) true r task now now_ms = r
  piece_unless (some n) false r task now now_ms =
      take_piece
        (note_latency (record r { consecutive_timeouts = 0 }) task.chunk_idx task.begin now) n task
        now_ms

  unfoldable pub handle_piece_msg : Requests l → List ℕ → ℕ → ℕ → Requests l
  unfolding piece_task piece_unless
  handle_piece_msg r body now now_ms =
      piece_unless r.num_workers (ltb (length body) 8) r (piece_task r.slot_id body) now now_ms

  unfoldable pub on_request_event : Requests l → RequestEvent → Requests l
  unfolding record_request_sent handle_piece_msg do_eval_tick
  on_request_event r (sent c b now) = record_request_sent r c b now
  on_request_event r (got body now now_ms) = handle_piece_msg r body now now_ms
  on_request_event r (timer_fired failed now) = do_eval_tick r failed now

  unfoldable pub run_requests : Requests l → List RequestEvent → Requests l
  unfolding on_request_event
  run_requests r [] = r
  run_requests r (e ∷ events) = run_requests (on_request_event r e) events
