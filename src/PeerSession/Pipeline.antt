-- ===== src/PeerSession/Pipeline.antt =====
-- How many requests a session keeps under way: the capacity that `do_eval_tick` adapts.
use new_thinbt.Common.{
  ℕ, ◌+◌, ◌*◌, ◌/◌, ◌≤◌, min, max, ◌≡◌, refl, inl, inr, Bool, true, false, not, ◌&&◌, ◌||◌, Option,
  none, some, List, [], ◌∷◌, length, ltb, leb, ◌==◌, Bool-cases, Option-cases, arith,
}
use new_thinbt.Scheduler.State.{find_peer}
use new_thinbt.PeerSession.Timeouts.{
  Latency, PendingTime, Requests, request_timeout_ms, request_timeout_limit, pipeline_eval_ms,
  pipeline_min, pipeline_max, age_ms, expire, check_timeouts, next_cap, sync_slot, with_next_cap,
  evaluate, settle, elapsed_ms, checked, tick_unless, do_eval_tick, record_request_sent,
  find_pending, note_latency, take_piece, PieceTask, piece_task, piece_unless, handle_piece_msg,
  RequestEvent, sent, got, timer_fired, on_request_event, run_requests,
}

-- The capacity of a session: at most 128, with which it begins, and at least PIPELINE_MIN.
pub record IsCapped {l : Latency} (r : Requests l) : Type 0 where
  pub low : pipeline_min ≤ r.pipeline_cap
  pub high : r.pipeline_cap ≤ 128

module _ {l : Latency} where
  -- The bounds depend on the capacity alone.
  same-IsCapped : (r r' : Requests l) → r'.pipeline_cap ≡ r.pipeline_cap → IsCapped r → IsCapped r'
  same-IsCapped r r' same h = record {
    low = omega (arith, same, h.low);
    high = omega (arith, same, h.high);
  }

  check_timeouts-cap :
      (now : ℕ) (ps : List PendingTime) (r : Requests l)
      → (check_timeouts now ps r).pipeline_cap ≡ r.pipeline_cap
  unfolding check_timeouts expire
  check_timeouts-cap now [] r = refl
  check_timeouts-cap now (p ∷ ps) r = elim (Bool-cases (leb request_timeout_ms (age_ms now p))) [
    | inl late ↦ rw (check_timeouts, late) (check_timeouts-cap now ps (expire r p))
    | inr fresh ↦ rw (check_timeouts, fresh) (check_timeouts-cap now ps r)
  ]

  sync_slot-cap : (r : Requests l) → (sync_slot r).pipeline_cap ≡ r.pipeline_cap
  unfolding sync_slot
  sync_slot-cap r = elim (Option-cases r.scheduler) [
    | inl absent ↦ rw (sync_slot, absent) refl
    | inr (s, present) ↦ elim (Option-cases (find_peer r.slot_id s.peer_slots)) [
      | inl absent ↦ rw (sync_slot, present, absent) refl
      | inr (p, found) ↦ rw (sync_slot, present, found) refl
    ]
  ]

  -- An evaluation gives a capacity between PIPELINE_MIN and PIPELINE_MAX.
  evaluate-cap :
      (r : Requests l)
      → IsCapped r
      → (pipeline_min ≤ (evaluate r).pipeline_cap) × ((evaluate r).pipeline_cap ≤ pipeline_max)
  unfolding evaluate with_next_cap next_cap
  evaluate-cap r h =
      let same = sync_slot-cap (with_next_cap r) in
      elim (Bool-cases (r.timeout_count_this_cycle == 0 && l.is_low r.avg_latency_us)) [
        | inl up ↦
            let e : next_cap r ≡ min ((r.pipeline_cap * 3 + 1) / 2) pipeline_max =
              rw (next_cap, up) refl in
            (omega (arith, same, e, h.low), omega (arith, same, e))
        | inr down ↦
            let e : next_cap r ≡ max (r.pipeline_cap / 2) pipeline_min = rw (next_cap, down) refl in
            (omega (arith, same, e), omega (arith, same, e, h.high))
      ]

  settle-IsCapped : (r : Requests l) → IsCapped r → IsCapped (settle r)
  unfolding settle
  settle-IsCapped r h = elim (Bool-cases (leb request_timeout_limit r.consecutive_timeouts)) [
    | inl many ↦ rw (settle, many) (record { low = h.low; high = h.high })
    | inr few ↦
        let bounds = evaluate-cap r h in
        rw (settle, few) (record { low = bounds.0; high = omega (arith, bounds.1) })
  ]

  tick_unless-IsCapped :
      (dead early : Bool) (r : Requests l) (now : ℕ)
      → IsCapped r
      → IsCapped (tick_unless dead early r now)
  unfolding tick_unless checked
  tick_unless-IsCapped true early r now h = h
  tick_unless-IsCapped false true r now h = record { low = h.low; high = h.high }
  tick_unless-IsCapped false false r now h = settle-IsCapped (checked r now) (
      same-IsCapped r (checked r now)
        (check_timeouts-cap now r.pending_times (record r { last_eval_time = now })) h)

  note_latency-cap :
      (r : Requests l) (c b now : ℕ) → (note_latency r c b now).pipeline_cap ≡ r.pipeline_cap
  unfolding note_latency
  note_latency-cap r c b now = elim (Option-cases (find_pending c b r.pending_times)) [
    | inl absent ↦ rw (note_latency, absent) refl
    | inr (p, found) ↦ rw (note_latency, found) refl
  ]

  piece_unless-cap :
      (workers : Option ℕ) (short : Bool) (r : Requests l) (task : PieceTask) (now now_ms : ℕ)
      → (piece_unless workers short r task now now_ms).pipeline_cap ≡ r.pipeline_cap
  unfolding piece_unless take_piece
  piece_unless-cap none short r task now now_ms = refl
  piece_unless-cap (some n) true r task now now_ms = refl
  piece_unless-cap (some n) false r task now now_ms =
      note_latency-cap (record r { consecutive_timeouts = 0 }) task.chunk_idx task.begin now

  on_request_event-IsCapped :
      (r : Requests l) (e : RequestEvent) → IsCapped r → IsCapped (on_request_event r e)
  unfolding on_request_event record_request_sent do_eval_tick handle_piece_msg
  on_request_event-IsCapped r (sent c b now) h = record { low = h.low; high = h.high }
  on_request_event-IsCapped r (got body now now_ms) h =
      same-IsCapped r (handle_piece_msg r body now now_ms)
        (piece_unless-cap r.num_workers (ltb (length body) 8) r (piece_task r.slot_id body) now
          now_ms)
        h
  on_request_event-IsCapped r (timer_fired failed now) h =
      tick_unless-IsCapped (failed || not r.connected) (ltb (elapsed_ms r now) pipeline_eval_ms) r
        now h

  -- Over every sequence of requests, pieces and evaluations the capacity of a session that begins
  -- between 8 and 128 stays between 8 and 128.
  pub run_requests-IsCapped :
      (r : Requests l) (events : List RequestEvent) → IsCapped r → IsCapped (run_requests r events)
  unfolding run_requests
  run_requests-IsCapped r [] h = h
  run_requests-IsCapped r (e ∷ events) h =
      run_requests-IsCapped (on_request_event r e) events (on_request_event-IsCapped r e h)
