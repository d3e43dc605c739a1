-- ===== src/PeerSession/Expiry.antt =====
-- What an evaluation of the requests of a session does about those that are overdue.
use mathlib.Core.List.{Memᴰ}
use new_thinbt.Common.{
  ℕ, ◌≤◌, ◌<◌, ◌≡◌, refl, sym, ap, ap₂, subst, inl, inr, true, false, not, List, [], ◌∷◌, All, ltb,
  leb, Bool-cases, Option-cases, arith,
}
use new_thinbt.Protocol.{build_cancel}
use new_thinbt.Scheduler.State.{find_peer, sub_block_size}
use new_thinbt.PeerSession.Timeouts.{
  Latency, PendingTime, Requests, request_timeout_ms, request_timeout_limit, pipeline_eval_ms,
  age_ms, expire, check_timeouts, sync_slot, with_next_cap, evaluate, settle, elapsed_ms, checked,
  tick_unless, do_eval_tick,
}

-- The request was reported to the owner, and a CANCEL for it was given to send_message.
pub record IsExpired {l : Latency} (p : PendingTime) (r : Requests l) : Type 0 where
  pub reported : Memᴰ (p.chunk_idx, p.begin) r.reports
  pub cancelled : Memᴰ (build_cancel p.chunk_idx p.begin sub_block_size) r.outgoing

abbrev pub IsOverdue : ℕ → PendingTime → Type 0
IsOverdue now p = request_timeout_ms ≤ age_ms now p

abbrev pub IsFresh : ℕ → PendingTime → Type 0
IsFresh now p = age_ms now p < request_timeout_ms

module _ {l : Latency} where
  expire-IsExpired : (p : PendingTime) (r : Requests l) → IsExpired p (expire r p)
  unfolding expire
  expire-IsExpired p r = record { reported = Memᴰ.head refl; cancelled = Memᴰ.head refl }

  expire-keeps : (p q : PendingTime) (r : Requests l) → IsExpired p r → IsExpired p (expire r q)
  unfolding expire
  expire-keeps p q r done = record {
    reported = Memᴰ.tail done.reported;
    cancelled = Memᴰ.tail done.cancelled;
  }

  check_timeouts-keeps :
      (now : ℕ) (p : PendingTime) (ps : List PendingTime) (r : Requests l)
      → IsExpired p r
      → IsExpired p (check_timeouts now ps r)
  unfolding check_timeouts
  check_timeouts-keeps now p [] r done = record {
    reported = done.reported;
    cancelled = done.cancelled;
  }
  check_timeouts-keeps now p (q ∷ ps) r done =
      elim (Bool-cases (leb request_timeout_ms (age_ms now q))) [
        | inl late ↦
            rw (check_timeouts, late)
              (check_timeouts-keeps now p ps (expire r q) (expire-keeps p q r done))
        | inr fresh ↦
            let ih = check_timeouts-keeps now p ps r done in
            rw (check_timeouts, fresh) (record { reported = ih.reported; cancelled = ih.cancelled })
      ]

  check_timeouts-overdue :
      (now : ℕ) (p : PendingTime) (ps : List PendingTime) (r : Requests l)
      → Memᴰ p ps
      → IsOverdue now p
      → IsExpired p (check_timeouts now ps r)
  unfolding check_timeouts
  check_timeouts-overdue now p [] r mem late = elim mem [ ]
  check_timeouts-overdue now p (q ∷ ps) r (Memᴰ.head same) late =
      let e : leb request_timeout_ms (age_ms now q) ≡ true =
        ground (arith, late, ap (age_ms now) same) in
      rw (check_timeouts, e)
        (check_timeouts-keeps now p ps (expire r q)
          (subst (λ x. IsExpired x (expire r q)) (sym same) (expire-IsExpired q r)))
  check_timeouts-overdue now p (q ∷ ps) r (Memᴰ.tail mem) late =
      elim (Bool-cases (leb request_timeout_ms (age_ms now q))) [
        | inl late' ↦
            rw (check_timeouts, late') (check_timeouts-overdue now p ps (expire r q) mem late)
        | inr fresh ↦
            let ih = check_timeouts-overdue now p ps r mem late in
            rw (check_timeouts, fresh) (record { reported = ih.reported; cancelled = ih.cancelled })
      ]

  check_timeouts-IsFresh :
      (now : ℕ) (ps : List PendingTime) (r : Requests l)
      → All (IsFresh now) (check_timeouts now ps r).pending_times
  unfolding check_timeouts
  check_timeouts-IsFresh now [] r = tt
  check_timeouts-IsFresh now (q ∷ ps) r =
      elim (Bool-cases (leb request_timeout_ms (age_ms now q))) [
        | inl late ↦ rw (check_timeouts, late) (check_timeouts-IsFresh now ps (expire r q))
        | inr fresh ↦
            let lt : age_ms now q < request_timeout_ms = ground (arith, fresh) in
            rw (check_timeouts, fresh) (lt, check_timeouts-IsFresh now ps r)
      ]

  -- What the evaluation after the loop leaves alone.
  abbrev rest_of : Requests l → List PendingTime × List (ℕ × ℕ) × List (List ℕ)
  rest_of r = (r.pending_times, r.reports, r.outgoing)

  sync_slot-rest : (r : Requests l) → rest_of (sync_slot r) ≡ rest_of r
  unfolding sync_slot
  sync_slot-rest r = elim (Option-cases r.scheduler) [
    | inl absent ↦ rw (sync_slot, absent) refl
    | inr (s, present) ↦ elim (Option-cases (find_peer r.slot_id s.peer_slots)) [
      | inl absent ↦ rw (sync_slot, present, absent) refl
      | inr (p, found) ↦ rw (sync_slot, present, found) refl
    ]
  ]

  settle-rest : (r : Requests l) → rest_of (settle r) ≡ rest_of r
  unfolding settle evaluate
  settle-rest r = elim (Bool-cases (leb request_timeout_limit r.consecutive_timeouts)) [
    | inl many ↦ rw (settle, many) refl
    | inr few ↦ rw (settle, few) (sync_slot-rest (with_next_cap r))
  ]

  -- An evaluation that takes place: the timer fired on a live session, half a second or more after
  -- the last one.
  pub record IsDue (r : Requests l) (now : ℕ) : Type 0 where
    pub connected : r.connected ≡ true
    pub elapsed : pipeline_eval_ms ≤ elapsed_ms r now

  pub do_eval_tick-due :
      (r : Requests l) (now : ℕ) → IsDue r now → do_eval_tick r false now ≡ settle (checked r now)
  unfolding do_eval_tick tick_unless
  do_eval_tick-due r now due =
      let e : ltb (elapsed_ms r now) pipeline_eval_ms ≡ false = ground (arith, due.elapsed) in
      ap₂ (λ a b. tick_unless a b r now) (ap not due.connected) e

  -- No request waits for ever: an evaluation of a live session that takes place drops every request
  -- that is three seconds old or older, sends a CANCEL for it and reports it to the owner, and the
  -- requests that stay are younger.
  pub do_eval_tick-overdue :
      (r : Requests l) (now : ℕ) (p : PendingTime)
      → IsDue r now
      → Memᴰ p r.pending_times
      → IsOverdue now p
      → IsExpired p (do_eval_tick r false now)
        × All (IsFresh now) (do_eval_tick r false now).pending_times
  unfolding checked
  do_eval_tick-overdue r now p due mem late =
      let expired =
        check_timeouts-overdue now p r.pending_times (record r { last_eval_time = now }) mem late in
      let fresh = check_timeouts-IsFresh now r.pending_times (record r { last_eval_time = now }) in
      let same = settle-rest (checked r now) in
      rw (do_eval_tick-due r now due) (
        record {
          reported =
              subst (λ ms. Memᴰ (p.chunk_idx, p.begin) ms) (sym (ap (λ t. t.1) same))
                expired.reported;
          cancelled =
              subst (λ ms. Memᴰ (build_cancel p.chunk_idx p.begin sub_block_size) ms)
                (sym (ap (λ t. t.2) same)) expired.cancelled;
        },
        subst (All (IsFresh now)) (sym (ap (λ t. t.0) same)) fresh,
      )
