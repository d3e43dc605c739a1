-- ===== src/Scheduler/Limits.antt =====
-- What follows of the requests to one peer from the steps of `Issues`.
use new_thinbt.Common.{ℕ, ◌+◌, ◌≤◌, ◌<◌, ◌≡◌, ap, ◌∙◌, length, max, arith}
use new_thinbt.Scheduler.State.{Scheduler, PeerSlot, peer_at}
use new_thinbt.Scheduler.Requests.{with_request, request_sub, effective_cap, try_schedule_for_peer}
use new_thinbt.Scheduler.Issues.{
  Issues, stop, begins, asks, peer_at-request_sub, length-request_sub, try_schedule-Issues,
}

pending-request_sub :
    (s : Scheduler) (p c i now limit : ℕ)
    → p < length s.peer_slots
    → (peer_at s p).pending_requests < limit
    → limit < 4294967296
    → (peer_at (request_sub s p c i now) p).pending_requests ≡ (peer_at s p).pending_requests + 1
unfolding with_request
pending-request_sub s p c i now limit lt room small =
    ap (λ (peer : PeerSlot). peer.pending_requests) (peer_at-request_sub s p c i now lt)
    ∙ omega arith

Issues-pending :
    {p now limit : ℕ} {s t : Scheduler}
    → Issues p now limit s t
    → p < length s.peer_slots
    → limit < 4294967296
    → (peer_at t p).pending_requests ≤ max limit (peer_at s p).pending_requests
Issues-pending stop lt small = omega arith
Issues-pending (begins c inside not_complete more) lt small = Issues-pending more lt small
Issues-pending {p} {now} {limit} {s} (asks c i may more) lt small =
    let e = pending-request_sub s p c i now limit lt may.room small in
    let rest = Issues-pending more (rw (length-request_sub s p c i now) lt) small in
    let room = may.room in omega arith

effective_cap-le : (s : Scheduler) (p : ℕ) → effective_cap s p ≤ (peer_at s p).pipeline_cap
unfolding effective_cap
effective_cap-le s p = ground arith

-- Scheduling a peer never takes its pending requests beyond its pipeline: they stay within the
-- larger of the pipeline's size and what they were before.
pub pending-try_schedule :
    (s : Scheduler) (p now : ℕ)
    → p < length s.peer_slots
    → (peer_at s p).pipeline_cap < 4294967296
    → (peer_at (try_schedule_for_peer s p now).0 p).pending_requests
      ≤ max (peer_at s p).pipeline_cap (peer_at s p).pending_requests
pending-try_schedule s p now lt small =
    let cap_le = effective_cap-le s p in
    let steps = Issues-pending (try_schedule-Issues s p now lt) lt (omega arith) in omega arith
