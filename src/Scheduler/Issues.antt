-- ===== src/Scheduler/Issues.antt =====
-- What the scheduling of one peer may do, as a relation, and that the code does no more.
use new_thinbt.Common.{
  ℕ, zero, suc, ◌+◌, ◌*◌, ◌%◌, ◌≤◌, ◌<◌, ◌≡◌, refl, ap, ◌∙◌, inl, inr, Bool, true, false, not, ◌&&◌,
  List, [], ◌∷◌, length, get_or, set, length-set, get_or-set_self, ltb→lt, leb, Bool-cases, arith,
}
use new_thinbt.Scheduler.State.{
  downloading, missing, is_complete, Scheduler, PeerSlot, peer_at, state_at, cell, default_peer,
}
use new_thinbt.Scheduler.Choice.{can_serve}
use new_thinbt.Scheduler.Requests.{
  with_request, issue_to, request_sub, request_subs, may_schedule, try_schedule_chunk_on_peer,
  effective_cap, schedule_chunks, try_schedule_for_peer,
}

-- A sub-block that may be asked of the peer: there is room in its pipeline, it serves the chunk and
-- does not choke, and the sub-block is one of the chunk's and is not requested yet.
pub record MayAsk (s : Scheduler) (p : ℕ) (c : ℕ) (i : ℕ) (limit : ℕ) : Type 0 where
  pub room : (peer_at s p).pending_requests < limit
  pub serves : can_serve (peer_at s p) c ≡ true
  pub opened : state_at s c ≡ downloading
  pub fresh : cell s.chunk_sub_req c i false ≡ false
  pub inside : i < get_or s.chunk_sub_blocks c 0

-- A chunk whose download begins.
abbrev pub begin_chunk : Scheduler → ℕ → Scheduler
begin_chunk s c = record s { chunk_states = set s.chunk_states c downloading }

pub data Issues (p : ℕ) (now : ℕ) (limit : ℕ) : Scheduler → Scheduler → Type 0 where
  stop : {s : Scheduler} → Issues p now limit s s
  begins :
      {s t : Scheduler} (c : ℕ)
      → c < length s.chunk_states
      → is_complete (state_at s c) ≡ false
      → Issues p now limit (begin_chunk s c) t
      → Issues p now limit s t
  asks :
      {s t : Scheduler} (c i : ℕ)
      → MayAsk s p c i limit
      → Issues p now limit (request_sub s p c i now) t
      → Issues p now limit s t

pub chain :
    {p now limit : ℕ} {s t u : Scheduler}
    → Issues p now limit s t
    → Issues p now limit t u
    → Issues p now limit s u
chain stop rest = rest
chain (begins c inside opened_c more) rest = begins c inside opened_c (chain more rest)
chain (asks c i may more) rest = asks c i may (chain more rest)

pub peer_at-request_sub :
    (s : Scheduler) (p c i now : ℕ)
    → p < length s.peer_slots
    → peer_at (request_sub s p c i now) p ≡ with_request (peer_at s p) c (i * 16384 % 4294967296)
unfolding request_sub issue_to
peer_at-request_sub s p c i now lt = get_or-set_self s.peer_slots p _ default_peer lt

pub length-request_sub :
    (s : Scheduler) (p c i now : ℕ)
    → length (request_sub s p c i now).peer_slots ≡ length s.peer_slots
unfolding request_sub issue_to
length-request_sub s p c i now = length-set s.peer_slots p _

serves-with_request :
    (peer : PeerSlot) (c b : ℕ) → can_serve (with_request peer c b) c ≡ can_serve peer c
unfolding can_serve with_request
serves-with_request peer c b = refl

serves-request_sub :
    (s : Scheduler) (p c i now : ℕ)
    → p < length s.peer_slots
    → can_serve (peer_at (request_sub s p c i now) p) c ≡ can_serve (peer_at s p) c
serves-request_sub s p c i now lt =
    ap (λ peer. can_serve peer c) (peer_at-request_sub s p c i now lt)
    ∙ serves-with_request (peer_at s p) c _

states-request_sub :
    (s : Scheduler) (p c i now : ℕ) → (request_sub s p c i now).chunk_states ≡ s.chunk_states
unfolding request_sub issue_to
states-request_sub s p c i now = refl

blocks-request_sub :
    (s : Scheduler) (p c i now : ℕ)
    → (request_sub s p c i now).chunk_sub_blocks ≡ s.chunk_sub_blocks
unfolding request_sub issue_to
blocks-request_sub s p c i now = refl

request_subs-Issues :
    (n i : ℕ) (s : Scheduler) (p c now limit : ℕ)
    → p < length s.peer_slots
    → can_serve (peer_at s p) c ≡ true
    → state_at s c ≡ downloading
    → i + n ≤ get_or s.chunk_sub_blocks c 0
    → Issues p now limit s (request_subs n i s p c now limit).0
unfolding request_subs
request_subs-Issues zero i s p c now limit lt serves opened within = stop
request_subs-Issues (suc n) i s p c now limit lt serves opened within =
    elim (Bool-cases (leb limit (peer_at s p).pending_requests)) [
      | inl full ↦ rw (request_subs, full) stop
      | inr room ↦ elim (Bool-cases (cell s.chunk_sub_req c i false)) [
        | inl sent ↦
            rw (request_subs, room, sent)
              (request_subs-Issues n (i + 1) s p c now limit lt serves opened (omega arith))
        | inr fresh ↦
            rw (request_subs, room, fresh)
              (asks c i
                (record {
                  room = ground arith;
                  serves = serves;
                  opened = opened;
                  fresh = fresh;
                  inside = omega arith;
                })
                (request_subs-Issues n (i + 1) (request_sub s p c i now) p c now limit
                  (rw (length-request_sub s p c i now) lt)
                  (serves-request_sub s p c i now lt ∙ serves)
                  (ap (λ states. get_or states c missing) (states-request_sub s p c i now) ∙ opened)
                  (rw (blocks-request_sub s p c i now) (omega arith))))
      ]
    ]

length-request_subs :
    (n i : ℕ) (s : Scheduler) (p c now limit : ℕ)
    → length (request_subs n i s p c now limit).0.peer_slots ≡ length s.peer_slots
unfolding request_subs
length-request_subs zero i s p c now limit = refl
length-request_subs (suc n) i s p c now limit =
    elim (Bool-cases (leb limit (peer_at s p).pending_requests)) [
      | inl full ↦ rw (request_subs, full) refl
      | inr room ↦ elim (Bool-cases (cell s.chunk_sub_req c i false)) [
        | inl sent ↦ rw (request_subs, room, sent) (length-request_subs n (i + 1) s p c now limit)
        | inr fresh ↦
            rw (request_subs, room, fresh)
              (length-request_subs n (i + 1) (request_sub s p c i now) p c now limit
                ∙ length-request_sub s p c i now)
      ]
    ]

not-true : (b : Bool) → not b ≡ true → b ≡ false
not-true b h = ground arith

-- What `may_schedule` has tested.
and-left : (a b : Bool) → (a && b) ≡ true → a ≡ true
and-left a b h = ground arith

and-right : (a b : Bool) → (a && b) ≡ true → b ≡ true
and-right a b h = ground arith

length-schedule_chunk :
    (s : Scheduler) (p c now limit : ℕ)
    → length (try_schedule_chunk_on_peer s p c now limit).0.peer_slots ≡ length s.peer_slots
unfolding try_schedule_chunk_on_peer
length-schedule_chunk s p c now limit = elim (Bool-cases (may_schedule s p c)) [
  | inl may ↦
      rw (try_schedule_chunk_on_peer, may)
        (length-request_subs (get_or s.chunk_sub_blocks c 0) 0 (begin_chunk s c) p c now limit)
  | inr may_not ↦ rw (try_schedule_chunk_on_peer, may_not) refl
]

may_schedule-tests :
    (s : Scheduler) (p c : ℕ)
    → may_schedule s p c ≡ true
    → (c < length s.chunk_states)
      × (is_complete (state_at s c) ≡ false)
      × (can_serve (peer_at s p) c ≡ true)
unfolding may_schedule
may_schedule-tests s p c may =
    let rest = and-right _ _ may in
    (
      ltb→lt _ _ (and-left _ _ may),
      not-true _ (and-left _ _ rest),
      and-left _ _ (and-right _ _ rest),
    )

schedule_chunk-Issues :
    (s : Scheduler) (p c now limit : ℕ)
    → p < length s.peer_slots
    → Issues p now limit s (try_schedule_chunk_on_peer s p c now limit).0
unfolding try_schedule_chunk_on_peer
schedule_chunk-Issues s p c now limit lt = elim (Bool-cases (may_schedule s p c)) [
  | inr may_not ↦ rw (try_schedule_chunk_on_peer, may_not) stop
  | inl may ↦
      let (inside, not_complete, serves) = may_schedule-tests s p c may in
      rw (try_schedule_chunk_on_peer, may)
        (begins c inside not_complete (
          request_subs-Issues (get_or s.chunk_sub_blocks c 0) 0 (begin_chunk s c) p c now limit lt
            serves (get_or-set_self s.chunk_states c downloading missing inside) (omega arith)))
]

schedule_chunks-Issues :
    (chunks : List (ℕ × ℕ)) (s : Scheduler) (p now limit : ℕ)
    → p < length s.peer_slots
    → Issues p now limit s (schedule_chunks chunks s p now limit).0
unfolding schedule_chunks
schedule_chunks-Issues [] s p now limit lt = stop
schedule_chunks-Issues ((avail, c) ∷ chunks) s p now limit lt =
    let s' = (try_schedule_chunk_on_peer s p c now limit).0 in
    elim (Bool-cases (leb limit (peer_at s p).pending_requests)) [
      | inl full ↦ rw (schedule_chunks, full) stop
      | inr room ↦
          rw (schedule_chunks, room)
            (chain (schedule_chunk-Issues s p c now limit lt) (
              schedule_chunks-Issues chunks s' p now limit
                (rw (length-schedule_chunk s p c now limit) lt)))
    ]

pub try_schedule-Issues :
    (s : Scheduler) (p now : ℕ)
    → p < length s.peer_slots
    → Issues p now (effective_cap s p) s (try_schedule_for_peer s p now).0
unfolding try_schedule_for_peer
try_schedule-Issues s p now lt =
    elim (Bool-cases (leb (effective_cap s p) (peer_at s p).pending_requests)) [
      | inl full ↦ rw (try_schedule_for_peer, full) stop
      | inr room ↦
          rw (try_schedule_for_peer, room) (schedule_chunks-Issues _ s p now (effective_cap s p) lt)
    ]
