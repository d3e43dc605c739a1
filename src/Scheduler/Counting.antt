-- ===== src/Scheduler/Counting.antt =====
-- `missing_count_` against the states of the chunks, and the phase that follows from it.
use new_thinbt.Common.{
  ℕ, zero, suc, ◌+◌, ◌≤◌, ◌<◌, ◌≡◌, refl, sym, ap, ◌∙◌, false, List, [], ◌∷◌, length, get_or, set,
  length-set, arith, if◌then◌else◌,
}
use new_thinbt.Scheduler.State.{
  ChunkState, missing, requested, downloading, complete, is_complete, Scheduler, state_at,
}
use new_thinbt.Scheduler.Requests.{issue_to, request_sub, try_schedule_for_peer}
use new_thinbt.Scheduler.Issues.{Issues, stop, begins, asks, begin_chunk, try_schedule-Issues}

-- The number of chunks that are not complete.
unfoldable pub open_chunks : List ChunkState → ℕ
unfolding is_complete
open_chunks [] = 0
open_chunks (state ∷ states) =
    if is_complete state then open_chunks states else suc (open_chunks states)

-- The counter is that number, and there are fewer than 2 ^ 32 chunks.
pub record IsCounted (s : Scheduler) : Type 0 where
  pub counted : s.missing_count ≡ open_chunks s.chunk_states
  pub small : length s.chunk_states < 4294967296

pub open_chunks-le : (states : List ChunkState) → open_chunks states ≤ length states
unfolding open_chunks is_complete
open_chunks-le [] = omega arith
open_chunks-le (missing ∷ states) = let ih = open_chunks-le states in omega arith
open_chunks-le (requested ∷ states) = let ih = open_chunks-le states in omega arith
open_chunks-le (downloading ∷ states) = let ih = open_chunks-le states in omega arith
open_chunks-le (complete ∷ states) = let ih = open_chunks-le states in omega arith

weight : ChunkState → ℕ
unfolding is_complete
weight state = if is_complete state then 0 else 1

open_chunks-cons :
    (state : ChunkState) (states : List ChunkState)
    → open_chunks (state ∷ states) ≡ weight state + open_chunks states
unfolding open_chunks is_complete weight
open_chunks-cons missing states = omega arith
open_chunks-cons requested states = omega arith
open_chunks-cons downloading states = omega arith
open_chunks-cons complete states = omega arith

open_chunks-set :
    (states : List ChunkState) (c : ℕ) (new : ChunkState)
    → c < length states
    → open_chunks (set states c new) + weight (get_or states c missing)
      ≡ open_chunks states + weight new
open_chunks-set [] c new inside = absurd (omega arith)
open_chunks-set (state ∷ states) zero new inside =
    let e1 = open_chunks-cons state states in let e2 = open_chunks-cons new states in omega arith
open_chunks-set (state ∷ states) (suc c) new inside =
    let e1 = open_chunks-cons state states in
    let e2 = open_chunks-cons state (set states c new) in
    let ih = open_chunks-set states c new (omega arith) in omega arith

weight-one : (state : ChunkState) → is_complete state ≡ false → weight state ≡ 1
unfolding weight
weight-one state h = ground arith

-- A chunk that was not complete becomes complete, or stays as it is.
pub open_chunks-complete :
    (states : List ChunkState) (c : ℕ)
    → c < length states
    → is_complete (get_or states c missing) ≡ false
    → open_chunks (set states c complete) + 1 ≡ open_chunks states
unfolding weight is_complete
open_chunks-complete states c inside opened =
    let e = open_chunks-set states c complete inside in
    let w = weight-one (get_or states c missing) opened in
    let z : weight complete ≡ 0 = refl in omega arith

pub open_chunks-same :
    (states : List ChunkState) (c : ℕ) (new : ChunkState)
    → c < length states
    → is_complete (get_or states c missing) ≡ false
    → is_complete new ≡ false
    → open_chunks (set states c new) ≡ open_chunks states
open_chunks-same states c new inside opened new_opened =
    let e = open_chunks-set states c new inside in
    let w = weight-one (get_or states c missing) opened in
    let w' = weight-one new new_opened in omega arith

pub set-IsCounted :
    (s t : Scheduler) (c : ℕ) (new : ChunkState)
    → IsCounted s
    → c < length s.chunk_states
    → is_complete (state_at s c) ≡ false
    → is_complete new ≡ false
    → t.chunk_states ≡ set s.chunk_states c new
    → t.missing_count ≡ s.missing_count
    → IsCounted t
set-IsCounted s t c new is inside opened new_opened states count = record {
  counted =
      count
      ∙ is.counted
      ∙ sym (open_chunks-same s.chunk_states c new inside opened new_opened)
      ∙ ap open_chunks (sym states);
  small = rw (states, length-set s.chunk_states c new) is.small;
}

pub same-IsCounted :
    (s t : Scheduler)
    → IsCounted s
    → t.chunk_states ≡ s.chunk_states
    → t.missing_count ≡ s.missing_count
    → IsCounted t
same-IsCounted s t is states count = record {
  counted = count ∙ is.counted ∙ ap open_chunks (sym states);
  small = rw (states) is.small;
}

Issues-IsCounted :
    {p now limit : ℕ} {s t : Scheduler} → Issues p now limit s t → IsCounted s → IsCounted t
unfolding request_sub issue_to is_complete
Issues-IsCounted stop is = is
Issues-IsCounted {s = s} (begins c inside opened more) is =
    Issues-IsCounted more
      (set-IsCounted s (begin_chunk s c) c downloading is inside opened refl refl refl)
Issues-IsCounted {p} {now} {s = s} (asks c i may more) is =
    Issues-IsCounted more (same-IsCounted s (request_sub s p c i now) is refl refl)

-- Scheduling a peer keeps the counter of missing chunks right.
pub try_schedule-IsCounted :
    (s : Scheduler) (p now : ℕ)
    → p < length s.peer_slots
    → IsCounted s
    → IsCounted (try_schedule_for_peer s p now).0
try_schedule-IsCounted s p now lt is = Issues-IsCounted (try_schedule-Issues s p now lt) is
