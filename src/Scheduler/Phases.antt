-- ===== src/Scheduler/Phases.antt =====
-- The completions: the counter of missing chunks stays right, and the phase follows from it.
use new_thinbt.Common.{
  ℕ, ◌<◌, ◌≡◌, ◌↔◌, refl, sym, ap, subst, ◌∙◌, inl, inr, true, false, List, [], ◌∷◌, length, get_or,
  set, length-set, Bool-cases, arith, dec32,
}
use new_thinbt.ChunkAssembler.{ChunkCompleteMsg}
use new_thinbt.Scheduler.State.{
  ChunkState, missing, complete, is_complete, Scheduler, state_at, SchedulerPhase, is_done,
}
use new_thinbt.Scheduler.Completions.{
  complete_chunk, complete_chunks, send_cancel_for_chunk, process_completions, settle_phase,
  on_verify_failed,
}
use new_thinbt.Scheduler.Counting.{
  open_chunks, IsCounted, open_chunks-complete, set-IsCounted, open_chunks-le,
}

-- Completions of chunks that are in range and not complete, no chunk twice.
abbrev pub AllOpen : List ChunkCompleteMsg → List ChunkState → Type 0
AllOpen [] states = Unit
AllOpen (msg ∷ msgs) states =
    (msg.chunk_idx < length states)
    × (is_complete (get_or states msg.chunk_idx missing) ≡ false)
    × AllOpen msgs (set states msg.chunk_idx complete)

states-send_cancel :
    (s : Scheduler) (c exclude : ℕ)
    → (send_cancel_for_chunk s c exclude).chunk_states ≡ s.chunk_states
unfolding send_cancel_for_chunk
states-send_cancel s c exclude = elim (Bool-cases s.has_cancel) [
  | inl set ↦ rw (send_cancel_for_chunk, set) refl
  | inr not_set ↦ rw (send_cancel_for_chunk, not_set) refl
]

count-send_cancel :
    (s : Scheduler) (c exclude : ℕ)
    → (send_cancel_for_chunk s c exclude).missing_count ≡ s.missing_count
unfolding send_cancel_for_chunk
count-send_cancel s c exclude = elim (Bool-cases s.has_cancel) [
  | inl set ↦ rw (send_cancel_for_chunk, set) refl
  | inr not_set ↦ rw (send_cancel_for_chunk, not_set) refl
]

phase-send_cancel :
    (s : Scheduler) (c exclude : ℕ) → (send_cancel_for_chunk s c exclude).phase ≡ s.phase
unfolding send_cancel_for_chunk
phase-send_cancel s c exclude = elim (Bool-cases s.has_cancel) [
  | inl set ↦ rw (send_cancel_for_chunk, set) refl
  | inr not_set ↦ rw (send_cancel_for_chunk, not_set) refl
]

phase-complete_chunk :
    (s : Scheduler) (msg : ChunkCompleteMsg) → (complete_chunk s msg).phase ≡ s.phase
unfolding complete_chunk
phase-complete_chunk s msg = phase-send_cancel _ msg.chunk_idx msg.winning_peer_slot

states-complete_chunk :
    (s : Scheduler) (msg : ChunkCompleteMsg)
    → (complete_chunk s msg).chunk_states ≡ set s.chunk_states msg.chunk_idx complete
unfolding complete_chunk
states-complete_chunk s msg = states-send_cancel _ msg.chunk_idx msg.winning_peer_slot

count-complete_chunk :
    (s : Scheduler) (msg : ChunkCompleteMsg)
    → (complete_chunk s msg).missing_count ≡ dec32 s.missing_count
unfolding complete_chunk
count-complete_chunk s msg = count-send_cancel _ msg.chunk_idx msg.winning_peer_slot

complete_chunk-IsCounted :
    (s : Scheduler) (msg : ChunkCompleteMsg)
    → IsCounted s
    → msg.chunk_idx < length s.chunk_states
    → is_complete (state_at s msg.chunk_idx) ≡ false
    → IsCounted (complete_chunk s msg)
complete_chunk-IsCounted s msg is inside opened =
    let one_less = open_chunks-complete s.chunk_states msg.chunk_idx inside opened in
    let bound = open_chunks-le s.chunk_states in
    let counted = is.counted in
    let small = is.small in
    record {
      counted =
          count-complete_chunk s msg
          ∙ omega arith
          ∙ sym (ap open_chunks (states-complete_chunk s msg));
      small =
          rw (states-complete_chunk s msg, length-set s.chunk_states msg.chunk_idx complete)
            is.small;
    }

complete_chunks-IsCounted :
    (msgs : List ChunkCompleteMsg) (s : Scheduler)
    → IsCounted s
    → AllOpen msgs s.chunk_states
    → IsCounted (complete_chunks msgs s)
unfolding complete_chunks
complete_chunks-IsCounted [] s is all = is
complete_chunks-IsCounted (msg ∷ msgs) s is (inside, opened, all) =
    complete_chunks-IsCounted msgs (complete_chunk s msg)
      (complete_chunk-IsCounted s msg is inside opened)
      (subst (AllOpen msgs) (sym (states-complete_chunk s msg)) all)

-- Completions of open chunks, each once, keep the counter of missing chunks right.
pub process_completions-IsCounted :
    (s : Scheduler) (msgs : List ChunkCompleteMsg)
    → IsCounted s
    → AllOpen msgs s.chunk_states
    → IsCounted (process_completions s msgs)
unfolding process_completions
process_completions-IsCounted s msgs is all =
    let after = complete_chunks-IsCounted msgs s is all in
    record { counted = after.counted; small = after.small }

settle_phase-done :
    (phase : SchedulerPhase) (n : ℕ)
    → is_done phase ≡ false
    → (is_done (settle_phase phase n) ≡ true) ↔ (n ≡ 0)
unfolding settle_phase is_done
settle_phase-done phase n running = ground arith

phase-complete_chunks :
    (msgs : List ChunkCompleteMsg) (s : Scheduler) → (complete_chunks msgs s).phase ≡ s.phase
unfolding complete_chunks
phase-complete_chunks [] s = refl
phase-complete_chunks (msg ∷ msgs) s =
    phase-complete_chunks msgs (complete_chunk s msg) ∙ phase-complete_chunk s msg

-- After completions of open chunks the phase of a scheduler that was not done is DONE if and only if
-- every chunk is complete.
pub process_completions-done :
    (s : Scheduler) (msgs : List ChunkCompleteMsg)
    → IsCounted s
    → AllOpen msgs s.chunk_states
    → is_done s.phase ≡ false
    → (is_done (process_completions s msgs).phase ≡ true)
      ↔ (open_chunks (process_completions s msgs).chunk_states ≡ 0)
unfolding process_completions
process_completions-done s msgs is all running =
    let after = complete_chunks-IsCounted msgs s is all in
    let still : is_done (complete_chunks msgs s).phase ≡ false =
      ap is_done (phase-complete_chunks msgs s) ∙ running in
    let settled =
      settle_phase-done (complete_chunks msgs s).phase (complete_chunks msgs s).missing_count
        still in
    rw (sym after.counted) settled

-- `on_verify_failed` of a chunk that is not complete keeps the counter right.
pub on_verify_failed-IsCounted :
    (s : Scheduler) (c : ℕ)
    → IsCounted s
    → c < length s.chunk_states
    → is_complete (state_at s c) ≡ false
    → IsCounted (on_verify_failed s c)
unfolding on_verify_failed is_complete
on_verify_failed-IsCounted s c is inside opened =
    set-IsCounted s (on_verify_failed s c) c missing is inside opened refl refl refl
