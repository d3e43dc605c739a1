-- ===== src/Scheduler/Resume.antt =====
-- `mark_all_complete`: the chunks that a resumed file has already.
use new_thinbt.Common.{
  ℕ, ◌+◌, ◌<◌, ◌≡◌, ◌≢◌, refl, sym, ap, ◌∙◌, inl, inr, Bool, true, false, ◌&&◌, List, [], ◌∷◌,
  length, get_or, set, length-set, get_or-set_self, get_or-set_ne, Bool-cases, arith, dec32, ltb,
  ◌==◌,
}
use new_thinbt.Scheduler.State.{
  ChunkState, missing, complete, is_complete, is_missing, Scheduler, state_at,
}
use new_thinbt.Scheduler.Completions.{mark_complete, mark_bits, mark_all_complete}
use new_thinbt.Scheduler.Counting.{open_chunks, IsCounted, open_chunks-complete, open_chunks-le}

-- No chunk is under way: each is complete or missing.
abbrev pub IsIdle : Scheduler → Type 0
IsIdle s = (i : ℕ) → is_complete (state_at s i) ≡ false → is_missing (state_at s i) ≡ true

states-mark_complete :
    (s : Scheduler) (i : ℕ)
    → is_complete (state_at s i) ≡ false
    → (mark_complete s i).chunk_states ≡ set s.chunk_states i complete
unfolding mark_complete
states-mark_complete s i opened = rw (mark_complete, opened) refl

count-mark_complete :
    (s : Scheduler) (i : ℕ)
    → is_complete (state_at s i) ≡ false
    → is_missing (state_at s i) ≡ true
    → (mark_complete s i).missing_count ≡ dec32 s.missing_count
unfolding mark_complete
count-mark_complete s i opened idle = rw (mark_complete, opened, idle) refl

skip-mark_complete :
    (s : Scheduler) (i : ℕ) → is_complete (state_at s i) ≡ true → mark_complete s i ≡ s
unfolding mark_complete
skip-mark_complete s i closed = rw (mark_complete, closed) refl

set-idle :
    (states : List ChunkState) (i j : ℕ)
    → i < length states
    → (is_complete (get_or states j missing) ≡ false → is_missing (get_or states j missing) ≡ true)
    → is_complete (get_or (set states i complete) j missing) ≡ false
    → is_missing (get_or (set states i complete) j missing) ≡ true
unfolding is_complete
set-idle states i j inside idle opened = elim (Bool-cases (i == j)) [
  | inl same ↦
      let e : i ≡ j = ground arith in
      let here = get_or-set_self states i complete missing inside in
      let there : get_or (set states i complete) j missing ≡ complete =
        ap (λ k. get_or (set states i complete) k missing) (sym e) ∙ here in
      absurd (ground (arith, ap is_complete (sym there) ∙ opened))
  | inr other ↦
      let ne : i ≢ j = ground arith in
      let e = get_or-set_ne states i j complete missing ne in
      ap is_missing e ∙ idle (ap is_complete (sym e) ∙ opened)
]

mark_complete-IsCounted :
    (s : Scheduler) (i : ℕ)
    → IsCounted s
    → IsIdle s
    → i < length s.chunk_states
    → IsCounted (mark_complete s i) × IsIdle (mark_complete s i)
mark_complete-IsCounted s i is idle inside = elim (Bool-cases (is_complete (state_at s i))) [
  | inl closed ↦ rw (skip-mark_complete s i closed) (is, idle)
  | inr opened ↦
      let one_less = open_chunks-complete s.chunk_states i inside opened in
      let bound = open_chunks-le s.chunk_states in
      let counted = is.counted in
      let small = is.small in
      let states = states-mark_complete s i opened in
      (
        record {
          counted =
              count-mark_complete s i opened (idle i opened)
              ∙ omega arith
              ∙ sym (ap open_chunks states);
          small = rw (states, length-set s.chunk_states i complete) is.small;
        },
        λ j. rw (states) (set-idle s.chunk_states i j inside (idle j)),
      )
]

mark_bits-IsCounted :
    (bits : List Bool) (i : ℕ) (s : Scheduler)
    → IsCounted s
    → IsIdle s
    → IsCounted (mark_bits bits i s)
unfolding mark_bits
mark_bits-IsCounted [] i s is idle = is
mark_bits-IsCounted (b ∷ bits) i s is idle =
    elim (Bool-cases (b && ltb i (length s.chunk_states))) [
      | inl marked ↦
          let inside : i < length s.chunk_states = ground arith in
          let (is', idle') = mark_complete-IsCounted s i is idle inside in
          rw (mark_bits, marked) (mark_bits-IsCounted bits (i + 1) (mark_complete s i) is' idle')
      | inr kept ↦ rw (mark_bits, kept) (mark_bits-IsCounted bits (i + 1) s is idle)
    ]

-- While no chunk is under way, marking the chunks of any bitfield as complete keeps the counter of
-- missing chunks right.
pub mark_all_complete-IsCounted :
    (s : Scheduler) (bitfield : List Bool)
    → IsCounted s
    → IsIdle s
    → IsCounted (mark_all_complete s bitfield)
unfolding mark_all_complete
mark_all_complete-IsCounted s bitfield is idle =
    let after = mark_bits-IsCounted bitfield 0 s is idle in
    record { counted = after.counted; small = after.small }
