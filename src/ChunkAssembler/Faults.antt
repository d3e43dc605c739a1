-- ===== src/ChunkAssembler/Faults.antt =====
-- Pieces that a peer should not send, and pieces for a chunk that is complete already.
use native.Mathlib.Nat.{div-lt_iff_lt-mul, mod-eq_of_lt}
use new_thinbt.Common.{
  ℕ, ◌+◌, ◌*◌, ◌/◌, ◌%◌, ◌≤◌, ◌<◌, ◌≡◌, ap, ◌∙◌, ◌⊎◌, inl, inr, false, none, some, List, length,
  blit, ltb, ◌==◌, Bool-cases, u32_mod, arith,
}
use new_thinbt.ChunkAssembler.{ChunkAssembler, mark_slot, on_piece}
use new_thinbt.ChunkAssembler.Mask.{marked, mark, mask_test, marked-mark_self, marked-mark_ne}

-- An assembler whose region and mask have the sizes that its counters say.
pub record IsSized (a : ChunkAssembler) (region : List ℕ) : Type 0 where
  pub base_is : a.base ≡ some region
  pub region_size : length region ≡ a.chunk_size
  pub size_lt : a.chunk_size < 4294967296
  pub block_pos : 0 < a.sub_block_size
  pub slots_cover : a.chunk_size ≤ a.total_slots * a.sub_block_size
  pub mask_fits : a.total_slots ≤ 32 * length a.completed_mask

-- The bounds check adds in 32 bits: a piece whose offset and length together reach 2 ^ 32 and wrap
-- to a sum within the chunk passes the check, and memcpy then writes outside the chunk's memory.
pub on_piece_wraps :
    (a : ChunkAssembler) (region : List ℕ) (begin : ℕ) (block : List ℕ)
    → IsSized a region
    → 4294967296 ≤ begin + length block
    → (begin + length block) % 4294967296 ≤ a.chunk_size
    → on_piece a begin block ≡ none
unfolding on_piece
on_piece_wraps a region begin block s wide small =
    rw (s.base_is, on_piece) (ground (arith, s.region_size, s.size_lt))

slot_below :
    (a : ChunkAssembler) (region : List ℕ) (begin : ℕ)
    → IsSized a region
    → begin < a.chunk_size
    → begin / a.sub_block_size < a.total_slots
slot_below a region begin s lt = (div-lt_iff_lt-mul s.block_pos).1 (omega (arith, s.slots_cover))

-- Without that wrap a piece with at least one byte never faults: one that reaches beyond the chunk
-- is refused and changes nothing, and any other is written and marked.
pub on_piece_safe :
    (a : ChunkAssembler) (region : List ℕ) (begin : ℕ) (block : List ℕ)
    → IsSized a region
    → 0 < length block
    → begin + length block < 4294967296
    → ((a.chunk_size < begin + length block) × (on_piece a begin block ≡ some (a, false)))
      ⊎ ((begin + length block ≤ a.chunk_size)
          × (on_piece a begin block
              ≡ some (
                  mark_slot
                    (record a { base = some (blit region begin block) })
                    (begin / a.sub_block_size))))
unfolding on_piece
on_piece_safe a region begin block s some_byte narrow =
    let e : (begin + length block) % u32_mod ≡ begin + length block = mod-eq_of_lt narrow in
    elim (Bool-cases (ltb a.chunk_size (begin + length block))) [
      | inl beyond ↦ inl (
        ground arith,
        rw (s.base_is, on_piece, e, beyond)
            (ap (λ b. some (record a { base = b }, false)) s.base_is),
      )
      | inr within ↦
          let fits : begin + length block ≤ a.chunk_size = ground arith in
          let word : begin / a.sub_block_size / 32 < length a.completed_mask =
            omega (arith, slot_below a region begin s (omega arith), s.mask_fits) in
          inr (fits, rw (s.base_is, on_piece, e, within) (ground (arith, s.region_size, word)))
    ]

-- Every slot of the chunk is marked.
abbrev pub IsFull : ChunkAssembler → Type 0
IsFull a = (k : ℕ) → k < a.total_slots → marked a.completed_mask k ≡ 1

mark_slot_full :
    (a : ChunkAssembler) (k : ℕ)
    → marked a.completed_mask k ≡ 1
    → mark_slot a k ≡ (record a { completed_mask = mark a.completed_mask k }, false)
unfolding mark_slot
mark_slot_full a k m = rw (mask_test a.completed_mask k, m)

-- Nothing resets the mask: at an assembler of consistent sizes whose slots are all marked, a call with
-- a piece that has a byte at least and lies within the chunk does not report completion, and the
-- slots stay marked.
pub on_piece_stale :
    (a : ChunkAssembler) (region : List ℕ) (begin : ℕ) (block : List ℕ)
    → IsSized a region
    → IsFull a
    → 0 < length block
    → begin + length block ≤ a.chunk_size
    → (a' : ChunkAssembler) × (on_piece a begin block ≡ some (a', false)) × IsFull a'
on_piece_stale a region begin block s full some_byte fits =
    elim (on_piece_safe a region begin block s some_byte (omega (arith, s.size_lt))) [
      | inl (beyond, _) ↦ absurd (omega arith)
      | inr (_, e) ↦
          let k : ℕ = begin / a.sub_block_size in
          let kt : k < a.total_slots = slot_below a region begin s (omega arith) in
          let w : k / 32 < length a.completed_mask = omega (arith, s.mask_fits, kt) in
          (
            record a {
              base = some (blit region begin block);
              completed_mask = mark a.completed_mask k;
            },
            e
                ∙ ap some (
                    mark_slot_full (record a { base = some (blit region begin block) }) k
                      (full k kt)),
            λ j jt. elim (Bool-cases (k == j)) [
              | inl same ↦
                  let q : j ≡ k = ground arith in rw q (marked-mark_self a.completed_mask k w)
              | inr other ↦ marked-mark_ne a.completed_mask k j w (ground arith) ∙ full j jt
            ],
          )
    ]
