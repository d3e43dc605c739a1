-- ===== src/ChunkAssembler.antt =====
-- src/daemon/chunk_assembler.hpp and src/daemon/chunk_assembler.cpp: the assembly of one chunk from
-- its sub-blocks. The region that `base_` points to is the list of the chunk's bytes.
pub mod Mask
pub mod Completion
pub mod Assembly
pub mod Faults
mod Examples
use new_thinbt.Common.{
  ℕ, zero, suc, ◌+◌, ◌-◌, ◌*◌, ◌/◌, ◌%◌, ◌^◌, min, bit_and, bit_or, Bool, true, false, Option, none,
  some, List, [], ◌∷◌, length, get_or, set, replicate, blit, ltb, if◌then◌else◌, ◌==◌, u32_mod,
  dec32,
}

-- SUB_BLOCK_SIZE
abbrev pub sub_block_size_default : ℕ
sub_block_size_default = 16384

pub record ChunkCompleteMsg : Type 0 where
  pub chunk_idx : ℕ
  pub winning_peer_slot : ℕ

pub record SubBlock : Type 0 where
  pub begin : ℕ
  pub length : ℕ

-- `base` is `none` for a null pointer.
pub record ChunkAssembler : Type 0 where
  pub base : Option (List ℕ)
  pub chunk_size : ℕ
  pub sub_block_size : ℕ
  pub total_slots : ℕ
  pub completed_mask : List ℕ
  pub mask_words : ℕ
  pub pending_count : ℕ
  pub sub_blocks : List SubBlock

-- for (i = 0; i < total_slots_; i++): `n` rounds from `i` on.
unfoldable pub sub_block_list : ℕ → ℕ → ℕ → ℕ → List SubBlock
sub_block_list zero i chunk_size size = []
sub_block_list (suc n) i chunk_size size =
    record {
      begin = i * size % u32_mod;
      length = min size ((chunk_size + u32_mod - i * size % u32_mod) % u32_mod);
    }
    ∷ sub_block_list n (i + 1) chunk_size size

unfoldable pub init : Option (List ℕ) → ℕ → ℕ → ChunkAssembler
init base chunk_size size =
    let slots = (chunk_size + size + 4294967295) % u32_mod / size in
    let words = (slots + 31) % u32_mod / 32 in
    record {
      base = base;
      chunk_size = chunk_size;
      sub_block_size = size;
      total_slots = slots;
      completed_mask = replicate words 0;
      mask_words = words;
      pending_count = slots;
      sub_blocks = sub_block_list slots 0 chunk_size size;
    }

unfoldable pub is_complete : ChunkAssembler → Bool
is_complete a = a.pending_count == 0

-- completed_mask_[slot / 32].fetch_or(1u << slot % 32), and the counter behind it.
unfoldable pub mark_slot : ChunkAssembler → ℕ → ChunkAssembler × Bool
mark_slot a slot =
    let word = slot / 32 in
    let bit_mask = 2 ^ (slot % 32) in
    let old_mask = get_or a.completed_mask word 0 in
    let marked = record a {
      completed_mask = set a.completed_mask word (bit_or old_mask bit_mask);
    } in
    if bit_and old_mask bit_mask == 0
    then (record marked { pending_count = dec32 a.pending_count }, a.pending_count == 1)
    else (marked, false)

-- `none` is a write outside the region or outside the mask. The flag says that the chunk is
-- complete.
unfoldable pub on_piece : ChunkAssembler → ℕ → List ℕ → Option (ChunkAssembler × Bool)
on_piece a begin block = elim a.base [
  | none ↦ some (a, false)
  | some region ↦
      if ltb a.chunk_size ((begin + length block) % u32_mod)
      then some (a, false)
      else if ltb (length region) (begin + length block)
      then none
      else if ltb (begin / a.sub_block_size / 32) (length a.completed_mask)
      then some (
          mark_slot (record a { base = some (blit region begin block) }) (begin / a.sub_block_size))
      else none
]

-- Pieces in the order in which they arrive, and the flags that the calls return.
unfoldable pub on_pieces : ChunkAssembler → List (ℕ × List ℕ) → Option (ChunkAssembler × List Bool)
on_pieces a [] = some (a, [])
on_pieces a ((begin, block) ∷ pieces) = elim (on_piece a begin block) [
  | none ↦ none
  | some (a', done) ↦ elim (on_pieces a' pieces) [
    | none ↦ none
    | some (a'', flags) ↦ some (a'', done ∷ flags)
  ]
]
