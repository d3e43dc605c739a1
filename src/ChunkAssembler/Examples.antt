-- ===== src/ChunkAssembler/Examples.antt =====
-- The assembly theorems at a chunk of five bytes in sub-blocks of two, and tests.
use new_thinbt.Common.{
  ℕ, zero, suc, ◌+◌, ◌/◌, ◌≤◌, ◌<◌, ◌≡◌, refl, inl, inr, ◌⊎◌, Bool, true, false, none, some, List,
  [], ◌∷◌, map, blit, arith,
}
use new_thinbt.Common.Bits.{bit}
use new_thinbt.ChunkAssembler.{
  ChunkAssembler, init, sub_block_list, mark_slot, on_piece, on_pieces, is_complete,
}
use new_thinbt.ChunkAssembler.Mask.{marked}
use new_thinbt.ChunkAssembler.Completion.{piece_of, count_true}
use new_thinbt.ChunkAssembler.Assembly.{
  AllBelow, Contains, slots_of, assemble_complete, assemble_incomplete,
}
use new_thinbt.ChunkAssembler.Faults.{
  IsSized, IsFull, on_piece_wraps, on_piece_safe, on_piece_stale,
}

abbrev content : List ℕ
content = 10 ∷ 20 ∷ 30 ∷ 40 ∷ 50 ∷ []

abbrev empty_region : List ℕ
empty_region = 0 ∷ 0 ∷ 0 ∷ 0 ∷ 0 ∷ []

fresh : ChunkAssembler
unfolding init sub_block_list
fresh = init (some empty_region) 5 2

fresh-IsSized : IsSized fresh empty_region
unfolding fresh
fresh-IsSized = record {
  base_is = refl;
  region_size = refl;
  size_lt = omega arith;
  block_pos = omega arith;
  slots_cover = omega arith;
  mask_fits = omega arith;
}

below_three : AllBelow (slots_of 5 2) (2 ∷ 0 ∷ 2 ∷ 1 ∷ [])
below_three = omega arith

covers_three : (k : ℕ) → k < 3 → Contains k (2 ∷ 0 ∷ 2 ∷ 1 ∷ [])
covers_three zero h = inr (inl refl)
covers_three (suc zero) h = inr (inr (inr (inl refl)))
covers_three (suc (suc zero)) h = inl refl
covers_three (suc (suc (suc k))) h = absurd (omega arith)

assemble_complete_example :
    (a : ChunkAssembler) × (flags : List Bool) × (on_pieces
        (init (some empty_region) 5 2)
        (map (piece_of content 2) (2 ∷ 0 ∷ 2 ∷ 1 ∷ []))
      ≡ some (a, flags))
    × (a.base ≡ some content)
    × (is_complete a ≡ true)
    × (count_true flags ≡ 1)
assemble_complete_example =
    assemble_complete content empty_region 2 (2 ∷ 0 ∷ 2 ∷ 1 ∷ []) (omega arith) (omega arith)
      (omega arith) refl below_three covers_three

not_one : ¬ Contains 1 (2 ∷ 0 ∷ [])
not_one (inl e) = omega arith
not_one (inr (inl e)) = omega arith
not_one (inr (inr e)) = e

assemble_incomplete_example :
    (a : ChunkAssembler) × (flags : List Bool) × (on_pieces
        (init (some empty_region) 5 2)
        (map (piece_of content 2) (2 ∷ 0 ∷ []))
      ≡ some (a, flags))
    × (is_complete a ≡ false)
    × (count_true flags ≡ 0)
assemble_incomplete_example =
    assemble_incomplete content empty_region 2 (2 ∷ 0 ∷ []) 1 (omega arith) (omega arith) refl
      (omega arith) (omega arith) not_one

on_piece_wraps_example : on_piece fresh 4294967294 (7 ∷ 7 ∷ []) ≡ none
on_piece_wraps_example =
    on_piece_wraps fresh empty_region 4294967294 (7 ∷ 7 ∷ []) fresh-IsSized (omega arith)
      (unfold fresh in omega arith)

on_piece_safe_example :
    ((fresh.chunk_size < 4 + 1) × (on_piece fresh 4 (50 ∷ []) ≡ some (fresh, false)))
    ⊎ ((4 + 1 ≤ fresh.chunk_size)
        × (on_piece fresh 4 (50 ∷ [])
            ≡ some (
                mark_slot
                  (record fresh { base = some (blit empty_region 4 (50 ∷ [])) })
                  (4 / fresh.sub_block_size))))
on_piece_safe_example =
    on_piece_safe fresh empty_region 4 (50 ∷ []) fresh-IsSized (omega arith) (omega arith)

full : ChunkAssembler
unfolding fresh
full = record fresh { completed_mask = 7 ∷ []; pending_count = 0 }

full-IsSized : IsSized full empty_region
unfolding full
full-IsSized = record {
  base_is = refl;
  region_size = refl;
  size_lt = omega arith;
  block_pos = omega arith;
  slots_cover = omega arith;
  mask_fits = omega arith;
}

full-IsFull : IsFull full
unfolding full marked bit
full-IsFull zero h = refl
full-IsFull (suc zero) h = refl
full-IsFull (suc (suc zero)) h = refl
full-IsFull (suc (suc (suc k))) h = absurd (omega arith)

on_piece_stale_example :
    (a' : ChunkAssembler) × (on_piece full 0 (1 ∷ 2 ∷ []) ≡ some (a', false)) × IsFull a'
on_piece_stale_example =
    on_piece_stale full empty_region 0 (1 ∷ 2 ∷ []) full-IsSized full-IsFull (omega arith)
      (unfold full in omega arith)

-- An offset at the very end with no bytes behind it marks a slot that the chunk does not have.
phantom_slot :
    on_piece (init (some (1 ∷ 2 ∷ 3 ∷ 4 ∷ [])) 4 2) 4 []
    ≡ some (
      record (init (some (1 ∷ 2 ∷ 3 ∷ 4 ∷ [])) 4 2) { completed_mask = 4 ∷ []; pending_count = 1 },
      false,
    )
unfolding init on_piece mark_slot blit sub_block_list
phantom_slot = refl
