-- ===== src/ChunkAssembler/Completion.antt =====
-- A chunk put together from the pieces of its own content, in any order and with any repetitions.
use native.Mathlib.Nat.{div-add-mod', mod-lt, mul-div_cancel, mod-eq_of_lt}
use new_thinbt.Common.{
  ℕ, ◌+◌, ◌-◌, ◌*◌, ◌/◌, ◌%◌, ◌^◌, ◌≤◌, ◌<◌, min, bit_or, ◌≡◌, ◌≢◌, refl, sym, ap, ◌∙◌, ◌⊎◌, inl,
  inr, Bool, true, false, some, List, [], ◌∷◌, length, get_or, take, drop, blit, length-blit,
  length-take, length-drop, length-set, get_or-blit_inside, get_or-blit_outside, get_or-take,
  get_or-drop, ltb, ◌==◌, Bool-cases, u32_mod, dec32, arith,
}
use new_thinbt.ChunkAssembler.{ChunkAssembler, mark_slot, on_piece}
use new_thinbt.ChunkAssembler.Mask.{
  marked, mark, marked-le-one, marked-mark_self, marked-mark_ne, mask_test, unmarked, unmarked-mark,
  unmarked-le,
}

-- The assembler `a` is at work on the chunk with content `whole`, and its memory holds `region`.
pub record IsAssembling (whole : List ℕ) (a : ChunkAssembler) (region : List ℕ) : Type 0 where
  pub base_is : a.base ≡ some region
  pub size_is : a.chunk_size ≡ length whole
  pub region_size : length region ≡ length whole
  pub size_lt : length whole < 4294967296
  pub block_pos : 0 < a.sub_block_size
  pub slots_cover : length whole ≤ a.total_slots * a.sub_block_size
  pub slots_start : a.total_slots * a.sub_block_size < length whole + a.sub_block_size
  pub mask_fits : a.total_slots ≤ 32 * length a.completed_mask
  pub slots_lt : a.total_slots < 4294967296
  pub pending_is : a.pending_count ≡ unmarked a.total_slots a.completed_mask
  pub written :
      (i : ℕ)
      → i < length whole
      → marked a.completed_mask (i / a.sub_block_size) ≡ 1
      → get_or region i 0 ≡ get_or whole i 0

abbrev pub to_nat : Bool → ℕ
to_nat true = 1
to_nat false = 0

-- How often the calls reported the chunk complete.
abbrev pub count_true : List Bool → ℕ
count_true [] = 0
count_true (b ∷ bs) = to_nat b + count_true bs

-- What the call for slot `k` does to the mask and the counter.
pub record Progress (a a' : ChunkAssembler) (k : ℕ) (flag : Bool) : Type 0 where
  pub reports : to_nat flag + min 1 a'.pending_count ≡ min 1 a.pending_count
  pub marks : marked a'.completed_mask k ≡ 1
  pub keeps : (j : ℕ) → marked a.completed_mask j ≡ 1 → marked a'.completed_mask j ≡ 1
  pub only : (j : ℕ) → k ≢ j → marked a'.completed_mask j ≡ 1 → marked a.completed_mask j ≡ 1
  pub same_slots : a'.total_slots ≡ a.total_slots
  pub same_block : a'.sub_block_size ≡ a.sub_block_size

-- The piece that a peer with the content sends for slot `k`.
abbrev pub piece_of : List ℕ → ℕ → ℕ → ℕ × List ℕ
piece_of whole size k = (k * size, take size (drop (k * size) whole))

below_next : (q k s : ℕ) → q < k → q * s + s ≤ k * s
below_next q k s h = grind arith

-- A position outside slot `k` lies before it or behind it.
outside_slot : (i k s n : ℕ) → 0 < s → n ≤ s → i / s ≢ k → (i < k * s) ⊎ (k * s + n ≤ i)
outside_slot i k s n pos le ne =
    let e : i / s * s + i % s ≡ i = div-add-mod' i s in
    let r : i % s < s = mod-lt i pos in
    elim (Bool-cases (ltb (i / s) k)) [
      | inl lt ↦ inl (omega (arith, below_next (i / s) k s (ground arith)))
      | inr ge ↦ inr (omega (arith, below_next k (i / s) s (ground arith)))
    ]

module _ (whole : List ℕ) (a : ChunkAssembler) (region : List ℕ) (k : ℕ) where
  block : List ℕ
  block = take a.sub_block_size (drop (k * a.sub_block_size) whole)

  length-block : length block ≡ min a.sub_block_size (length whole - k * a.sub_block_size)
  unfolding block
  length-block =
      length-take a.sub_block_size (drop (k * a.sub_block_size) whole)
      ∙ ap (min a.sub_block_size) (length-drop (k * a.sub_block_size) whole)

  module _ (inv : IsAssembling whole a region) (kt : k < a.total_slots) where
    open inv use {
      base_is, size_is, region_size, size_lt, block_pos, slots_start, mask_fits, written,
    }

    starts_inside : k * a.sub_block_size < length whole
    starts_inside = grind (arith, slots_start, kt)

    block_fits : k * a.sub_block_size + length block ≤ length whole
    block_fits = omega (arith, length-block, starts_inside)

    slot_is : k * a.sub_block_size / a.sub_block_size ≡ k
    slot_is = mul-div_cancel k block_pos

    after_write : ChunkAssembler
    after_write = record a { base = some (blit region (k * a.sub_block_size) block) }

    no_wrap : (k * a.sub_block_size + length block) % u32_mod ≡ k * a.sub_block_size + length block
    no_wrap = mod-eq_of_lt (omega (arith, block_fits, size_lt))

    word_fits : k / 32 < length a.completed_mask
    word_fits = omega (arith, mask_fits, kt)

    -- A piece for one of the slots is written and marked.
    on_piece_accepts : on_piece a (k * a.sub_block_size) block ≡ some (mark_slot after_write k)
    unfolding on_piece after_write
    on_piece_accepts =
        rw (base_is, on_piece, no_wrap, slot_is)
          (ground (arith, block_fits, word_fits, region_size, size_is))

    region' : List ℕ
    region' = blit region (k * a.sub_block_size) block

    -- Inside the piece the memory now holds the content; elsewhere it is as before.
    written_after :
        (i : ℕ)
        → i < length whole
        → marked (mark a.completed_mask k) (i / a.sub_block_size) ≡ 1
        → get_or region' i 0 ≡ get_or whole i 0
    unfolding region'
    written_after i lt m = elim (Bool-cases (i / a.sub_block_size == k)) [
      | inl same ↦
          let q : i / a.sub_block_size ≡ k = ground arith in
          let r : ℕ = i % a.sub_block_size in
          let split : k * a.sub_block_size + r ≡ i =
            ap (λ (t : ℕ). t * a.sub_block_size + r) (sym q) ∙ div-add-mod' i a.sub_block_size in
          let small : r < a.sub_block_size = mod-lt i block_pos in
          let inside : r < length block = omega (arith, length-block, split) in
          rw (← split) (
            get_or-blit_inside region (k * a.sub_block_size) block r 0
              (omega (arith, region_size, split)) inside
            ∙ unfold block in
              (get_or-take a.sub_block_size (drop (k * a.sub_block_size) whole) r 0 small
                ∙ get_or-drop (k * a.sub_block_size) whole r 0))
      | inr other ↦
          let ne : i / a.sub_block_size ≢ k = ground arith in
          get_or-blit_outside region (k * a.sub_block_size) block i 0 (
            outside_slot i k a.sub_block_size (length block) block_pos (omega (arith, length-block))
              ne)
          ∙ written i lt (
              sym (
                marked-mark_ne a.completed_mask k (i / a.sub_block_size) word_fits
                  (λ e. ne (sym e)))
              ∙ m)
    ]

    fresh_left : marked a.completed_mask k ≡ 0 → 0 < a.pending_count
    fresh_left z =
        omega (arith, inv.pending_is, unmarked-mark a.total_slots a.completed_mask k word_fits kt)

    few_left : a.pending_count < 4294967296
    few_left =
        omega (arith, inv.pending_is, inv.slots_lt, unmarked-le a.total_slots a.completed_mask)

    after_mark : ℕ → ChunkAssembler
    unfolding after_write
    after_mark n = record after_write {
      completed_mask = mark a.completed_mask k;
      pending_count = n;
    }

    after_mark-IsAssembling :
        (n : ℕ)
        → n ≡ unmarked a.total_slots (mark a.completed_mask k)
        → IsAssembling whole (after_mark n) region'
    unfolding after_mark region'
    after_mark-IsAssembling n e = record {
      base_is = refl;
      size_is = inv.size_is;
      region_size = length-blit region (k * a.sub_block_size) block ∙ region_size;
      size_lt = size_lt;
      block_pos = block_pos;
      slots_cover = inv.slots_cover;
      slots_start = slots_start;
      mask_fits =
          rw
            (length-set a.completed_mask (k / 32)
              (bit_or (get_or a.completed_mask (k / 32) 0) (2 ^ (k % 32))))
            mask_fits;
      slots_lt = inv.slots_lt;
      pending_is = e;
      written = written_after;
    }

    -- A slot that comes for the first time takes one off the counter, and the last one reports.
    mark_first :
        marked a.completed_mask k ≡ 0
        → mark_slot after_write k ≡ (after_mark (a.pending_count - 1), a.pending_count == 1)
    unfolding mark_slot after_mark
    mark_first z =
        let d : dec32 a.pending_count ≡ a.pending_count - 1 =
          omega (arith, fresh_left z, few_left) in
        rw (mask_test a.completed_mask k, z)
          (ap
            (λ (n : ℕ). (
              record after_write { completed_mask = mark a.completed_mask k; pending_count = n },
              a.pending_count == 1,
            ))
            d)

    -- A slot that comes again changes nothing but the memory, and does not report.
    mark_again :
        marked a.completed_mask k ≡ 1
        → mark_slot after_write k ≡ (after_mark a.pending_count, false)
    unfolding mark_slot after_mark
    mark_again m = rw (mask_test a.completed_mask k, m)

    after_mark-Progress :
        (n : ℕ) (flag : Bool)
        → to_nat flag + min 1 n ≡ min 1 a.pending_count
        → Progress a (after_mark n) k flag
    unfolding after_mark
    after_mark-Progress n flag e = record {
      reports = e;
      marks = marked-mark_self a.completed_mask k word_fits;
      keeps = λ j m. elim (Bool-cases (k == j)) [
        | inl same ↦
            let q : j ≡ k = ground arith in rw q (marked-mark_self a.completed_mask k word_fits)
        | inr other ↦ marked-mark_ne a.completed_mask k j word_fits (ground arith) ∙ m
      ];
      only = λ j ne m. sym (marked-mark_ne a.completed_mask k j word_fits ne) ∙ m;
      same_slots = refl;
      same_block = refl;
    }

    -- One piece of the content: the call succeeds and the assembly goes on.
    on_piece_step :
        (a' : ChunkAssembler) × (flag : Bool) × (on_piece a (k * a.sub_block_size) block
          ≡ some (a', flag))
        × IsAssembling whole a' region'
        × Progress a a' k flag
    on_piece_step = elim (Bool-cases (marked a.completed_mask k == 0)) [
      | inl z ↦
          let e : marked a.completed_mask k ≡ 0 = ground arith in
          (
            after_mark (a.pending_count - 1),
            a.pending_count == 1,
            on_piece_accepts ∙ ap some (mark_first e),
            after_mark-IsAssembling (a.pending_count - 1) (
                omega (
                  arith,
                  inv.pending_is,
                  unmarked-mark a.total_slots a.completed_mask k word_fits kt,
                )),
            after_mark-Progress (a.pending_count - 1) (a.pending_count == 1)
                (ground (arith, fresh_left e)),
          )
      | inr nz ↦
          let e : marked a.completed_mask k ≡ 1 =
            ground (arith, marked-le-one a.completed_mask k) in
          (
            after_mark a.pending_count,
            false,
            on_piece_accepts ∙ ap some (mark_again e),
            after_mark-IsAssembling a.pending_count (
                omega (
                  arith,
                  inv.pending_is,
                  unmarked-mark a.total_slots a.completed_mask k word_fits kt,
                )),
            after_mark-Progress a.pending_count false (omega arith),
          )
    ]

-- A piece of the content for any of the slots, on an assembler at work: the call succeeds, the
-- memory stays right, and the flag is raised exactly when the counter comes down to 0.
pub piece_step :
    (whole : List ℕ) (a : ChunkAssembler) (region : List ℕ) (size k : ℕ)
    → IsAssembling whole a region
    → a.sub_block_size ≡ size
    → k < a.total_slots
    → (a' : ChunkAssembler) × (flag : Bool) × (after : List ℕ) × (on_piece a
          (k * size)
          (take size (drop (k * size) whole))
        ≡ some (a', flag))
      × IsAssembling whole a' after
      × Progress a a' k flag
unfolding block
piece_step whole a region size k inv e kt =
    let (a', flag, eq, inv', p) = on_piece_step whole a region k inv kt in
    (
      a',
      flag,
      region' whole a region k inv kt,
      ap (λ (s : ℕ). on_piece a (k * s) (take s (drop (k * s) whole))) (sym e) ∙ eq,
      inv',
      p,
    )
