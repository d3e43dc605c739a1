-- ===== src/ChunkAssembler/Assembly.antt =====
-- Whole histories of pieces for one chunk, from `init` on.
use native.Mathlib.Nat.{div-add-mod', mod-lt, div-le_self, div-lt_iff_lt-mul}
use new_thinbt.Common.{
  ℕ, ◌+◌, ◌-◌, ◌*◌, ◌/◌, ◌%◌, ◌≤◌, ◌<◌, min, ◌≡◌, ◌≢◌, refl, sym, ap, subst, ◌∙◌, ◌⊎◌, inl, inr,
  Bool, true, false, Option, some, List, [], ◌∷◌, length, map, length-replicate, list_ext,
  get_or-out, ltb, Bool-cases, u32_mod, arith, All,
}
use new_thinbt.ChunkAssembler.{ChunkAssembler, init, on_piece, on_pieces, is_complete}
use new_thinbt.ChunkAssembler.Mask.{
  marked, marked-zeros, unmarked-zeros, unmarked-eq-zero, unmarked-all,
}
use new_thinbt.ChunkAssembler.Completion.{IsAssembling, Progress, piece_of, count_true, piece_step}

-- Slot `k` is among the slots of a history.
abbrev pub Contains : ℕ → List ℕ → Type 0
Contains k [] = ⊥
Contains k (j ∷ ks) = (j ≡ k) ⊎ Contains k ks

abbrev pub AllBelow : ℕ → List ℕ → Type 0
AllBelow n ks = All (λ k. k < n) ks

-- What a history of pieces does to the mask and the counter.
record Ran (a a' : ChunkAssembler) (ks : List ℕ) (flags : List Bool) : Type 0 where
  reports : count_true flags + min 1 a'.pending_count ≡ min 1 a.pending_count
  marks : (k : ℕ) → Contains k ks → marked a'.completed_mask k ≡ 1
  keeps : (k : ℕ) → marked a.completed_mask k ≡ 1 → marked a'.completed_mask k ≡ 1
  only : (k : ℕ) → ¬ Contains k ks → marked a'.completed_mask k ≡ 1 → marked a.completed_mask k ≡ 1
  same_slots : a'.total_slots ≡ a.total_slots

abbrev Result : List ℕ → ChunkAssembler → ℕ → List ℕ → Type 0
Result whole a size ks =
    (a' : ChunkAssembler) × (flags : List Bool) × (region' : List ℕ) × (on_pieces a
        (map (piece_of whole size) ks)
      ≡ some (a', flags))
    × IsAssembling whole a' region'
    × Ran a a' ks flags

on_pieces_step :
    (a a' a'' : ChunkAssembler) (begin : ℕ) (block : List ℕ) (pieces : List (ℕ × List ℕ))
    (flag : Bool) (flags : List Bool)
    → on_piece a begin block ≡ some (a', flag)
    → on_pieces a' pieces ≡ some (a'', flags)
    → on_pieces a ((begin, block) ∷ pieces) ≡ some (a'', flag ∷ flags)
unfolding on_pieces
on_pieces_step a a' a'' begin block pieces flag flags e f = rw (e, on_pieces, f)

Ran-cons :
    (a a' a'' : ChunkAssembler) (k : ℕ) (ks : List ℕ) (flag : Bool) (flags : List Bool)
    → Progress a a' k flag
    → Ran a' a'' ks flags
    → Ran a a'' (k ∷ ks) (flag ∷ flags)
Ran-cons a a' a'' k ks flag flags p r = record {
  reports = omega (arith, p.reports, r.reports);
  marks = λ j c. elim c [
    | inl e ↦ r.keeps j (subst (λ x. marked a'.completed_mask x ≡ 1) e p.marks)
    | inr later ↦ r.marks j later
  ];
  keeps = λ j m. r.keeps j (p.keeps j m);
  only = λ j c m. p.only j (λ e. c (inl e)) (r.only j (λ later. c (inr later)) m);
  same_slots = r.same_slots ∙ p.same_slots;
}

run_pieces :
    (whole : List ℕ) (a : ChunkAssembler) (region : List ℕ) (size : ℕ) (ks : List ℕ)
    → IsAssembling whole a region
    → a.sub_block_size ≡ size
    → AllBelow a.total_slots ks
    → Result whole a size ks
unfolding on_pieces
run_pieces whole a region size [] inv e h = (
  a,
  [],
  region,
  refl,
  inv,
  record {
    reports = omega arith;
    marks = λ k c. absurd c;
    keeps = λ k m. m;
    only = λ k c m. m;
    same_slots = refl;
  },
)
run_pieces whole a region size (k ∷ ks) inv e h =
    let (a', flag, region', eq, inv', p) = piece_step whole a region size k inv e h.0 in
    let below : AllBelow a'.total_slots ks = rw p.same_slots h.1 in
    let (a'', flags, region'', eqs, inv'', r) =
      run_pieces whole a' region' size ks inv' (p.same_block ∙ e) below in
    (
      a'',
      flag ∷ flags,
      region'',
      on_pieces_step a a' a'' (k * size) _ (map (piece_of whole size) ks) flag flags eq eqs,
      inv'',
      Ran-cons a a' a'' k ks flag flags p r,
    )

-- The slots of a chunk of `n` bytes in sub-blocks of `size`.
abbrev pub slots_of : ℕ → ℕ → ℕ
slots_of n size = (n + size - 1) / size

slots_bounds :
    (n size : ℕ) → 0 < size → (n ≤ slots_of n size * size) × (slots_of n size * size < n + size)
slots_bounds n size pos = omega (arith, div-add-mod' (n + size - 1) size, mod-lt (n + size - 1) pos)

slots-le : (n size : ℕ) → 0 < size → slots_of n size ≤ n + size - 1
slots-le n size pos = div-le_self (n + size - 1) size

init-IsAssembling :
    (whole region : List ℕ) (size : ℕ)
    → 0 < size
    → length whole + size < 4294967200
    → length region ≡ length whole
    → IsAssembling whole (init (some region) (length whole) size) region
unfolding init
init-IsAssembling whole region size pos small n =
    let e : (length whole + size + 4294967295) % u32_mod ≡ length whole + size - 1 = omega arith in
    let slots : ℕ = slots_of (length whole) size in
    let few : slots ≤ length whole + size - 1 = slots-le (length whole) size pos in
    let words : ℕ = (slots + 31) % u32_mod / 32 in
    rw e (record {
      base_is = refl;
      size_is = refl;
      region_size = n;
      size_lt = omega arith;
      block_pos = pos;
      slots_cover = (slots_bounds (length whole) size pos).0;
      slots_start = (slots_bounds (length whole) size pos).1;
      mask_fits = rw (length-replicate {A = ℕ} words 0) (omega arith);
      slots_lt = omega arith;
      pending_is = sym (unmarked-zeros slots words);
      written = λ i _ m. absurd (omega (arith, m, marked-zeros words (i / size)));
    })

init-slots :
    (base : Option (List ℕ)) (n size : ℕ)
    → 0 < size
    → n + size < 4294967200
    → ((init base n size).total_slots ≡ slots_of n size)
      × ((init base n size).pending_count ≡ slots_of n size)
      × ((init base n size).sub_block_size ≡ size)
unfolding init
init-slots base n size pos small =
    let e : (n + size + 4294967295) % u32_mod ≡ n + size - 1 = omega arith in
    (ap (λ (t : ℕ). t / size) e, ap (λ (t : ℕ). t / size) e, refl)

fresh_mask :
    (base : Option (List ℕ)) (n size k : ℕ) → marked (init base n size).completed_mask k ≡ 0
unfolding init
fresh_mask base n size k =
    marked-zeros (((n + size + 4294967295) % u32_mod / size + 31) % u32_mod / 32) k

-- With every slot marked the memory holds the content.
all_marked :
    (whole : List ℕ) (a : ChunkAssembler) (region : List ℕ)
    → IsAssembling whole a region
    → ((k : ℕ) → k < a.total_slots → marked a.completed_mask k ≡ 1)
    → region ≡ whole
all_marked whole a region inv m = list_ext 0 region whole inv.region_size λ i.
    elim (Bool-cases (ltb i (length whole))) [
      | inl inside ↦
          let lt : i < length whole = ground arith in
          inv.written i lt (m (i / a.sub_block_size) (slot_below i lt))
      | inr beyond ↦
          get_or-out region i 0 (ground (arith, inv.region_size))
          ∙ sym (get_or-out whole i 0 (ground arith))
    ]
  where
    slot_below : (i : ℕ) → i < length whole → i / a.sub_block_size < a.total_slots
    slot_below i lt = (div-lt_iff_lt-mul inv.block_pos).1 (omega (arith, inv.slots_cover))

some_slot : (n size : ℕ) → 0 < size → 0 < n → 0 < slots_of n size
some_slot n size pos some_byte = grind (arith, slots_bounds n size pos)

-- A fresh assembler that is given the pieces of a chunk's content, in any order and with any
-- repetitions, accepts them all; if every slot is among them, the memory at the end is the content,
-- the assembler is complete, and exactly one call reported that. The chunk has a byte at least, the
-- sub-block size is positive, and both together are below 2 ^ 32 - 96.
pub assemble_complete :
    (whole region : List ℕ) (size : ℕ) (ks : List ℕ)
    → 0 < size
    → 0 < length whole
    → length whole + size < 4294967200
    → length region ≡ length whole
    → AllBelow (slots_of (length whole) size) ks
    → ((k : ℕ) → k < slots_of (length whole) size → Contains k ks)
    → (a : ChunkAssembler) × (flags : List Bool) × (on_pieces
          (init (some region) (length whole) size)
          (map (piece_of whole size) ks)
        ≡ some (a, flags))
      × (a.base ≡ some whole)
      × (is_complete a ≡ true)
      × (count_true flags ≡ 1)
unfolding is_complete
assemble_complete whole region size ks pos full small n below covers =
    let (slots, pending, block) = init-slots (some region) (length whole) size pos small in
    let (a, flags, region', eq, inv, ran) =
      run_pieces whole (init (some region) (length whole) size) region size ks
        (init-IsAssembling whole region size pos small n) block (rw slots below) in
    let total : a.total_slots ≡ slots_of (length whole) size = ran.same_slots ∙ slots in
    let m : (k : ℕ) → k < a.total_slots → marked a.completed_mask k ≡ 1 =
      λ k lt. ran.marks k (covers k (omega (arith, total, lt))) in
    let z : a.pending_count ≡ 0 = inv.pending_is ∙ unmarked-all a.total_slots a.completed_mask m in
    (
      a,
      flags,
      eq,
      inv.base_is ∙ ap some (all_marked whole a region' inv m),
      rw z,
      omega (arith, ran.reports, z, pending, some_slot (length whole) size pos full),
    )

-- A fresh assembler that is given pieces of a chunk's content, each the sub-block of a slot, is not
-- complete and has not reported completion as long as some slot is missing from this history; the
-- sub-block size is positive, and together with the chunk's length it is below 2 ^ 32 - 96.
pub assemble_incomplete :
    (whole region : List ℕ) (size : ℕ) (ks : List ℕ) (missing : ℕ)
    → 0 < size
    → length whole + size < 4294967200
    → length region ≡ length whole
    → AllBelow (slots_of (length whole) size) ks
    → missing < slots_of (length whole) size
    → ¬ Contains missing ks
    → (a : ChunkAssembler) × (flags : List Bool) × (on_pieces
          (init (some region) (length whole) size)
          (map (piece_of whole size) ks)
        ≡ some (a, flags))
      × (is_complete a ≡ false)
      × (count_true flags ≡ 0)
unfolding is_complete
assemble_incomplete whole region size ks missing pos small n below lt absent =
    let (slots, pending, block) = init-slots (some region) (length whole) size pos small in
    let (a, flags, region', eq, inv, ran) =
      run_pieces whole (init (some region) (length whole) size) region size ks
        (init-IsAssembling whole region size pos small n) block (rw slots below) in
    let total : a.total_slots ≡ slots_of (length whole) size = ran.same_slots ∙ slots in
    let left : a.pending_count ≢ 0 = λ z. init_unmarked (
      ran.only missing absent (
        unmarked-eq-zero a.total_slots a.completed_mask missing (sym inv.pending_is ∙ z)
          (omega (arith, total, lt)))) in
    (a, flags, eq, ground (arith, left), omega (arith, ran.reports, left))
  where
    init_unmarked : marked (init (some region) (length whole) size).completed_mask missing ≢ 1
    init_unmarked e =
        absurd (omega (arith, e, fresh_mask (some region) (length whole) size missing))
