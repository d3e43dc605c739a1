-- ===== src/SegmentIo/Address.antt =====
-- What `get_chunk_base` of src/daemon/segment_io.cpp returns, whatever was asked before.
use mathlib.Core.Option
use native.Mathlib.Nat.{div-add-mod', mod-lt, mod-eq_of_lt, div-lt_iff_lt-mul}
use new_thinbt.Common.{
  ℕ, ◌+◌, ◌-◌, ◌*◌, ◌/◌, ◌%◌, ◌≤◌, ◌<◌, ◌≡◌, ◌≢◌, refl, sym, ap, subst, inl, inr, true, Option,
  none, some, ◌∷◌, ltb, ◌==◌, if◌then◌else◌, Bool-cases, Option-cases, u32_mod, u64_mod, arith,
}
use new_thinbt.SegmentIo.{
  MappedSeg, SegmentWriter, FileAnswers, max_chunk_size, empty_writer, open_writer, find_segment,
  map_size, map_segment, fetch_segment, address_in, segment_address, get_chunk_base,
}

module _ (mmap : ℕ → ℕ → Option ℕ) where
  -- The address that a chunk's bytes should have: where the system maps the segment that holds its
  -- first byte, plus the offset in that segment.
  abbrev pub chunk_address : SegmentWriter → ℕ → Option ℕ
  chunk_address w offset =
      let idx = offset / w.segment_size in
      Option.map (λ start. start + (offset - idx * w.segment_size))
        (mmap (idx * w.segment_size) (map_size mmap w idx))

  -- `seg` is what the system gave for segment `idx`.
  abbrev pub IsSegment : SegmentWriter → ℕ → MappedSeg → Type 0
  IsSegment w idx seg =
      (mmap (idx * w.segment_size) (map_size mmap w idx) ≡ some seg.start)
      × (seg.size ≡ map_size mmap w idx)

  -- An open writer: the sizes that `open` set, and a map and a cache that hold what was mapped.
  pub record IsMapped (w : SegmentWriter) : Type 0 where
    pub opened : w.is_open ≡ true
    pub file_lt : w.file_size + w.segment_size + 1048576 < 18446744073709551616
    pub segment_ge : 1048576 ≤ w.segment_size
    pub count_lt : w.segment_count < 4294967295
    pub count_is : w.segment_count ≡ (w.file_size + w.segment_size - 1) / w.segment_size
    pub entries :
        (idx : ℕ) (seg : MappedSeg)
        → find_segment idx w.mapped_segments ≡ some seg
        → IsSegment w idx seg
    pub cached :
        w.cached_seg_idx ≢ 4294967295
        → (seg : MappedSeg) × (w.cached_seg ≡ some seg)
          × (find_segment w.cached_seg_idx w.mapped_segments ≡ some seg)

  module _ (w : SegmentWriter) (m : IsMapped w) (offset size : ℕ) (some_byte : 0 < size)
      (within : offset + size ≤ w.file_size) (small : size ≤ 1048576) where
    seg_idx : ℕ
    seg_idx = offset / w.segment_size

    pos : 0 < w.segment_size
    pos = omega (arith, m.segment_ge)

    split : seg_idx * w.segment_size + offset % w.segment_size ≡ offset
    unfolding seg_idx
    split = div-add-mod' offset w.segment_size

    rem_lt : offset % w.segment_size < w.segment_size
    rem_lt = mod-lt offset pos

    idx_lt : seg_idx < w.segment_count
    unfolding seg_idx
    idx_lt =
        let e : w.segment_count * w.segment_size
            ≡ (w.file_size + w.segment_size - 1) / w.segment_size * w.segment_size =
          ap (λ (t : ℕ). t * w.segment_size) m.count_is in
        (div-lt_iff_lt-mul pos).1 (
          omega (
            arith,
            e,
            div-add-mod' (w.file_size + w.segment_size - 1) w.segment_size,
            mod-lt (w.file_size + w.segment_size - 1) pos,
          ))

    idx_is : offset / w.segment_size % u32_mod ≡ seg_idx
    unfolding seg_idx
    idx_is = mod-eq_of_lt (omega (arith, idx_lt, m.count_lt))

    address : Option ℕ
    address = chunk_address w offset

    -- The guard lets every chunk through: the segment is mapped far enough behind its end.
    address_in-segment :
        (seg : MappedSeg) → IsSegment w seg_idx seg → address_in w seg_idx seg offset size ≡ address
    unfolding address_in address map_size seg_idx
    address_in-segment seg (there, big) =
        let fits : offset - seg_idx * w.segment_size + size ≤ seg.size =
          omega (arith, big, split, rem_lt) in
        let narrow : (offset - seg_idx * w.segment_size + size) % u64_mod
            ≡ offset - seg_idx * w.segment_size + size =
          mod-eq_of_lt (omega (arith, m.file_lt, split)) in
        rw (narrow, there) (ground (arith, fits))

    -- The writer after a call: the same file, still in order.
    abbrev Goes : Option ℕ × SegmentWriter → Type 0
    Goes r =
        (r.0 ≡ address)
        × IsMapped r.1
        × (r.1.file_size ≡ w.file_size)
        × (r.1.segment_size ≡ w.segment_size)

    cached_case :
        (seg : MappedSeg)
        → find_segment seg_idx w.mapped_segments ≡ some seg
        → Goes (address_in w seg_idx seg offset size, w)
    cached_case seg found = (address_in-segment seg (m.entries seg_idx seg found), m, refl, refl)

    -- Setting the cache to an entry of the map keeps the writer in order.
    abbrev recached : SegmentWriter → MappedSeg → SegmentWriter
    recached v seg = record v { cached_seg_idx = seg_idx; cached_seg = some seg }

    found_case :
        (seg : MappedSeg)
        → find_segment seg_idx w.mapped_segments ≡ some seg
        → Goes (address_in (recached w seg) seg_idx seg offset size, recached w seg)
    unfolding address_in
    found_case seg found = (
      unfold address_in in address_in-segment seg (m.entries seg_idx seg found),
      record {
        opened = m.opened;
        file_lt = m.file_lt;
        segment_ge = m.segment_ge;
        count_lt = m.count_lt;
        count_is = m.count_is;
        entries = unfold map_size in m.entries;
        cached = λ _. (seg, refl, found);
      },
      refl,
      refl,
    )

    -- Mapping the segment adds what the system gave.
    mapped : MappedSeg → SegmentWriter
    mapped seg = record w {
      mapped_segments = (seg_idx, seg) ∷ w.mapped_segments;
      cached_seg_idx = seg_idx;
      cached_seg = some seg;
    }

    mapped-entries :
        (seg : MappedSeg)
        → IsSegment w seg_idx seg
        → (idx : ℕ) (s : MappedSeg) → find_segment idx (mapped seg).mapped_segments ≡ some s
        → IsSegment (mapped seg) idx s
    unfolding mapped find_segment map_size
    mapped-entries seg new idx s e = elim (Bool-cases (seg_idx == idx)) [
      | inl same ↦
          let q : idx ≡ seg_idx = ground arith in
          let r : some seg ≡ some s = rw same at e in
          let here : seg ≡ s = cc r in
          subst (λ x. IsSegment w x s) (sym q) (subst (IsSegment w seg_idx) here new)
      | inr other ↦ m.entries idx s (rw other at e)
    ]

    mapped_case :
        (seg : MappedSeg)
        → IsSegment w seg_idx seg
        → Goes (address_in (mapped seg) seg_idx seg offset size, mapped seg)
    mapped_case seg new = (
      unfold address_in mapped in address_in-segment seg new,
      record {
        opened = unfold mapped in m.opened;
        file_lt = unfold mapped in m.file_lt;
        segment_ge = unfold mapped in m.segment_ge;
        count_lt = unfold mapped in m.count_lt;
        count_is = unfold mapped in m.count_is;
        entries = mapped-entries seg new;
        cached = unfold mapped find_segment in λ _. (seg, refl, ground arith);
      },
      unfold mapped in refl,
      unfold mapped in refl,
    )

    fetch_found :
        (seg : MappedSeg)
        → find_segment seg_idx w.mapped_segments ≡ some seg
        → fetch_segment mmap w seg_idx ≡ some (seg, recached w seg)
    unfolding fetch_segment
    fetch_found seg found = rw (found, fetch_segment)

    no_address : mmap (seg_idx * w.segment_size) (map_size mmap w seg_idx) ≡ none → address ≡ none
    unfolding address seg_idx
    no_address gone = rw gone

    fetch_none :
        find_segment seg_idx w.mapped_segments ≡ none
        → mmap (seg_idx * w.segment_size) (map_size mmap w seg_idx) ≡ none
        → fetch_segment mmap w seg_idx ≡ none
    unfolding fetch_segment map_segment
    fetch_none miss gone = rw (miss, fetch_segment, gone, map_segment)

    fetch_case :
        find_segment seg_idx w.mapped_segments ≡ none
        → (start : ℕ) → mmap (seg_idx * w.segment_size) (map_size mmap w seg_idx) ≡ some start
        → fetch_segment mmap w seg_idx
          ≡ some (
            record { start = start; size = map_size mmap w seg_idx },
            mapped (record { start = start; size = map_size mmap w seg_idx }),
          )
    unfolding fetch_segment map_segment mapped
    fetch_case miss start there = rw (miss, fetch_segment, there, map_segment)

    tests_pass : get_chunk_base mmap w offset size ≡ segment_address mmap w seg_idx offset size
    unfolding get_chunk_base
    tests_pass =
        let e : (offset + size) % u64_mod ≡ offset + size =
          mod-eq_of_lt (omega (arith, m.file_lt)) in
        ground (arith, m.opened, e, idx_is, idx_lt)

    segment_address-Goes : Goes (segment_address mmap w seg_idx offset size)
    unfolding segment_address
    segment_address-Goes = elim (Bool-cases (seg_idx == w.cached_seg_idx)) [
      | inl hit ↦
          let q : w.cached_seg_idx ≡ seg_idx = ground arith in
          let (seg, cached, found) = m.cached (omega (arith, q, idx_lt, m.count_lt)) in
          rw (hit, cached)
            (cached_case seg (subst (λ x. find_segment x w.mapped_segments ≡ some seg) q found))
      | inr miss ↦ rw miss (elim (Option-cases (find_segment seg_idx w.mapped_segments)) [
        | inr (seg, found) ↦ rw (fetch_found seg found) (found_case seg found)
        | inl absent ↦
            elim (Option-cases (mmap (seg_idx * w.segment_size) (map_size mmap w seg_idx))) [
              | inl gone ↦ rw (fetch_none absent gone) (sym (no_address gone), m, refl, refl)
              | inr (start, there) ↦ rw (fetch_case absent start there) (
                  mapped_case (record { start = start; size = map_size mmap w seg_idx })
                    (there, refl))
            ]
      ])
    ]

  -- For every chunk of 1 byte to 1 MiB that lies in the file, an open writer answers with the address
  -- at which the system maps the segment of the chunk's first byte plus the offset in it, or with a
  -- null pointer if the system does not map that segment: the answer does not depend on the cache,
  -- on what was mapped before, or on where the chunk ends, and the writer stays in order.
  pub get_chunk_base-address :
      (w : SegmentWriter) (offset size : ℕ)
      → IsMapped w
      → 0 < size
      → offset + size ≤ w.file_size
      → size ≤ 1048576
      → ((get_chunk_base mmap w offset size).0 ≡ chunk_address w offset)
        × IsMapped (get_chunk_base mmap w offset size).1
        × ((get_chunk_base mmap w offset size).1.file_size ≡ w.file_size)
        × ((get_chunk_base mmap w offset size).1.segment_size ≡ w.segment_size)
  unfolding address
  get_chunk_base-address w offset size m some_byte within small =
      rw (tests_pass w m offset size some_byte within small)
        (segment_address-Goes w m offset size some_byte within small)

  -- The writer that `open` leaves, for a segment size `g` after its correction.
  laid_out : ℕ → ℕ → SegmentWriter
  unfolding empty_writer
  laid_out file_size g = record empty_writer {
    file_size = file_size;
    segment_size = g;
    segment_count = (file_size + g + 18446744073709551615) % u64_mod / g % u32_mod;
    is_open = true;
  }

  laid_out-IsMapped :
      (file_size g : ℕ)
      → file_size < 1125899906842624
      → 1048576 ≤ g
      → g < 4294967296
      → IsMapped (laid_out file_size g)
  unfolding laid_out
  laid_out-IsMapped file_size g f lo hi =
      let pos : 0 < g = omega arith in
      let e : (file_size + g + 18446744073709551615) % u64_mod ≡ file_size + g - 1 = omega arith in
      let few : (file_size + g - 1) / g < 4294967295 = (div-lt_iff_lt-mul pos).1 (omega arith) in
      let c : (file_size + g - 1) / g % u32_mod ≡ (file_size + g - 1) / g =
        mod-eq_of_lt (omega (arith, few)) in
      record {
        opened = refl;
        file_lt = omega arith;
        segment_ge = lo;
        count_lt = rw (e, c) few;
        count_is = rw e c;
        entries = λ idx seg h. absurd (unfold empty_writer find_segment in cc h);
        cached = λ h. absurd (unfold empty_writer in h refl);
      }

  open_writer-laid_out :
      (os : FileAnswers) (file_size segment_size : ℕ)
      → (open_writer empty_writer os file_size segment_size).1 ≡ true
      → (open_writer empty_writer os file_size segment_size).0
        ≡ laid_out file_size
            (if ltb segment_size max_chunk_size then max_chunk_size else segment_size)
  unfolding open_writer laid_out
  open_writer-laid_out os file_size segment_size opened = ground arith

  -- A writer that `open` has opened is in order, for files below 2 ^ 50 bytes and a 32-bit segment
  -- size.
  pub open_writer-IsMapped :
      (os : FileAnswers) (file_size segment_size : ℕ)
      → file_size < 1125899906842624
      → segment_size < 4294967296
      → (open_writer empty_writer os file_size segment_size).1 ≡ true
      → IsMapped (open_writer empty_writer os file_size segment_size).0
  open_writer-IsMapped os file_size segment_size f s opened =
      rw (open_writer-laid_out os file_size segment_size opened) (
        laid_out-IsMapped file_size
          (if ltb segment_size max_chunk_size then max_chunk_size else segment_size) f
          (ground arith) (ground arith))
