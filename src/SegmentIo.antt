-- ===== src/SegmentIo.antt =====
-- src/daemon/segment_io.hpp and src/daemon/segment_io.cpp, the Linux build: the output file, mapped
-- segment by segment. An address is a number. The answers of the operating system are parameters.
pub mod Address
mod Examples
use new_thinbt.Common.{
  ℕ, ◌+◌, ◌-◌, ◌*◌, ◌/◌, ◌%◌, min, Bool, true, false, not, Option, none, some, List, [], ◌∷◌, ltb,
  leb, if◌then◌else◌, ◌==◌, u32_mod, u64_mod,
}

-- MAX_CHUNK_SIZE
abbrev pub max_chunk_size : ℕ
max_chunk_size = 1048576

abbrev pub no_segment : ℕ
no_segment = 4294967295

pub record MappedSeg : Type 0 where
  pub start : ℕ
  pub size : ℕ

-- `is_open` is `fd_ >= 0`; `cached_seg` is the entry of the map that `cached_seg_` points to. An
-- entry is never changed while it is in the map.
pub record SegmentWriter : Type 0 where
  pub file_size : ℕ
  pub segment_size : ℕ
  pub segment_count : ℕ
  pub is_open : Bool
  pub mapped_segments : List (ℕ × MappedSeg)
  pub cached_seg_idx : ℕ
  pub cached_seg : Option MappedSeg

unfoldable pub empty_writer : SegmentWriter
empty_writer = record {
  file_size = 0;
  segment_size = 0;
  segment_count = 0;
  is_open = false;
  mapped_segments = [];
  cached_seg_idx = no_segment;
  cached_seg = none;
}

-- What the system answers to stat (the size, if the file is there), open, fallocate and ftruncate.
pub record FileAnswers : Type 0 where
  pub stat_size : Option ℕ
  pub open_succeeds : Bool
  pub fallocate_succeeds : Bool
  pub ftruncate_succeeds : Bool

unfoldable pub size_matches : Option ℕ → ℕ → Bool
size_matches none file_size = false
size_matches (some n) file_size = n == file_size

-- The descriptor that `open` ends with: whether there is one.
unfoldable pub open_file : FileAnswers → ℕ → Bool
open_file os file_size =
    if os.open_succeeds
    then if size_matches os.stat_size file_size
      then true
      else if os.fallocate_succeeds
      then true
      else os.ftruncate_succeeds
    else false

unfoldable pub open_writer : SegmentWriter → FileAnswers → ℕ → ℕ → SegmentWriter × Bool
unfolding open_file size_matches
open_writer w os file_size segment_size =
    let seg = (if ltb segment_size max_chunk_size then max_chunk_size else segment_size) in
    if file_size == 0 then (w, false) else (
      record w {
        file_size = file_size;
        segment_size = seg;
        segment_count = (file_size + seg + 18446744073709551615) % u64_mod / seg % u32_mod;
        is_open = open_file os file_size;
      },
      open_file os file_size,
    )

-- mapped_segments_.find(seg_idx)
unfoldable pub find_segment : ℕ → List (ℕ × MappedSeg) → Option MappedSeg
find_segment idx [] = none
find_segment idx ((i, seg) ∷ segs) = if i == idx then some seg else find_segment idx segs

unfoldable pub unmap_all : SegmentWriter → SegmentWriter
unmap_all w = record w { mapped_segments = []; cached_seg_idx = no_segment; cached_seg = none }

unfoldable pub close : SegmentWriter → SegmentWriter
unfolding unmap_all
close w = record (unmap_all w) {
  is_open = false;
  file_size = 0;
  segment_size = 0;
  segment_count = 0;
}

-- The guard at the end of `get_chunk_base`, and the address.
unfoldable pub address_in : SegmentWriter → ℕ → MappedSeg → ℕ → ℕ → Option ℕ
address_in w idx seg offset size =
    let offset_in_seg = offset - idx * w.segment_size in
    if ltb seg.size ((offset_in_seg + size) % u64_mod)
    then none
    else some (seg.start + offset_in_seg)

-- `mmap offset size` is the address at which the system maps that range of the file, if it does.
module _ (mmap : ℕ → ℕ → Option ℕ) where
  unfoldable pub map_size : SegmentWriter → ℕ → ℕ
  map_size w idx = min (w.segment_size + max_chunk_size) (w.file_size - idx * w.segment_size)

  unfoldable pub map_segment : SegmentWriter → ℕ → Option (MappedSeg × SegmentWriter)
  map_segment w idx = elim (mmap (idx * w.segment_size) (map_size w idx)) [
    | none ↦ none
    | some addr ↦
        let seg : MappedSeg = record { start = addr; size = map_size w idx } in
        some (seg, record w { mapped_segments = (idx, seg) ∷ w.mapped_segments })
  ]

  -- The entry of the segment, from the map or by mapping it, and the cache set to it.
  unfoldable pub fetch_segment : SegmentWriter → ℕ → Option (MappedSeg × SegmentWriter)
  fetch_segment w idx = elim (find_segment idx w.mapped_segments) [
    | some seg ↦ some (seg, record w { cached_seg_idx = idx; cached_seg = some seg })
    | none ↦ elim (map_segment w idx) [
      | none ↦ none
      | some (seg, w') ↦ some (seg, record w' { cached_seg_idx = idx; cached_seg = some seg })
    ]
  ]

  -- The second half of `get_chunk_base`: the segment from the cache or the map, and the address. A
  -- cache that holds the index but no entry would be a null dereference; it reads as a null pointer
  -- here, and `IsMapped` rules it out.
  unfoldable pub segment_address : SegmentWriter → ℕ → ℕ → ℕ → Option ℕ × SegmentWriter
  segment_address w seg_idx offset size =
      if seg_idx == w.cached_seg_idx
      then elim w.cached_seg [
        | none ↦ (none, w)
        | some seg ↦ (address_in w seg_idx seg offset size, w)
      ]
      else elim (fetch_segment w seg_idx) [
        | none ↦ (none, w)
        | some (seg, w') ↦ (address_in w' seg_idx seg offset size, w')
      ]

  -- `none` is a null pointer.
  unfoldable pub get_chunk_base : SegmentWriter → ℕ → ℕ → Option ℕ × SegmentWriter
  get_chunk_base w offset size =
      let seg_idx = offset / w.segment_size % u32_mod in
      if not w.is_open
      then (none, w)
      else if ltb w.file_size ((offset + size) % u64_mod)
      then (none, w)
      else if ltb max_chunk_size size
      then (none, w)
      else if leb w.segment_count seg_idx
      then (none, w)
      else segment_address w seg_idx offset size
