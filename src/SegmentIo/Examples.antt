-- ===== src/SegmentIo/Examples.antt =====
-- The address theorem at a file of three megabytes in segments of one megabyte.
use new_thinbt.Common.{ℕ, ◌*◌, ◌≡◌, refl, Option, some, none, arith, true}
use new_thinbt.SegmentIo.{SegmentWriter, FileAnswers, empty_writer, open_writer, get_chunk_base}
use new_thinbt.SegmentIo.Address.{
  IsMapped, chunk_address, get_chunk_base-address, open_writer-IsMapped,
}

-- A system that maps every range, the ranges far apart.
abbrev far_apart : ℕ → ℕ → Option ℕ
far_apart offset size = some (offset * 16)

abbrev answers : FileAnswers
answers = record {
  stat_size = none;
  open_succeeds = true;
  fallocate_succeeds = true;
  ftruncate_succeeds = true;
}

opened : SegmentWriter
opened = (open_writer empty_writer answers 3145728 4096).0

opened_well : (open_writer empty_writer answers 3145728 4096).1 ≡ true
unfolding open_writer
opened_well = refl

opened-IsMapped : IsMapped far_apart opened
unfolding opened
opened-IsMapped =
    open_writer-IsMapped far_apart answers 3145728 4096 (omega arith) (omega arith) opened_well

get_chunk_base-address_example :
    ((get_chunk_base far_apart opened 1048570 100).0 ≡ chunk_address far_apart opened 1048570)
    × IsMapped far_apart (get_chunk_base far_apart opened 1048570 100).1
    × ((get_chunk_base far_apart opened 1048570 100).1.file_size ≡ opened.file_size)
    × ((get_chunk_base far_apart opened 1048570 100).1.segment_size ≡ opened.segment_size)
get_chunk_base-address_example =
    get_chunk_base-address far_apart opened 1048570 100 opened-IsMapped (omega arith)
      (unfold opened open_writer empty_writer in omega arith) (omega arith)
