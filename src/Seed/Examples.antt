-- ===== src/Seed/Examples.antt =====
-- The round trip at a seed file with one chunk, and a test of the old byte order.
use new_thinbt.Common.{ℕ, ◌≡◌, refl, List, [], ◌∷◌, ◌++◌, replicate, drop, some, none, arith}
use new_thinbt.Seed.{
  ChunkEntry, ok, err, cannot_open, read_tseed, write_tseed, seed_header, compute_info_hash,
}
use new_thinbt.Seed.RoundTrip.{IsWritable, read-write_tseed, info_hash-write_tseed}

-- A stand-in for the digest.
abbrev same_bytes : List ℕ → List ℕ
same_bytes bs = bs

abbrev one_chunk : List ChunkEntry
one_chunk = record { offset = 0; length = 4096; sha256 = replicate 32 7 } ∷ []

abbrev digest : List ℕ
digest = replicate 32 9

one_chunk-IsWritable : IsWritable digest (97 ∷ 98 ∷ []) (99 ∷ []) one_chunk 16 64 256
one_chunk-IsWritable = record {
  digest_size = refl;
  name_lt = omega arith;
  url_lt = omega arith;
  count_lt = omega arith;
  chunks_fit =
      (record { offset_lt = omega arith; length_lt = omega arith; sha256_size = refl }, tt);
  min_lt = omega arith;
  avg_lt = omega arith;
  max_lt = omega arith;
}

read-write_tseed_example :
    read_tseed same_bytes
      (some (write_tseed digest (97 ∷ 98 ∷ []) (99 ∷ []) one_chunk 16 64 256 ++ 1 ∷ []))
    ≡ ok (record {
      header = seed_header digest (97 ∷ 98 ∷ []) (99 ∷ []) one_chunk 16 64 256;
      file_name = 97 ∷ 98 ∷ [];
      announce_url = 99 ∷ [];
      chunks = one_chunk;
      info_hash =
          compute_info_hash same_bytes
            (seed_header digest (97 ∷ 98 ∷ []) (99 ∷ []) one_chunk 16 64 256)
            one_chunk;
    })
read-write_tseed_example =
    read-write_tseed same_bytes digest (97 ∷ 98 ∷ []) (99 ∷ []) one_chunk 16 64 256 (1 ∷ [])
      one_chunk-IsWritable

info_hash-write_tseed_example :
    compute_info_hash same_bytes
      (seed_header digest (97 ∷ 98 ∷ []) (99 ∷ []) one_chunk 16 64 256)
      one_chunk
    ≡ digest
      ++ drop 1 (drop 2 (drop 92 (write_tseed digest (97 ∷ 98 ∷ []) (99 ∷ []) one_chunk 16 64 256)))
info_hash-write_tseed_example =
    info_hash-write_tseed same_bytes digest (97 ∷ 98 ∷ []) (99 ∷ []) one_chunk 16 64 256
      one_chunk-IsWritable

no_file : read_tseed same_bytes none ≡ err cannot_open
unfolding read_tseed
no_file = refl
