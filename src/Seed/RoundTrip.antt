-- ===== src/Seed/RoundTrip.antt =====
-- A seed file that `write_tseed` wrote, read back by `read_tseed`.
use native.Mathlib.Nat.{mod-eq_of_lt}
use new_thinbt.Common.{
  ℕ, ◌<◌, ◌≡◌, refl, sym, ap, ◌∙◌, true, false, some, List, [], ◌∷◌, ◌++◌, append_assoc, append-nil,
  length, length-append, drop, take_all, take-append_left, drop-append_left, All, ◌==◌, arith,
}
use new_thinbt.Common.Bytes.{byte_swap, le_bytes}
use new_thinbt.Seed.{
  TSeedHeader, ChunkEntry, TSeedFile, ok, tseed_magic, header_bytes, chunk_bytes,
  header_to_network_endian, chunk_to_network_endian, read_exact, read_chunks, settle_header,
  read_tseed, compute_info_hash, hash_entries, chunks_section, total_file_size, seed_header,
  write_tseed,
}
use new_thinbt.Seed.Layout.{
  IsHeader, IsChunk, load-header_bytes, load-chunk_bytes, length-header_bytes, length-chunk_bytes,
  header_to_host-to_network, network-IsHeader, chunk_to_host-to_network, network-IsChunk,
}

read_exact-append :
    (n : ℕ) (xs rest : List ℕ) → length xs ≡ n → read_exact n (xs ++ rest) ≡ ok (xs, rest)
unfolding read_exact
read_exact-append n xs rest h =
    rw (take-append_left n xs rest h, drop-append_left n xs rest h)
      (ground (arith, length-append xs rest))

read-chunks_section :
    (cs : List ChunkEntry) (rest : List ℕ)
    → All IsChunk cs
    → read_chunks true (length cs) (chunks_section cs ++ rest) ≡ ok (cs, rest)
unfolding read_chunks chunks_section
read-chunks_section [] rest h = refl
read-chunks_section (c ∷ cs) rest h = rw (
  append_assoc (chunk_bytes (chunk_to_network_endian c)) (chunks_section cs) rest,
  read_exact-append 44 (chunk_bytes (chunk_to_network_endian c)) (chunks_section cs ++ rest)
      (length-chunk_bytes (chunk_to_network_endian c) (network-IsChunk c h.0)),
  read-chunks_section cs rest h.1,
  load-chunk_bytes (chunk_to_network_endian c) (network-IsChunk c h.0),
  chunk_to_host-to_network c h.0,
)

total_file_size-lt :
    (cs : List ChunkEntry) (total : ℕ)
    → total < 18446744073709551616
    → total_file_size cs total < 18446744073709551616
unfolding total_file_size
total_file_size-lt [] total h = h
total_file_size-lt (c ∷ cs) total h = total_file_size-lt cs _ (ground arith)

magic_differs : (byte_swap 4 tseed_magic == tseed_magic) ≡ false
unfolding byte_swap
magic_differs = refl

settle_network :
    (h : TSeedHeader)
    → IsHeader h
    → h.magic ≡ tseed_magic
    → settle_header (header_to_network_endian h) ≡ ok (true, h)
unfolding settle_header
settle_network h p m =
    let swapped : ((header_to_network_endian h).magic == tseed_magic) ≡ false =
      unfold header_to_network_endian in rw m magic_differs in
    rw (swapped, header_to_host-to_network h p, m) (ground arith)

-- What the arguments of the writer must satisfy for its integers to hold them.
pub record IsWritable (file_digest file_name announce_url : List ℕ) (chunks : List ChunkEntry)
    (lo avg hi : ℕ) : Type 0 where
  pub digest_size : length file_digest ≡ 32
  pub name_lt : length file_name < 4294967296
  pub url_lt : length announce_url < 4294967296
  pub count_lt : length chunks < 4294967296
  pub chunks_fit : All IsChunk chunks
  pub min_lt : lo < 4294967296
  pub avg_lt : avg < 4294967296
  pub max_lt : hi < 4294967296

module _ (file_digest file_name announce_url : List ℕ) (chunks : List ChunkEntry) (lo avg hi : ℕ)
    (w : IsWritable file_digest file_name announce_url chunks lo avg hi) where
  header : TSeedHeader
  header = seed_header file_digest file_name announce_url chunks lo avg hi

  header-IsHeader : IsHeader header
  unfolding header seed_header
  header-IsHeader = record {
    magic_lt = omega arith;
    version_lt = omega arith;
    flags_lt = omega arith;
    chunk_count_lt = omega arith;
    file_size_lt = total_file_size-lt chunks 0 (omega arith);
    min_lt = w.min_lt;
    avg_lt = w.avg_lt;
    max_lt = w.max_lt;
    file_name_len_lt = omega arith;
    announce_len_lt = omega arith;
    reserved_size = refl;
    sha256_size = w.digest_size;
  }

  -- What the reader should deliver.
  written_file : (List ℕ → List ℕ) → TSeedFile
  written_file sha1 = record {
    header = header;
    file_name = file_name;
    announce_url = announce_url;
    chunks = chunks;
    info_hash = compute_info_hash sha1 header chunks;
  }

  name_len : header.file_name_len ≡ length file_name
  unfolding header seed_header
  name_len = mod-eq_of_lt w.name_lt

  url_len : header.announce_len ≡ length announce_url
  unfolding header seed_header
  url_len = mod-eq_of_lt w.url_lt

  chunk_len : header.chunk_count ≡ length chunks
  unfolding header seed_header
  chunk_len = mod-eq_of_lt w.count_lt

  flat :
      (rest : List ℕ)
      → write_tseed file_digest file_name announce_url chunks lo avg hi ++ rest
        ≡ header_bytes (header_to_network_endian header)
          ++ (file_name ++ (announce_url ++ (chunks_section chunks ++ rest)))
  unfolding write_tseed header
  flat rest = simp append_assoc

  version_is : header.version ≡ 1
  unfolding header seed_header
  version_is = refl

  read-write :
      (sha1 : List ℕ → List ℕ) (rest : List ℕ)
      → read_tseed sha1
          (some (write_tseed file_digest file_name announce_url chunks lo avg hi ++ rest))
        ≡ ok (written_file sha1)
  unfolding read_tseed written_file
  read-write sha1 rest =
      let net : IsHeader (header_to_network_endian header) =
        network-IsHeader header header-IsHeader in
      rw (
        flat rest,
        read_exact-append 92 (header_bytes (header_to_network_endian header))
            (file_name ++ (announce_url ++ (chunks_section chunks ++ rest)))
            (length-header_bytes (header_to_network_endian header) net),
        load-header_bytes (header_to_network_endian header) net,
        settle_network header header-IsHeader (unfold header seed_header in refl),
        name_len,
        read_exact-append (length file_name) file_name
            (announce_url ++ (chunks_section chunks ++ rest)) refl,
        url_len,
        read_exact-append (length announce_url) announce_url (chunks_section chunks ++ rest) refl,
        chunk_len,
        read-chunks_section chunks rest w.chunks_fit,
        version_is,
      )

-- A seed file that the writer made, also with more bytes behind it, is read back by the reader as
-- the same header in host order, the same name, URL and chunk entries, and the info hash of these.
-- The digest has 32 bytes, the lengths and the chunk count fit 32 bits, and every integer of a chunk
-- entry fits its field.
pub read-write_tseed :
    (sha1 : List ℕ → List ℕ) (file_digest file_name announce_url : List ℕ)
    (chunks : List ChunkEntry) (lo avg hi : ℕ) (rest : List ℕ)
    → IsWritable file_digest file_name announce_url chunks lo avg hi
    → let header = seed_header file_digest file_name announce_url chunks lo avg hi in
      read_tseed sha1
        (some (write_tseed file_digest file_name announce_url chunks lo avg hi ++ rest))
      ≡ ok (record {
        header = header;
        file_name = file_name;
        announce_url = announce_url;
        chunks = chunks;
        info_hash = compute_info_hash sha1 header chunks;
      })
unfolding header written_file
read-write_tseed sha1 file_digest file_name announce_url chunks lo avg hi rest w =
    read-write file_digest file_name announce_url chunks lo avg hi w sha1 rest

drop_header :
    (h : TSeedHeader) (rest : List ℕ) → IsHeader h → drop 92 (header_bytes h ++ rest) ≡ rest
drop_header h rest p = drop-append_left 92 (header_bytes h) rest (length-header_bytes h p)

-- The two loops over the chunk entries give the same bytes: `compute_info_hash` inserts behind what
-- the buffer has the section that `write_tseed` writes.
hash_entries-section :
    (cs : List ChunkEntry) (buf : List ℕ)
    → All IsChunk cs
    → hash_entries buf cs ≡ buf ++ chunks_section cs
unfolding hash_entries chunks_section chunk_bytes chunk_to_network_endian
hash_entries-section [] buf fit = sym (append-nil buf)
hash_entries-section (c ∷ cs) buf fit =
    hash_entries-section cs _ fit.1
    ∙ append_assoc buf _ (chunks_section cs)
    ∙ ap
        (λ digest.
          buf
          ++ ((le_bytes 8 (byte_swap 8 c.offset) ++ (le_bytes 4 (byte_swap 4 c.length) ++ digest))
              ++ chunks_section cs))
        (take_all 32 c.sha256 fit.0.sha256_size)

-- The info hash that the reader computes from the chunks covers exactly the digest and the chunk
-- entries as the writer, which has a loop of its own, puts them into the file: where the lengths and
-- integers fit their fields, it is the SHA-1 of the 32 bytes of the file's digest followed by what
-- the file holds behind the header, the name and the URL.
pub info_hash-write_tseed :
    (sha1 : List ℕ → List ℕ) (file_digest file_name announce_url : List ℕ)
    (chunks : List ChunkEntry) (lo avg hi : ℕ)
    → IsWritable file_digest file_name announce_url chunks lo avg hi
    → compute_info_hash sha1
        (seed_header file_digest file_name announce_url chunks lo avg hi)
        chunks
      ≡ sha1 (
          file_digest
          ++ drop (length announce_url) (
              drop
                (length file_name)
                (drop 92 (write_tseed file_digest file_name announce_url chunks lo avg hi))))
unfolding compute_info_hash write_tseed seed_header header
info_hash-write_tseed sha1 file_digest file_name announce_url chunks lo avg hi w = rw (
  take_all 32 file_digest w.digest_size,
  hash_entries-section chunks file_digest w.chunks_fit,
  drop_header
      (header_to_network_endian (seed_header file_digest file_name announce_url chunks lo avg hi))
      (file_name ++ (announce_url ++ chunks_section chunks))
      (network-IsHeader (seed_header file_digest file_name announce_url chunks lo avg hi)
        (header-IsHeader file_digest file_name announce_url chunks lo avg hi w)),
  drop-append_left (length file_name) file_name (announce_url ++ chunks_section chunks) refl,
  drop-append_left (length announce_url) announce_url (chunks_section chunks) refl,
)
