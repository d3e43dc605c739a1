-- ===== src/Seed.antt =====
-- src/seed/tseed.hpp, src/seed/seed_reader.cpp and src/seed/seed_writer.cpp: the .tseed file. A
-- struct in memory is the list of its bytes, low byte of each integer first; a file is its bytes.
-- The digests are OpenSSL's: SHA-1 is a parameter, and the writer takes the SHA-256 of the shared
-- file as an argument.
pub mod Layout
pub mod RoundTrip
mod Examples
use new_thinbt.Common.{
  ℕ, zero, suc, ◌+◌, ◌*◌, ◌%◌, Bool, true, false, not, Option, none, some, List, [], ◌∷◌, ◌++◌,
  length, take, drop, replicate, ltb, if◌then◌else◌, ◌==◌, ◌||◌, u32_mod, u64_mod,
}
use new_thinbt.Common.Bytes.{le_bytes, le_value, byte_swap}

pub record TSeedHeader : Type 0 where
  pub magic : ℕ
  pub version : ℕ
  pub flags : ℕ
  pub chunk_count : ℕ
  pub file_size : ℕ
  pub min_chunk_size : ℕ
  pub avg_chunk_size : ℕ
  pub max_chunk_size : ℕ
  pub file_name_len : ℕ
  pub announce_len : ℕ
  pub reserved : List ℕ
  pub file_sha256 : List ℕ

pub record ChunkEntry : Type 0 where
  pub offset : ℕ
  pub length : ℕ
  pub sha256 : List ℕ

pub record TSeedFile : Type 0 where
  pub header : TSeedHeader
  pub file_name : List ℕ
  pub announce_url : List ℕ
  pub chunks : List ChunkEntry
  pub info_hash : List ℕ

-- TSeedHeader::MAGIC
abbrev pub tseed_magic : ℕ
tseed_magic = 0x54425344

unfoldable pub header_to_host_endian : TSeedHeader → TSeedHeader
header_to_host_endian h = record h {
  magic = byte_swap 4 h.magic;
  version = byte_swap 2 h.version;
  flags = byte_swap 2 h.flags;
  chunk_count = byte_swap 4 h.chunk_count;
  file_size = byte_swap 8 h.file_size;
  min_chunk_size = byte_swap 4 h.min_chunk_size;
  avg_chunk_size = byte_swap 4 h.avg_chunk_size;
  max_chunk_size = byte_swap 4 h.max_chunk_size;
  file_name_len = byte_swap 4 h.file_name_len;
  announce_len = byte_swap 4 h.announce_len;
}

unfoldable pub header_to_network_endian : TSeedHeader → TSeedHeader
header_to_network_endian h = record h {
  magic = byte_swap 4 h.magic;
  version = byte_swap 2 h.version;
  flags = byte_swap 2 h.flags;
  chunk_count = byte_swap 4 h.chunk_count;
  file_size = byte_swap 8 h.file_size;
  min_chunk_size = byte_swap 4 h.min_chunk_size;
  avg_chunk_size = byte_swap 4 h.avg_chunk_size;
  max_chunk_size = byte_swap 4 h.max_chunk_size;
  file_name_len = byte_swap 4 h.file_name_len;
  announce_len = byte_swap 4 h.announce_len;
}

unfoldable pub chunk_to_host_endian : ChunkEntry → ChunkEntry
chunk_to_host_endian c = record c { offset = byte_swap 8 c.offset; length = byte_swap 4 c.length }

unfoldable pub chunk_to_network_endian : ChunkEntry → ChunkEntry
chunk_to_network_endian c = record c {
  offset = byte_swap 8 c.offset;
  length = byte_swap 4 c.length;
}

-- The 92 bytes of the packed header struct.
unfoldable pub header_bytes : TSeedHeader → List ℕ
header_bytes h =
    le_bytes 4 h.magic
    ++ (le_bytes 2 h.version
        ++ (le_bytes 2 h.flags
            ++ (le_bytes 4 h.chunk_count
                ++ (le_bytes 8 h.file_size
                    ++ (le_bytes 4 h.min_chunk_size
                        ++ (le_bytes 4 h.avg_chunk_size
                            ++ (le_bytes 4 h.max_chunk_size
                                ++ (le_bytes 4 h.file_name_len
                                    ++ (le_bytes 4 h.announce_len
                                        ++ (h.reserved ++ h.file_sha256))))))))))

-- The 44 bytes of the packed chunk entry.
unfoldable pub chunk_bytes : ChunkEntry → List ℕ
chunk_bytes c = le_bytes 8 c.offset ++ (le_bytes 4 c.length ++ c.sha256)

-- One integer field of a struct that is read into memory, and the bytes behind it.
unfoldable pub int_field : ℕ → List ℕ → ℕ × List ℕ
int_field w bytes = (le_value (take w bytes), drop w bytes)

unfoldable pub bytes_field : ℕ → List ℕ → List ℕ × List ℕ
bytes_field w bytes = (take w bytes, drop w bytes)

unfoldable pub load_header : List ℕ → TSeedHeader
load_header bytes =
    let (magic, r1) = int_field 4 bytes in
    let (version, r2) = int_field 2 r1 in
    let (flags, r3) = int_field 2 r2 in
    let (chunk_count, r4) = int_field 4 r3 in
    let (file_size, r5) = int_field 8 r4 in
    let (min_chunk_size, r6) = int_field 4 r5 in
    let (avg_chunk_size, r7) = int_field 4 r6 in
    let (max_chunk_size, r8) = int_field 4 r7 in
    let (file_name_len, r9) = int_field 4 r8 in
    let (announce_len, r10) = int_field 4 r9 in
    let (reserved, r11) = bytes_field 20 r10 in
    let (file_sha256, r12) = bytes_field 32 r11 in
    record {
      magic = magic;
      version = version;
      flags = flags;
      chunk_count = chunk_count;
      file_size = file_size;
      min_chunk_size = min_chunk_size;
      avg_chunk_size = avg_chunk_size;
      max_chunk_size = max_chunk_size;
      file_name_len = file_name_len;
      announce_len = announce_len;
      reserved = reserved;
      file_sha256 = file_sha256;
    }

unfoldable pub load_chunk : List ℕ → ChunkEntry
load_chunk bytes =
    let (offset, r1) = int_field 8 bytes in
    let (len, r2) = int_field 4 r1 in record { offset = offset; length = len; sha256 = take 32 r2 }

-- The exceptions of the reader.
pub data SeedError : Type 0 where
  cannot_open unexpected_eof invalid_magic unsupported_version : SeedError

pub data Result {ℓ} (A : Type ℓ) : Type ℓ where
  ok : A → Result A
  err : SeedError → Result A

infixl 5 ◌>>=◌ ◌>>◌
abbrev pub ◌>>=◌ {ℓ κ} : {A : Type ℓ} {B : Type κ} → Result A → (A → Result B) → Result B
err error >>= next = err error
ok got >>= next = next got

abbrev pub ◌>>◌ {ℓ} : {B : Type ℓ} → Result (Unit {0}) → Result B → Result B
err error >> next = err error
ok got >> next = next

abbrev pub check : Bool → SeedError → Result (Unit {0})
check true e = ok tt
check false e = err e

-- `n` bytes from the front of what is left of the file.
unfoldable pub read_exact : ℕ → List ℕ → Result (List ℕ × List ℕ)
read_exact n bytes =
    if ltb (length bytes) n then err unexpected_eof else ok (take n bytes, drop n bytes)

-- The loop over the chunk entries, `n` of them still to read.
unfoldable pub read_chunks : Bool → ℕ → List ℕ → Result (List ChunkEntry × List ℕ)
read_chunks needs_swap zero bytes = ok ([], bytes)
read_chunks needs_swap (suc n) bytes = do
  (raw, rest) ← read_exact 44 bytes
  let c = load_chunk raw
  (cs, rest') ← read_chunks needs_swap n rest
  ok ((if needs_swap then chunk_to_host_endian c else c) ∷ cs, rest')

-- The loop of `write_tseed` over the chunk entries: each struct in network order.
unfoldable pub chunks_section : List ChunkEntry → List ℕ
chunks_section [] = []
chunks_section (c ∷ cs) = chunk_bytes (chunk_to_network_endian c) ++ chunks_section cs

-- The header after the byte order has been settled.
unfoldable pub settle_header : TSeedHeader → Result (Bool × TSeedHeader)
settle_header raw =
    let swapped = header_to_host_endian raw in
    if raw.magic == tseed_magic
    then ok (false, raw)
    else if swapped.magic == tseed_magic
    then ok (true, swapped)
    else err invalid_magic

-- The loop of `compute_info_hash`, which inserts the fields of each entry into `buf`: the bytes in
-- memory of hton64(c.offset) and hton32(c.length), and the 32 bytes of the digest.
unfoldable pub hash_entries : List ℕ → List ChunkEntry → List ℕ
hash_entries buf [] = buf
hash_entries buf (c ∷ cs) =
    hash_entries
      (buf
        ++ (le_bytes 8 (byte_swap 8 c.offset)
            ++ (le_bytes 4 (byte_swap 4 c.length) ++ take 32 c.sha256)))
      cs

module _ (sha1 : List ℕ → List ℕ) where
  unfoldable pub compute_info_hash : TSeedHeader → List ChunkEntry → List ℕ
  unfolding hash_entries
  compute_info_hash h chunks = sha1 (hash_entries (take 32 h.file_sha256) chunks)

  -- The argument is the file's content, or `none` if it cannot be opened.
  unfoldable pub read_tseed : Option (List ℕ) → Result TSeedFile
  read_tseed none = err cannot_open
  read_tseed (some bytes) = do
    (raw, r1) ← read_exact 92 bytes
    (needs_swap, header) ← settle_header (load_header raw)
    check (not (ltb header.version 1 || ltb 4 header.version)) unsupported_version
    (file_name, r2) ← read_exact header.file_name_len r1
    (announce_url, r3) ← read_exact header.announce_len r2
    (chunks, r4) ← read_chunks needs_swap header.chunk_count r3
    ok (record {
      header = header;
      file_name = file_name;
      announce_url = announce_url;
      chunks = chunks;
      info_hash = compute_info_hash header chunks;
    })

-- The writer's first loop: the end of the chunk that reaches furthest.
unfoldable pub total_file_size : List ChunkEntry → ℕ → ℕ
total_file_size [] total = total
total_file_size (c ∷ cs) total =
    let chunk_end = (c.offset + c.length) % u64_mod in
    total_file_size cs (if ltb total chunk_end then chunk_end else total)

-- The header that the writer builds, in host order.
unfoldable pub seed_header : List ℕ → List ℕ → List ℕ → List ChunkEntry → ℕ → ℕ → ℕ → TSeedHeader
seed_header file_digest file_name announce_url chunks lo avg hi = record {
  magic = tseed_magic;
  version = 1;
  flags = 0;
  chunk_count = length chunks % u32_mod;
  file_size = total_file_size chunks 0;
  min_chunk_size = lo;
  avg_chunk_size = avg;
  max_chunk_size = hi;
  file_name_len = length file_name % u32_mod;
  announce_len = length announce_url % u32_mod;
  reserved = replicate 20 0;
  file_sha256 = file_digest;
}

-- The file's content, where opening and writing succeed.
unfoldable pub write_tseed : List ℕ → List ℕ → List ℕ → List ChunkEntry → ℕ → ℕ → ℕ → List ℕ
write_tseed file_digest file_name announce_url chunks lo avg hi =
    header_bytes
      (header_to_network_endian (seed_header file_digest file_name announce_url chunks lo avg hi))
    ++ (file_name ++ (announce_url ++ chunks_section chunks))
