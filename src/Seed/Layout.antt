-- ===== src/Seed/Layout.antt =====
-- The structs of src/seed/tseed.hpp in memory and back.
use new_thinbt.Common.{
  ℕ, ◌^◌, ◌<◌, ◌≡◌, sym, ap, ap₂, ◌∙◌, List, [], ◌++◌, length, append-nil, arith, length-append,
  take_all, take-append_left, drop-append_left,
}
use new_thinbt.Common.Bytes.{
  le_bytes, le_value, length-le_bytes, le_value-le_bytes, byte_swap-lt, byte_swap-byte_swap,
}
use new_thinbt.Seed.{
  TSeedHeader, ChunkEntry, header_to_host_endian, header_to_network_endian, chunk_to_host_endian,
  chunk_to_network_endian, header_bytes, chunk_bytes, int_field, bytes_field, load_header,
  load_chunk,
}

-- The fields of a header fit their integers and arrays.
pub record IsHeader (h : TSeedHeader) : Type 0 where
  pub magic_lt : h.magic < 4294967296
  pub version_lt : h.version < 65536
  pub flags_lt : h.flags < 65536
  pub chunk_count_lt : h.chunk_count < 4294967296
  pub file_size_lt : h.file_size < 18446744073709551616
  pub min_lt : h.min_chunk_size < 4294967296
  pub avg_lt : h.avg_chunk_size < 4294967296
  pub max_lt : h.max_chunk_size < 4294967296
  pub file_name_len_lt : h.file_name_len < 4294967296
  pub announce_len_lt : h.announce_len < 4294967296
  pub reserved_size : length h.reserved ≡ 20
  pub sha256_size : length h.file_sha256 ≡ 32

pub record IsChunk (c : ChunkEntry) : Type 0 where
  pub offset_lt : c.offset < 18446744073709551616
  pub length_lt : c.length < 4294967296
  pub sha256_size : length c.sha256 ≡ 32

int_field-le_bytes :
    (w v : ℕ) (rest : List ℕ) → v < 256 ^ w → int_field w (le_bytes w v ++ rest) ≡ (v, rest)
unfolding int_field
int_field-le_bytes w v rest h =
    ap₂ (λ (x : ℕ) (t : List ℕ). (x, t))
      (ap le_value (take-append_left w (le_bytes w v) rest (length-le_bytes w v))
        ∙ le_value-le_bytes w v h)
      (drop-append_left w (le_bytes w v) rest (length-le_bytes w v))

bytes_field-append :
    (w : ℕ) (bs rest : List ℕ) → length bs ≡ w → bytes_field w (bs ++ rest) ≡ (bs, rest)
unfolding bytes_field
bytes_field-append w bs rest h =
    ap₂ (λ (x t : List ℕ). (x, t)) (take-append_left w bs rest h) (drop-append_left w bs rest h)

pub load-header_bytes : (h : TSeedHeader) → IsHeader h → load_header (header_bytes h) ≡ h
unfolding load_header header_bytes
load-header_bytes h p =
    rw
      (
        int_field-le_bytes 4 h.magic _ p.magic_lt,
        int_field-le_bytes 2 h.version _ p.version_lt,
        int_field-le_bytes 2 h.flags _ p.flags_lt,
        int_field-le_bytes 4 h.chunk_count _ p.chunk_count_lt,
        int_field-le_bytes 8 h.file_size _ p.file_size_lt,
        int_field-le_bytes 4 h.min_chunk_size _ p.min_lt,
        int_field-le_bytes 4 h.avg_chunk_size _ p.avg_lt,
        int_field-le_bytes 4 h.max_chunk_size _ p.max_lt,
        int_field-le_bytes 4 h.file_name_len _ p.file_name_len_lt,
        int_field-le_bytes 4 h.announce_len _ p.announce_len_lt,
        bytes_field-append 20 h.reserved h.file_sha256 p.reserved_size,
        ← append-nil h.file_sha256,
        bytes_field-append 32 h.file_sha256 [] p.sha256_size,
      )
      (ap (λ s. record h { file_sha256 = s }) (sym (append-nil h.file_sha256)))

pub load-chunk_bytes : (c : ChunkEntry) → IsChunk c → load_chunk (chunk_bytes c) ≡ c
unfolding load_chunk chunk_bytes
load-chunk_bytes c p =
    rw
      (
        int_field-le_bytes 8 c.offset _ p.offset_lt,
        int_field-le_bytes 4 c.length c.sha256 p.length_lt,
      )
      (ap (λ s. record c { sha256 = s }) (take_all 32 c.sha256 p.sha256_size))

pub length-header_bytes : (h : TSeedHeader) → IsHeader h → length (header_bytes h) ≡ 92
unfolding header_bytes
length-header_bytes h p =
    rw
      (
        length-append,
        length-append (le_bytes 2 h.version) _,
        length-append (le_bytes 2 h.flags) _,
        length-append (le_bytes 4 h.chunk_count) _,
        length-append (le_bytes 8 h.file_size) _,
        length-append (le_bytes 4 h.min_chunk_size) _,
        length-append (le_bytes 4 h.avg_chunk_size) _,
        length-append (le_bytes 4 h.max_chunk_size) _,
        length-append (le_bytes 4 h.file_name_len) _,
        length-append (le_bytes 4 h.announce_len) _,
        length-append h.reserved _,
      )
      (omega (arith, length-le_bytes, p.reserved_size, p.sha256_size))

pub length-chunk_bytes : (c : ChunkEntry) → IsChunk c → length (chunk_bytes c) ≡ 44
unfolding chunk_bytes
length-chunk_bytes c p =
    rw (length-append, length-append (le_bytes 4 c.length) c.sha256)
      (omega (arith, length-le_bytes, p.sha256_size))

-- Both conversions reverse the bytes of every integer, so each undoes the other.
pub header_to_host-to_network :
    (h : TSeedHeader) → IsHeader h → header_to_host_endian (header_to_network_endian h) ≡ h
unfolding header_to_host_endian header_to_network_endian
header_to_host-to_network h p = λ i. record h {
  magic = byte_swap-byte_swap 4 h.magic p.magic_lt i;
  version = byte_swap-byte_swap 2 h.version p.version_lt i;
  flags = byte_swap-byte_swap 2 h.flags p.flags_lt i;
  chunk_count = byte_swap-byte_swap 4 h.chunk_count p.chunk_count_lt i;
  file_size = byte_swap-byte_swap 8 h.file_size p.file_size_lt i;
  min_chunk_size = byte_swap-byte_swap 4 h.min_chunk_size p.min_lt i;
  avg_chunk_size = byte_swap-byte_swap 4 h.avg_chunk_size p.avg_lt i;
  max_chunk_size = byte_swap-byte_swap 4 h.max_chunk_size p.max_lt i;
  file_name_len = byte_swap-byte_swap 4 h.file_name_len p.file_name_len_lt i;
  announce_len = byte_swap-byte_swap 4 h.announce_len p.announce_len_lt i;
}

pub network-IsHeader : (h : TSeedHeader) → IsHeader h → IsHeader (header_to_network_endian h)
unfolding header_to_network_endian
network-IsHeader h p = record {
  magic_lt = byte_swap-lt 4 h.magic;
  version_lt = byte_swap-lt 2 h.version;
  flags_lt = byte_swap-lt 2 h.flags;
  chunk_count_lt = byte_swap-lt 4 h.chunk_count;
  file_size_lt = byte_swap-lt 8 h.file_size;
  min_lt = byte_swap-lt 4 h.min_chunk_size;
  avg_lt = byte_swap-lt 4 h.avg_chunk_size;
  max_lt = byte_swap-lt 4 h.max_chunk_size;
  file_name_len_lt = byte_swap-lt 4 h.file_name_len;
  announce_len_lt = byte_swap-lt 4 h.announce_len;
  reserved_size = p.reserved_size;
  sha256_size = p.sha256_size;
}

pub chunk_to_host-to_network :
    (c : ChunkEntry) → IsChunk c → chunk_to_host_endian (chunk_to_network_endian c) ≡ c
unfolding chunk_to_host_endian chunk_to_network_endian
chunk_to_host-to_network c p = λ i. record c {
  offset = byte_swap-byte_swap 8 c.offset p.offset_lt i;
  length = byte_swap-byte_swap 4 c.length p.length_lt i;
}

pub network-IsChunk : (c : ChunkEntry) → IsChunk c → IsChunk (chunk_to_network_endian c)
unfolding chunk_to_network_endian
network-IsChunk c p = record {
  offset_lt = byte_swap-lt 8 c.offset;
  length_lt = byte_swap-lt 4 c.length;
  sha256_size = p.sha256_size;
}
