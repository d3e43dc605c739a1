-- ===== src/FastCdc.antt =====
-- src/cdc/fastcdc.hpp and src/cdc/fastcdc.cpp: content-defined chunking of a buffer. SHA-256 is
-- OpenSSL's and stands as a parameter.
pub mod Tiling
mod Examples
pub mod MaskBits
use new_thinbt.Common.{
  ℕ, zero, suc, ◌+◌, ◌-◌, ◌*◌, ◌/◌, ◌%◌, ◌^◌, bit_and, bit_or, bit_xor, Bool, true, false, List, [],
  ◌∷◌, length, take, drop, get_or, ltb, leb, if◌then◌else◌, ◌&&◌, ◌||◌, ◌==◌, u32_mod, u64_mod,
}
use new_thinbt.Seed.{ChunkEntry}

pub record FastCdcConfig : Type 0 where
  pub min_size : ℕ
  pub avg_size : ℕ
  pub max_size : ℕ

-- The default member values: 16 KiB, 128 KiB and 1 MiB.
unfoldable pub default_config : FastCdcConfig
default_config = record { min_size = 16384; avg_size = 131072; max_size = 1048576 }

-- One round of the generator behind the Gear table.
unfoldable pub gear_next : ℕ → ℕ
gear_next seed = bit_xor seed (seed / 2 ^ 12) * 0x2545F4914F6CDD1D % u64_mod

-- arr[i] = seed, for `n` rounds.
unfoldable pub gear_table : ℕ → ℕ → List ℕ
gear_table zero seed = []
gear_table (suc n) seed = gear_next seed ∷ gear_table n (gear_next seed)

-- GEAR
unfoldable pub gear : List ℕ
unfolding gear_table gear_next
gear = gear_table 256 0x9E3779B185EBCA87

-- (fp << 1) | ((fp >> 63) ^ GEAR[byte])
unfoldable pub gear_update : ℕ → ℕ → ℕ
gear_update byte fp = bit_or (fp * 2 % u64_mod) (bit_xor (fp / 2 ^ 63) (get_or gear byte 0))

pub record ScanState : Type 0 where
  pub size : ℕ
  pub min_size : ℕ
  pub avg_size : ℕ
  pub max_size : ℕ
  pub mask_bits : ℕ
  pub chunk_mask : ℕ

-- while (v > 1) { v >>= 1; mask_bits++; }: at most 32 rounds on a `uint32_t`.
unfoldable pub count_bits : ℕ → ℕ → ℕ → ℕ
count_bits zero v bits = bits
count_bits (suc fuel) v bits =
    let rest = count_bits fuel (v / 2) (bits + 1) in if ltb 1 v then rest else bits

unfoldable pub init_scan_state : FastCdcConfig → ℕ → ScanState
init_scan_state cfg size =
    let counted = count_bits 32 cfg.avg_size 0 in
    let mask_bits = (if ltb 1 counted then counted - 2 else counted) in
    record {
      size = size;
      min_size = cfg.min_size;
      avg_size = cfg.avg_size;
      max_size = cfg.max_size;
      mask_bits = mask_bits;
      chunk_mask = (2 ^ mask_bits + 4294967295) % u32_mod;
    }

-- The scan's test at position `i`, for the chunk that began at `offset_start`.
unfoldable pub is_cut : ScanState → ℕ → ℕ → ℕ → Bool
is_cut st i offset_start fingerprint =
    let pos = i - offset_start + 1 in
    (leb st.min_size pos && bit_and fingerprint st.chunk_mask == 0)
    || (leb st.max_size pos || i == st.size - 1)

module _ (sha256 : List ℕ → List ℕ) where
  -- What the callback is given for the chunk that ends at `i`.
  unfoldable pub chunk_at : ScanState → List ℕ → ℕ → ℕ → ChunkEntry
  chunk_at st buffer i offset_start =
      let chunk_len = (if i == st.size - 1 then st.size - offset_start else i - offset_start + 1) in
      record {
        offset = offset_start;
        length = chunk_len % u32_mod;
        sha256 = sha256 (take chunk_len (drop offset_start buffer));
      }

  -- The loop from position `i` on; the last argument is what is left of the buffer there.
  unfoldable pub scan_loop : ScanState → List ℕ → ℕ → ℕ → ℕ → List ℕ → List ChunkEntry
  scan_loop st buffer i offset_start fingerprint [] = []
  scan_loop st buffer i offset_start fingerprint (byte ∷ rest) =
      let fp = gear_update byte fingerprint in
      let cut = is_cut st i offset_start fp in
      let more =
        scan_loop st buffer (i + 1) (if cut then i + 1 else offset_start) (if cut then 0 else fp)
          rest in
      if cut then chunk_at st buffer i offset_start ∷ more else more

  unfoldable pub fastcdc_scan_buffer : List ℕ → FastCdcConfig → List ChunkEntry
  fastcdc_scan_buffer buffer config =
      if length buffer == 0
      then []
      else scan_loop (init_scan_state config (length buffer)) buffer 0 0 0 buffer
