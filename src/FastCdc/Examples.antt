-- ===== src/FastCdc/Examples.antt =====
-- The chunking theorems at a small buffer, and tests.
use new_thinbt.Common.{ℕ, ◌≡◌, refl, List, [], ◌∷◌, take, map, arith}
use new_thinbt.FastCdc.{
  FastCdcConfig, default_config, init_scan_state, count_bits, is_cut, chunk_at, scan_loop,
  fastcdc_scan_buffer,
}
use new_thinbt.FastCdc.Tiling.{Divides, bytes_of, fastcdc_scan_buffer-Divides, bytes_of-scan}

-- A stand-in for the hash: the first byte.
abbrev first_byte : List ℕ → List ℕ
first_byte = take 1

abbrev small_config : FastCdcConfig
small_config = record { min_size = 2; avg_size = 64; max_size = 3 }

abbrev seven_bytes : List ℕ
seven_bytes = 1 ∷ 2 ∷ 3 ∷ 4 ∷ 5 ∷ 6 ∷ 7 ∷ []

fastcdc_scan_buffer-Divides_example :
    Divides first_byte seven_bytes 2 3 0 (fastcdc_scan_buffer first_byte seven_bytes small_config)
fastcdc_scan_buffer-Divides_example =
    fastcdc_scan_buffer-Divides first_byte seven_bytes small_config (omega arith)

bytes_of-scan_example :
    bytes_of seven_bytes (fastcdc_scan_buffer first_byte seven_bytes small_config) ≡ seven_bytes
bytes_of-scan_example = bytes_of-scan first_byte seven_bytes small_config (omega arith)

-- 128 KiB on average makes a mask of 15 bits.
default_mask : (init_scan_state default_config 7).mask_bits ≡ 15
unfolding init_scan_state default_config count_bits
default_mask = refl

scan_lengths :
    map (λ c. c.length) (fastcdc_scan_buffer first_byte seven_bytes small_config) ≡ 3 ∷ 3 ∷ 1 ∷ []
unfolding fastcdc_scan_buffer scan_loop chunk_at is_cut init_scan_state count_bits
    new_thinbt.FastCdc.gear_update new_thinbt.FastCdc.gear
scan_lengths = refl
