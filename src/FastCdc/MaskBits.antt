-- ===== src/FastCdc/MaskBits.antt =====
-- The loop of `init_scan_state` in src/cdc/fastcdc.cpp: 32 rounds are enough for a `uint32_t`, and
-- the mask bits that come out are two below the logarithm of the average size.
use native.Mathlib.Nat.{pow-suc}
use new_thinbt.Common.{
  ℕ, zero, suc, ◌+◌, ◌-◌, ◌*◌, ◌/◌, ◌^◌, ◌≤◌, ◌<◌, ◌≡◌, inl, inr, ltb, if◌then◌else◌, Bool-cases,
  arith,
}
use new_thinbt.FastCdc.{FastCdcConfig, count_bits, init_scan_state}

-- With `k` rounds more than needed the loop counts the halvings down to 1.
count_bits_log :
    (fuel v bits : ℕ)
    → 1 ≤ v
    → v < 2 ^ suc fuel
    → (k : ℕ) × (count_bits fuel v bits ≡ bits + k) × (2 ^ k ≤ v) × (v < 2 ^ suc k)
unfolding count_bits
count_bits_log zero v bits pos lt = (0, omega arith, omega arith, lt)
count_bits_log (suc fuel) v bits pos lt = elim (Bool-cases (ltb 1 v)) [
  | inl more ↦
      let big : 1 < v = ground arith in
      let (k, e, lo, hi) =
        count_bits_log fuel (v / 2) (bits + 1) (omega arith)
          (omega (arith, pow-suc 2 (suc fuel))) in
      (
        suc k,
        rw more (omega (arith, e)),
        omega (arith, lo, pow-suc 2 k),
        omega (arith, hi, pow-suc 2 (suc k)),
      )
  | inr done ↦
      let one : v ≡ 1 = ground arith in
      (0, rw done (omega arith), omega (arith, one), omega (arith, one))
]

two_less :
    (v c k : ℕ)
    → c ≡ 0 + k
    → 2 ^ k ≤ v
    → v < 2 ^ suc k
    → 4 ≤ v
    → (4 * 2 ^ (if ltb 1 c then c - 2 else c) ≤ v) × (v < 8 * 2 ^ (if ltb 1 c then c - 2 else c))
two_less v c zero e lo hi big = absurd (omega arith)
two_less v c (suc zero) e lo hi big = absurd (omega arith)
two_less v c (suc (suc k)) e lo hi big =
    let bits : (if ltb 1 c then c - 2 else c) ≡ k = ground arith in
    rw bits (omega (arith, pow-suc 2 k, pow-suc 2 (suc k), pow-suc 2 (suc (suc k))))

-- For an average size of at least 4 bytes the chunk mask has two bits less than the average size's
-- logarithm: 4 * 2 ^ mask_bits <= avg_size < 8 * 2 ^ mask_bits, for every `uint32_t` average.
pub mask_bits_log :
    (cfg : FastCdcConfig) (size : ℕ)
    → 4 ≤ cfg.avg_size
    → cfg.avg_size < 4294967296
    → (4 * 2 ^ (init_scan_state cfg size).mask_bits ≤ cfg.avg_size)
      × (cfg.avg_size < 8 * 2 ^ (init_scan_state cfg size).mask_bits)
unfolding init_scan_state
mask_bits_log cfg size big lt =
    let (k, e, lo, hi) = count_bits_log 32 cfg.avg_size 0 (omega arith) (omega arith) in
    two_less cfg.avg_size (count_bits 32 cfg.avg_size 0) k e lo hi big
