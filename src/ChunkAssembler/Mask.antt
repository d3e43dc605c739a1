-- ===== src/ChunkAssembler/Mask.antt =====
-- The completion mask of src/daemon/chunk_assembler.cpp as a set of slots.
use native.Mathlib.Nat.{one-le-pow}
use new_thinbt.Common.{
  ℕ, zero, suc, ◌+◌, ◌-◌, ◌/◌, ◌%◌, ◌^◌, ◌≤◌, ◌<◌, bit_and, bit_or, ◌≡◌, ◌≢◌, refl, inl, inr, List,
  length, get_or, set, replicate, get_or-set_self, get_or-set_ne, get_or-replicate, ◌==◌,
  Bool-cases, arith,
}
use new_thinbt.Common.Bits.{
  bit, bit-le-one, bit-zero, bit_and_single, bit-bit_or_self, bit-bit_or_ne,
}

-- Whether slot `k` is marked, as 0 or 1.
unfoldable pub marked : List ℕ → ℕ → ℕ
marked mask k = bit (get_or mask (k / 32) 0) (k % 32)

-- The mask after `fetch_or` at slot `k`.
abbrev pub mark : List ℕ → ℕ → List ℕ
mark mask k = set mask (k / 32) (bit_or (get_or mask (k / 32) 0) (2 ^ (k % 32)))

pub marked-le-one : (mask : List ℕ) (k : ℕ) → marked mask k ≤ 1
unfolding marked
marked-le-one mask k = bit-le-one (get_or mask (k / 32) 0) (k % 32)

pub marked-zeros : (n k : ℕ) → marked (replicate n 0) k ≡ 0
unfolding marked
marked-zeros n k = rw (get_or-replicate {A = ℕ} n (k / 32) 0) (bit-zero (k % 32))

pub marked-mark_self : (mask : List ℕ) (k : ℕ) → k / 32 < length mask → marked (mark mask k) k ≡ 1
unfolding marked
marked-mark_self mask k h =
    rw (get_or-set_self mask (k / 32) (bit_or (get_or mask (k / 32) 0) (2 ^ (k % 32))) 0 h)
      (bit-bit_or_self (get_or mask (k / 32) 0) (k % 32))

pub marked-mark_ne :
    (mask : List ℕ) (k j : ℕ)
    → k / 32 < length mask
    → k ≢ j
    → marked (mark mask k) j ≡ marked mask j
unfolding marked
marked-mark_ne mask k j h ne = elim (Bool-cases (k / 32 == j / 32)) [
  | inl same ↦
      let e : j / 32 ≡ k / 32 = ground arith in
      let d : k % 32 ≢ j % 32 = omega arith in
      rw (e, get_or-set_self mask (k / 32) (bit_or (get_or mask (k / 32) 0) (2 ^ (k % 32))) 0 h)
        (bit-bit_or_ne (get_or mask (k / 32) 0) (k % 32) (j % 32) d)
  | inr other ↦
      let d : k / 32 ≢ j / 32 = ground arith in
      rw (get_or-set_ne mask (k / 32) (j / 32) (bit_or (get_or mask (k / 32) 0) (2 ^ (k % 32))) 0 d)
]

-- The code's test of the old word: 0 exactly if the slot was not marked.
pub mask_test :
    (mask : List ℕ) (k : ℕ)
    → (bit_and (get_or mask (k / 32) 0) (2 ^ (k % 32)) == 0) ≡ (marked mask k == 0)
unfolding marked
mask_test mask k =
    let w : ℕ = get_or mask (k / 32) 0 in
    elim (Bool-cases (bit w (k % 32) == 0)) [
      | inl z ↦
          let e : bit w (k % 32) ≡ 0 = ground arith in
          rw (bit_and_single w (k % 32), e) (ground arith)
      | inr nz ↦
          let e : bit w (k % 32) ≡ 1 = ground (arith, bit-le-one w (k % 32)) in
          rw (bit_and_single w (k % 32), e) (ground (arith, one-le-pow (k % 32) 2))
    ]

-- How many of the first `n` slots are not marked.
unfoldable pub unmarked : ℕ → List ℕ → ℕ
unmarked zero mask = 0
unmarked (suc k) mask = (1 - marked mask k) + unmarked k mask

pub unmarked-zeros : (n w : ℕ) → unmarked n (replicate w 0) ≡ n
unfolding unmarked
unmarked-zeros zero w = refl
unmarked-zeros (suc n) w = omega (arith, marked-zeros w n, unmarked-zeros n w)

unmarked-mark_above :
    (n : ℕ) (mask : List ℕ) (k : ℕ)
    → k / 32 < length mask
    → n ≤ k
    → unmarked n (mark mask k) ≡ unmarked n mask
unfolding unmarked
unmarked-mark_above zero mask k h le = refl
unmarked-mark_above (suc n) mask k h le =
    omega
      (arith, marked-mark_ne mask k n h (omega arith), unmarked-mark_above n mask k h (omega arith))

-- Marking a slot takes it out of the count, if it was in it.
pub unmarked-mark :
    (n : ℕ) (mask : List ℕ) (k : ℕ)
    → k / 32 < length mask
    → k < n
    → unmarked n (mark mask k) + (1 - marked mask k) ≡ unmarked n mask
unfolding unmarked
unmarked-mark zero mask k h lt = absurd (omega arith)
unmarked-mark (suc n) mask k h lt = elim (Bool-cases (k == n)) [
  | inl same ↦
      let e : n ≡ k = ground arith in
      rw e (
        omega (
          arith,
          marked-mark_self mask k h,
          unmarked-mark_above k mask k h (omega arith),
          marked-le-one mask k,
        ))
  | inr other ↦
      let d : k ≢ n = ground arith in
      omega (arith, marked-mark_ne mask k n h d, unmarked-mark n mask k h (omega arith))
]

-- No slot is left when the count is 0.
pub unmarked-eq-zero :
    (n : ℕ) (mask : List ℕ) (k : ℕ) → unmarked n mask ≡ 0 → k < n → marked mask k ≡ 1
unfolding unmarked
unmarked-eq-zero zero mask k z h = absurd (omega arith)
unmarked-eq-zero (suc n) mask k z h = elim (Bool-cases (k == n)) [
  | inl same ↦ let e : k ≡ n = ground arith in rw e (omega (arith, marked-le-one mask n))
  | inr other ↦
      let d : k ≢ n = ground arith in unmarked-eq-zero n mask k (omega arith) (omega arith)
]

pub unmarked-all :
    (n : ℕ) (mask : List ℕ) → ((k : ℕ) → k < n → marked mask k ≡ 1) → unmarked n mask ≡ 0
unfolding unmarked
unmarked-all zero mask h = refl
unmarked-all (suc n) mask h =
    omega (arith, h n (omega arith), unmarked-all n mask (λ k lt. h k (omega arith)))

pub unmarked-le : (n : ℕ) (mask : List ℕ) → unmarked n mask ≤ n
unfolding unmarked
unmarked-le zero mask = omega arith
unmarked-le (suc n) mask = omega (arith, unmarked-le n mask)
