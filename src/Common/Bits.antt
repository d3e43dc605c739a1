-- ===== src/Common/Bits.antt =====
-- Single bits of a word: what `1u << k`, `|` with it and `&` with it do, at every width.
use Prim.Native.Nat.{ℕ, zero, suc, ◌+◌, ◌*◌, ◌/◌, ◌%◌, ◌^◌, ◌≤◌, ◌<◌, min, max}
use Prim.Native.Nat.{digits, bit_and, bit_or, bit_and-bitwise, bit_or-bitwise}
use mathlib.Core.Path.{◌≡◌, refl, sym, ap, ◌∙◌}
use mathlib.Core.Logic.{◌≢◌}
use native.Mathlib.Nat.{pow-suc, mul_comm, div-div-eq-div-mul}
use native.Mathlib.Omega.{arith}

module _ (z : ℕ → ℕ) (f : ℕ → ℕ → ℕ) where
  -- The fuel of the digit recursion does not matter once it reaches the first number.
  digits_enough : (n m a b : ℕ) → a ≤ n → a ≤ m → digits z f n a b ≡ digits z f m a b
  digits_enough zero zero a b p q = refl
  digits_enough zero (suc m) zero b p q = refl
  digits_enough (suc n) zero zero b p q = refl
  digits_enough (suc n) (suc m) zero b p q = refl
  digits_enough zero (suc m) (suc a) b p q = absurd (omega arith)
  digits_enough (suc n) zero (suc a) b p q = absurd (omega arith)
  digits_enough (suc n) (suc m) (suc a) b p q =
      rw (digits_enough n m (suc a / 2) (b / 2) (omega arith) (omega arith))

or_step : (a b : ℕ) → bit_or a b ≡ bit_or (a / 2) (b / 2) * 2 + max (a % 2) (b % 2)
or_step zero b = omega (arith, bit_or-bitwise 0 b, bit_or-bitwise 0 (b / 2))
or_step (suc a) b = omega (
  arith,
  bit_or-bitwise (suc a) b,
  bit_or-bitwise (suc a / 2) (b / 2),
  digits_enough (λ y. y) max a (suc a / 2) (suc a / 2) (b / 2) (omega arith) (omega arith),
)

and_step : (a b : ℕ) → bit_and a b ≡ bit_and (a / 2) (b / 2) * 2 + min (a % 2) (b % 2)
and_step zero b = omega (arith, bit_and-bitwise 0 b, bit_and-bitwise 0 (b / 2))
and_step (suc a) b = omega (
  arith,
  bit_and-bitwise (suc a) b,
  bit_and-bitwise (suc a / 2) (b / 2),
  digits_enough (λ y. 0) min a (suc a / 2) (suc a / 2) (b / 2) (omega arith) (omega arith),
)

or_zero_below : (n a : ℕ) → a ≤ n → bit_or a 0 ≡ a
or_zero_below n zero h = refl
or_zero_below zero (suc a) h = absurd (omega arith)
or_zero_below (suc n) (suc a) h =
    omega (arith, or_step (suc a) 0, or_zero_below n (suc a / 2) (omega arith))

and_zero_below : (n a : ℕ) → a ≤ n → bit_and a 0 ≡ 0
and_zero_below n zero h = refl
and_zero_below zero (suc a) h = absurd (omega arith)
and_zero_below (suc n) (suc a) h =
    omega (arith, and_step (suc a) 0, and_zero_below n (suc a / 2) (omega arith))

-- Bit `k` of `w`, as 0 or 1.
unfoldable pub bit : ℕ → ℕ → ℕ
bit w zero = w % 2
bit w (suc k) = bit (w / 2) k

pub bit-le-one : (w k : ℕ) → bit w k ≤ 1
unfolding bit
bit-le-one w zero = omega arith
bit-le-one w (suc k) = bit-le-one (w / 2) k

pub bit-zero : (k : ℕ) → bit 0 k ≡ 0
unfolding bit
bit-zero zero = refl
bit-zero (suc k) = bit-zero k

-- `w & (1 << k)`.
pub bit_and_single : (w k : ℕ) → bit_and w (2 ^ k) ≡ bit w k * 2 ^ k
unfolding bit
bit_and_single w zero = omega (arith, and_step w 1, and_zero_below (w / 2) (w / 2) (omega arith))
bit_and_single w (suc k) =
    let e : 2 ^ suc k ≡ 2 ^ k * 2 = pow-suc 2 k in
    let h : 2 ^ suc k / 2 ≡ 2 ^ k = omega arith in
    omega (
      arith,
      and_step w (2 ^ suc k),
      ap (bit_and (w / 2)) h,
      bit_and_single (w / 2) k,
      ap (λ (t : ℕ). bit (w / 2) k * t) e,
    )

pub bit-bit_or_self : (w k : ℕ) → bit (bit_or w (2 ^ k)) k ≡ 1
unfolding bit
bit-bit_or_self w zero = omega (arith, or_step w 1, or_zero_below (w / 2) (w / 2) (omega arith))
bit-bit_or_self w (suc k) =
    let e : 2 ^ suc k ≡ 2 ^ k * 2 = pow-suc 2 k in
    let h : 2 ^ suc k / 2 ≡ 2 ^ k = omega arith in
    let s : bit_or w (2 ^ suc k) / 2 ≡ bit_or (w / 2) (2 ^ k) =
      omega (arith, or_step w (2 ^ suc k), ap (bit_or (w / 2)) h) in
    rw s (bit-bit_or_self (w / 2) k)

pub bit-bit_or_ne : (w k l : ℕ) → k ≢ l → bit (bit_or w (2 ^ k)) l ≡ bit w l
unfolding bit
bit-bit_or_ne w zero zero h = absurd (h refl)
bit-bit_or_ne w zero (suc l) h =
    let s : bit_or w 1 / 2 ≡ w / 2 =
      omega (arith, or_step w 1, or_zero_below (w / 2) (w / 2) (omega arith)) in
    rw s
bit-bit_or_ne w (suc k) zero h =
    let e : 2 ^ suc k ≡ 2 ^ k * 2 = pow-suc 2 k in omega (arith, or_step w (2 ^ suc k))
bit-bit_or_ne w (suc k) (suc l) h =
    let e : 2 ^ suc k ≡ 2 ^ k * 2 = pow-suc 2 k in
    let e' : 2 ^ suc k / 2 ≡ 2 ^ k = omega arith in
    let s : bit_or w (2 ^ suc k) / 2 ≡ bit_or (w / 2) (2 ^ k) =
      omega (arith, or_step w (2 ^ suc k), ap (bit_or (w / 2)) e') in
    rw s (bit-bit_or_ne (w / 2) k l (λ e. h (ap suc e)))

-- `|` with a bit within the width keeps a word within its width.
pub bit_or_single-lt : (n w k : ℕ) → w < 2 ^ n → k < n → bit_or w (2 ^ k) < 2 ^ n
bit_or_single-lt zero w k h hk = absurd (omega arith)
bit_or_single-lt (suc n) w zero h hk =
    omega (arith, or_step w 1, or_zero_below (w / 2) (w / 2) (omega arith), pow-suc 2 n)
bit_or_single-lt (suc n) w (suc k) h hk =
    let e : 2 ^ suc k ≡ 2 ^ k * 2 = pow-suc 2 k in
    let e' : 2 ^ suc k / 2 ≡ 2 ^ k = omega arith in
    let en : 2 ^ suc n ≡ 2 ^ n * 2 = pow-suc 2 n in
    omega (
      arith,
      or_step w (2 ^ suc k),
      ap (bit_or (w / 2)) e',
      bit_or_single-lt n (w / 2) k (omega arith) (omega arith),
    )

-- `(w >> k) & 1` reads bit `k`.
pub bit_and_one : (w : ℕ) → bit_and w 1 ≡ w % 2
bit_and_one w = omega (arith, and_step w 1, and_zero_below (w / 2) (w / 2) (omega arith))

pub bit-shr : (w k : ℕ) → bit w k ≡ w / 2 ^ k % 2
unfolding bit
bit-shr w zero = omega arith
bit-shr w (suc k) =
    let e : 2 ^ suc k ≡ 2 * 2 ^ k = pow-suc 2 k ∙ mul_comm (2 ^ k) 2 in
    bit-shr (w / 2) k
    ∙ ap (λ (t : ℕ). t % 2) (div-div-eq-div-mul w 2 (2 ^ k) ∙ ap (λ (t : ℕ). w / t) (sym e))
