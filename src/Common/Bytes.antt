-- ===== src/Common/Bytes.antt =====
-- Integers in memory: the bytes of a w-byte integer, and the byte swaps of the network order.
use mathlib.Core.List.{reverse-reverse, reverse-cons}
use native.Mathlib.Nat.{pow-suc}
use Prim.Native.Nat.{ℕ, zero, suc, ◌+◌, ◌*◌, ◌/◌, ◌%◌, ◌^◌, ◌<◌}
use mathlib.Core.Path.{◌≡◌, refl, sym, ap, ap₂, ◌∙◌}
use mathlib.Core.List.{List, [], ◌∷◌, ◌++◌, reverse}
use native.Mathlib.Omega.{arith}
use mathlib.Core.Bool.{Bool, true, false, ◌&&◌}
use new_thinbt.Common.Lists.{
  length, length-append, All, All-append, take, drop, take-append_left, drop-append_left,
}
use new_thinbt.Common.Tests.{◌==◌}

-- memcpy of a w-byte integer on the little-endian hosts that the program is built for.
unfoldable pub le_bytes : ℕ → ℕ → List ℕ
le_bytes zero v = []
le_bytes (suc w) v = (v % 256) ∷ le_bytes w (v / 256)

unfoldable pub le_value : List ℕ → ℕ
le_value [] = 0
le_value (b ∷ bs) = b + 256 * le_value bs

-- hton16, hton32, hton64, and their inverses: the bytes of a w-byte integer in reverse.
unfoldable pub byte_swap : ℕ → ℕ → ℕ
unfolding le_bytes le_value
byte_swap w v = le_value (reverse (le_bytes w v))

abbrev pub IsByte : ℕ → Type 0
IsByte b = b < 256

pub length-le_bytes : (w v : ℕ) → length (le_bytes w v) ≡ w
unfolding le_bytes
length-le_bytes zero v = refl
length-le_bytes (suc w) v = ap suc (length-le_bytes w (v / 256))

pub le_bytes-IsByte : (w v : ℕ) → All IsByte (le_bytes w v)
unfolding le_bytes
le_bytes-IsByte zero v = tt
le_bytes-IsByte (suc w) v = (omega arith, le_bytes-IsByte w (v / 256))

pub le_value-le_bytes : (w v : ℕ) → v < 256 ^ w → le_value (le_bytes w v) ≡ v
unfolding le_bytes le_value
le_value-le_bytes zero v h = omega arith
le_value-le_bytes (suc w) v h =
    omega (arith, le_value-le_bytes w (v / 256) (omega (arith, pow-suc 256 w)))

pub le_bytes-le_value : (bs : List ℕ) → All IsByte bs → le_bytes (length bs) (le_value bs) ≡ bs
unfolding le_bytes le_value
le_bytes-le_value [] h = refl
le_bytes-le_value (b ∷ bs) h =
    let q : (b + 256 * le_value bs) / 256 ≡ le_value bs = omega (arith, h.0) in
    let r : (b + 256 * le_value bs) % 256 ≡ b = omega (arith, h.0) in
    ap₂ (λ x t. x ∷ t) r (ap (le_bytes (length bs)) q ∙ le_bytes-le_value bs h.1)

pub le_value-lt : (bs : List ℕ) → All IsByte bs → le_value bs < 256 ^ length bs
unfolding le_value
le_value-lt [] h = omega arith
le_value-lt (b ∷ bs) h = omega (arith, h.0, le_value-lt bs h.1, pow-suc 256 (length bs))

length-reverse : (bs : List ℕ) → length (reverse bs) ≡ length bs
length-reverse [] = refl
length-reverse (b ∷ bs) =
    omega
      (arith, ap length (reverse-cons b bs), length-append (reverse bs) (b ∷ []), length-reverse bs)

All-reverse : (bs : List ℕ) → All IsByte bs → All IsByte (reverse bs)
All-reverse [] h = tt
All-reverse (b ∷ bs) h =
    rw (reverse-cons b bs) (All-append IsByte (reverse bs) (b ∷ []) (All-reverse bs h.1) (h.0, tt))

-- The bytes that a swapped integer is written as: most significant first.
pub le_bytes-byte_swap : (w v : ℕ) → le_bytes w (byte_swap w v) ≡ reverse (le_bytes w v)
unfolding byte_swap
le_bytes-byte_swap w v =
    let bs : List ℕ = reverse (le_bytes w v) in
    let n : length bs ≡ w = length-reverse (le_bytes w v) ∙ length-le_bytes w v in
    ap (λ (k : ℕ). le_bytes k (le_value bs)) (sym n)
    ∙ le_bytes-le_value bs (All-reverse (le_bytes w v) (le_bytes-IsByte w v))

-- Swapping twice gives the integer back.
pub byte_swap-byte_swap : (w v : ℕ) → v < 256 ^ w → byte_swap w (byte_swap w v) ≡ v
unfolding byte_swap
byte_swap-byte_swap w v h =
    ap (λ bs. le_value (reverse bs)) (le_bytes-byte_swap w v)
    ∙ ap le_value (reverse-reverse (le_bytes w v))
    ∙ le_value-le_bytes w v h

pub byte_swap-lt : (w v : ℕ) → byte_swap w v < 256 ^ w
unfolding byte_swap
byte_swap-lt w v =
    let bs : List ℕ = reverse (le_bytes w v) in
    let n : length bs ≡ w = length-reverse (le_bytes w v) ∙ length-le_bytes w v in
    rw n at (le_value-lt bs (All-reverse (le_bytes w v) (le_bytes-IsByte w v)))

-- memcmp(a, b, n) == 0 on two ranges of one length.
unfoldable pub bytes_eq : List ℕ → List ℕ → Bool
bytes_eq [] [] = true
bytes_eq [] (y ∷ ys) = false
bytes_eq (x ∷ xs) [] = false
bytes_eq (x ∷ xs) (y ∷ ys) = x == y && bytes_eq xs ys

pub bytes_eq_refl : (xs : List ℕ) → bytes_eq xs xs ≡ true
unfolding bytes_eq
bytes_eq_refl [] = refl
bytes_eq_refl (x ∷ xs) = ground (arith, bytes_eq_refl xs)

pub bytes_eq_sound : (xs ys : List ℕ) → bytes_eq xs ys ≡ true → xs ≡ ys
unfolding bytes_eq
bytes_eq_sound [] [] h = refl
bytes_eq_sound [] (y ∷ ys) h = cc
bytes_eq_sound (x ∷ xs) [] h = cc
bytes_eq_sound (x ∷ xs) (y ∷ ys) h = ground (arith, bytes_eq_sound xs ys)

-- `hton32(v)` and then memcpy: the bytes of `v` in network order; and the way back.
unfoldable pub put_be : ℕ → ℕ → List ℕ
put_be w v = le_bytes w (byte_swap w v)

unfoldable pub get_be : ℕ → List ℕ → ℕ
get_be w bs = byte_swap w (le_value (take w bs))

pub get_be-put_be : (w v : ℕ) (rest : List ℕ) → v < 256 ^ w → get_be w (put_be w v ++ rest) ≡ v
unfolding put_be get_be
get_be-put_be w v rest h =
    ap (λ bs. byte_swap w (le_value bs))
      (take-append_left w (put_be w v) rest (length-le_bytes w (byte_swap w v)))
    ∙ ap (byte_swap w) (le_value-le_bytes w (byte_swap w v) (byte_swap-lt w v))
    ∙ byte_swap-byte_swap w v h

pub drop-put_be : (w v : ℕ) (rest : List ℕ) → drop w (put_be w v ++ rest) ≡ rest
unfolding put_be
drop-put_be w v rest = drop-append_left w (put_be w v) rest (length-le_bytes w (byte_swap w v))

pub length-put_be : (w v : ℕ) → length (put_be w v) ≡ w
unfolding put_be
length-put_be w v = length-le_bytes w (byte_swap w v)

pub put_be-IsByte : (w v : ℕ) → All IsByte (put_be w v)
unfolding put_be
put_be-IsByte w v = le_bytes-IsByte w (byte_swap w v)
