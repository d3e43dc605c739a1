-- ===== src/Protocol/Bitfield.antt =====
-- The bitfield message: `build_bitfield` of src/daemon/protocol.cpp against `record_bitfield` of
-- src/daemon/peer_session.cpp.
use native.Mathlib.Nat.{mod-eq_of_lt}
use new_thinbt.Common.{
  ℕ, zero, suc, ◌+◌, ◌-◌, ◌*◌, ◌/◌, ◌%◌, ◌^◌, ◌≤◌, ◌<◌, bit_or, bit_and, ◌≡◌, refl, sym, ap, ◌∙◌,
  ◌≢◌, inl, inr, Bool, true, false, List, [], ◌∷◌, ◌++◌, length, get_or, set, replicate, length-set,
  length-replicate, length-append, get_or-set_self, get_or-set_ne, get_or-replicate,
  get_or-append_left, get_or-append_right, get_or-out, list_ext, ◌==◌, Bool-cases, ltb, u32_mod,
  arith, All,
}
use new_thinbt.Common.Bits.{bit, bit-zero, bit-bit_or_self, bit-bit_or_ne, bit_or_single-lt}
use new_thinbt.Common.Bits.{bit_and_one, bit-shr}
use new_thinbt.Common.Bytes.{IsByte}
use new_thinbt.Protocol.{pack_bits, bitfield_bytes}

-- The loop of `record_bitfield` from bit `i` on, with `n` rounds left.
unfoldable pub unpack_bits : ℕ → ℕ → List ℕ → List Bool
unpack_bits zero i bytes = []
unpack_bits (suc n) i bytes =
    (bit_and (get_or bytes (i / 8) 0 / 2 ^ (7 - i % 8)) 1 == 1) ∷ unpack_bits n (i + 1) bytes

-- The `remote_bitfield_` that a payload leaves.
unfoldable pub record_bitfield : List ℕ → List Bool
record_bitfield bytes = unpack_bits (length bytes * 8 % u32_mod) 0 bytes

abbrev to_nat : Bool → ℕ
to_nat true = 1
to_nat false = 0

bit_of : List ℕ → ℕ → ℕ
bit_of bytes j = bit (get_or bytes (j / 8) 0) (7 - j % 8)

abbrev mark : List ℕ → ℕ → List ℕ
mark bf i = set bf (i / 8) (bit_or (get_or bf (i / 8) 0) (2 ^ (7 - i % 8)) % 256)

get_or-IsByte : (bf : List ℕ) (k : ℕ) → All IsByte bf → get_or bf k 0 < 256
get_or-IsByte [] k h = omega arith
get_or-IsByte (b ∷ bf) zero h = h.0
get_or-IsByte (b ∷ bf) (suc k) h = get_or-IsByte bf k h.1

set-IsByte : (bf : List ℕ) (k v : ℕ) → v < 256 → All IsByte bf → All IsByte (set bf k v)
set-IsByte [] k v hv h = tt
set-IsByte (b ∷ bf) zero v hv h = (hv, h.1)
set-IsByte (b ∷ bf) (suc k) v hv h = (h.0, set-IsByte bf k v hv h.1)

replicate-IsByte : (n : ℕ) → All IsByte (replicate n 0)
replicate-IsByte zero = tt
replicate-IsByte (suc n) = (omega arith, replicate-IsByte n)

-- The byte that `mark` writes is no wider than a byte.
mark_value :
    (bf : List ℕ) (i : ℕ)
    → All IsByte bf
    → bit_or (get_or bf (i / 8) 0) (2 ^ (7 - i % 8)) % 256
      ≡ bit_or (get_or bf (i / 8) 0) (2 ^ (7 - i % 8))
mark_value bf i h = mod-eq_of_lt (
    bit_or_single-lt 8 (get_or bf (i / 8) 0) (7 - i % 8) (get_or-IsByte bf (i / 8) h) (omega arith))

mark-IsByte : (bf : List ℕ) (i : ℕ) → All IsByte bf → All IsByte (mark bf i)
mark-IsByte bf i h = set-IsByte bf (i / 8) _ (omega arith) h

bit_of-mark_self :
    (bf : List ℕ) (i : ℕ) → All IsByte bf → i / 8 < length bf → bit_of (mark bf i) i ≡ 1
unfolding bit_of
bit_of-mark_self bf i h lt =
    rw (get_or-set_self bf (i / 8) _ 0 lt, mark_value bf i h)
      (bit-bit_or_self (get_or bf (i / 8) 0) (7 - i % 8))

bit_of-mark_ne :
    (bf : List ℕ) (i j : ℕ)
    → All IsByte bf
    → i / 8 < length bf
    → i ≢ j
    → bit_of (mark bf i) j ≡ bit_of bf j
unfolding bit_of
bit_of-mark_ne bf i j h lt ne = elim (Bool-cases (i / 8 == j / 8)) [
  | inl same ↦
      let e : j / 8 ≡ i / 8 = ground arith in
      let d : 7 - i % 8 ≢ 7 - j % 8 = omega arith in
      rw (e, get_or-set_self bf (i / 8) _ 0 lt, mark_value bf i h)
        (bit-bit_or_ne (get_or bf (i / 8) 0) (7 - i % 8) (7 - j % 8) d)
  | inr other ↦
      let d : i / 8 ≢ j / 8 = ground arith in
      rw (
        get_or-set_ne bf (i / 8) (j / 8) (bit_or (get_or bf (i / 8) 0) (2 ^ (7 - i % 8)) % 256) 0 d)
]

pack_bits_before :
    (bits : List Bool) (i : ℕ) (bf : List ℕ) (j : ℕ)
    → All IsByte bf
    → i + length bits ≤ 8 * length bf
    → j < i
    → bit_of (pack_bits i bits bf) j ≡ bit_of bf j
unfolding pack_bits
pack_bits_before [] i bf j h n lt = refl
pack_bits_before (true ∷ bits) i bf j h n lt =
    pack_bits_before bits (i + 1) (mark bf i) j (mark-IsByte bf i h)
      (omega (arith, length-set bf (i / 8) (bit_or (get_or bf (i / 8) 0) (2 ^ (7 - i % 8)) % 256)))
      (omega arith)
    ∙ bit_of-mark_ne bf i j h (omega arith) (omega arith)
pack_bits_before (false ∷ bits) i bf j h n lt =
    pack_bits_before bits (i + 1) bf j h (omega arith) (omega arith)

-- From a buffer that is 0 from bit `i` on, the loop writes exactly the bits it is given.
pack_bits_at :
    (bits : List Bool) (i : ℕ) (bf : List ℕ) (k : ℕ)
    → All IsByte bf
    → i + length bits ≤ 8 * length bf
    → ((j : ℕ) → i ≤ j → bit_of bf j ≡ 0)
    → bit_of (pack_bits i bits bf) (i + k) ≡ to_nat (get_or bits k false)
unfolding pack_bits
pack_bits_at [] i bf k h n z = z (i + k) (omega arith)
pack_bits_at (true ∷ bits) i bf zero h n z =
    let e : i + 0 ≡ i = omega arith in
    let m : length (mark bf i) ≡ length bf = length-set bf (i / 8) _ in
    rw e (
      pack_bits_before bits (i + 1) (mark bf i) i (mark-IsByte bf i h) (omega arith) (omega arith)
      ∙ bit_of-mark_self bf i h (omega arith))
pack_bits_at (true ∷ bits) i bf (suc k) h n z =
    let e : i + suc k ≡ (i + 1) + k = omega arith in
    let m : length (mark bf i) ≡ length bf = length-set bf (i / 8) _ in
    rw e (
      pack_bits_at bits (i + 1) (mark bf i) k (mark-IsByte bf i h) (omega arith)
        (λ j lt. bit_of-mark_ne bf i j h (omega arith) (omega arith) ∙ z j (omega arith)))
pack_bits_at (false ∷ bits) i bf zero h n z =
    let e : i + 0 ≡ i = omega arith in
    rw e (pack_bits_before bits (i + 1) bf i h (omega arith) (omega arith) ∙ z i (omega arith))
pack_bits_at (false ∷ bits) i bf (suc k) h n z =
    let e : i + suc k ≡ (i + 1) + k = omega arith in
    rw e (pack_bits_at bits (i + 1) bf k h (omega arith) (λ j lt. z j (omega arith)))

length-pack_bits :
    (bits : List Bool) (i : ℕ) (bf : List ℕ) → length (pack_bits i bits bf) ≡ length bf
unfolding pack_bits
length-pack_bits [] i bf = refl
length-pack_bits (true ∷ bits) i bf =
    length-pack_bits bits (i + 1) (mark bf i) ∙ length-set bf (i / 8) _
length-pack_bits (false ∷ bits) i bf = length-pack_bits bits (i + 1) bf

length-unpack_bits : (n i : ℕ) (bytes : List ℕ) → length (unpack_bits n i bytes) ≡ n
unfolding unpack_bits
length-unpack_bits zero i bytes = refl
length-unpack_bits (suc n) i bytes = ap suc (length-unpack_bits n (i + 1) bytes)

one_test : (b : Bool) → (to_nat b == 1) ≡ b
one_test true = refl
one_test false = refl

get_or-unpack_bits :
    (n i : ℕ) (bytes : List ℕ) (k : ℕ)
    → k < n
    → get_or (unpack_bits n i bytes) k false ≡ (bit_of bytes (i + k) == 1)
unfolding unpack_bits bit_of
get_or-unpack_bits zero i bytes k h = absurd (omega arith)
get_or-unpack_bits (suc n) i bytes zero h =
    let e : i + 0 ≡ i = omega arith in
    let x : ℕ = get_or bytes (i / 8) 0 in
    rw e (ap (λ (t : ℕ). t == 1) (bit_and_one (x / 2 ^ (7 - i % 8)) ∙ sym (bit-shr x (7 - i % 8))))
get_or-unpack_bits (suc n) i bytes (suc k) h =
    let e : i + suc k ≡ (i + 1) + k = omega arith in
    rw e (get_or-unpack_bits n (i + 1) bytes k (omega arith))

bit_of-zeros : (n j : ℕ) → bit_of (replicate n 0) j ≡ 0
unfolding bit_of
bit_of-zeros n j = rw (get_or-replicate {A = ℕ} n (j / 8) 0) (bit-zero (7 - j % 8))

pub length-bitfield_bytes :
    (bits : List Bool)
    → length bits < 4294967280
    → length (bitfield_bytes bits) ≡ (length bits + 7) / 8
unfolding bitfield_bytes
length-bitfield_bytes bits h =
    length-pack_bits bits 0 _
    ∙ length-replicate _ 0
    ∙ ap (λ (t : ℕ). t / 8) (mod-eq_of_lt (omega arith))

get_or-record_bitfield :
    (bits : List Bool) (k : ℕ)
    → length bits < 4294967280
    → k < 8 * ((length bits + 7) / 8)
    → get_or (record_bitfield (bitfield_bytes bits)) k false ≡ get_or bits k false
unfolding record_bitfield bitfield_bytes
get_or-record_bitfield bits k h lt =
    get_or-unpack_bits (length packed * 8 % u32_mod) 0 packed k (omega (arith, size))
    ∙ ap (λ (t : ℕ). t == 1)
        (pack_bits_at bits 0 zeros k (replicate-IsByte n) (omega (arith, fits)) clear)
    ∙ one_test (get_or bits k false)
  where
    n : ℕ
    n = (length bits + 7) % u32_mod / 8

    zeros : List ℕ
    zeros = replicate n 0

    packed : List ℕ
    packed = pack_bits 0 bits zeros

    fits : length zeros ≡ (length bits + 7) / 8
    fits = length-replicate n 0 ∙ ap (λ (t : ℕ). t / 8) (mod-eq_of_lt (omega arith))

    size : length packed ≡ (length bits + 7) / 8
    size = length-pack_bits bits 0 zeros ∙ fits

    clear : (j : ℕ) → 0 ≤ j → bit_of zeros j ≡ 0
    clear j _ = bit_of-zeros n j

-- A bitfield that one side builds and the other records is the sender's list of chunks, filled up
-- with `false` to a whole number of bytes, for any number of chunks below 2 ^ 32 - 16.
pub record_bitfield-bitfield_bytes :
    (bits : List Bool)
    → length bits < 4294967280
    → record_bitfield (bitfield_bytes bits) ≡ bits ++ replicate ((8 - length bits % 8) % 8) false
record_bitfield-bitfield_bytes bits h =
    list_ext false (record_bitfield (bitfield_bytes bits)) (bits ++ pad) lengths entry
  where
    pad : List Bool
    pad = replicate ((8 - length bits % 8) % 8) false

    total : length (record_bitfield (bitfield_bytes bits)) ≡ 8 * ((length bits + 7) / 8)
    total =
        unfold record_bitfield in
        (length-unpack_bits _ 0 (bitfield_bytes bits) ∙ omega (arith, length-bitfield_bytes bits h))

    filled : length (bits ++ pad) ≡ 8 * ((length bits + 7) / 8)
    filled =
        omega (arith, length-append bits pad, length-replicate ((8 - length bits % 8) % 8) false)

    lengths : length (record_bitfield (bitfield_bytes bits)) ≡ length (bits ++ pad)
    lengths = total ∙ sym filled

    padded : (i : ℕ) → get_or (bits ++ pad) i false ≡ get_or bits i false
    padded i = elim (Bool-cases (ltb i (length bits))) [
      | inl inside ↦ get_or-append_left bits pad i false (ground arith)
      | inr beyond ↦
          get_or-append_right bits pad i false (ground arith)
          ∙ get_or-replicate ((8 - length bits % 8) % 8) (i - length bits) false
          ∙ sym (get_or-out bits i false (ground arith))
    ]

    entry :
        (i : ℕ)
        → get_or (record_bitfield (bitfield_bytes bits)) i false ≡ get_or (bits ++ pad) i false
    entry i = elim (Bool-cases (ltb i (8 * ((length bits + 7) / 8)))) [
      | inl inside ↦ get_or-record_bitfield bits i h (ground arith) ∙ sym (padded i)
      | inr beyond ↦
          get_or-out (record_bitfield (bitfield_bytes bits)) i false (ground (arith, total))
          ∙ sym (get_or-out (bits ++ pad) i false (ground (arith, filled)))
    ]
