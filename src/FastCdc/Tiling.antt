-- ===== src/FastCdc/Tiling.antt =====
-- The chunks of a scan tile the buffer, within the configured sizes, with the hashes of their bytes.
use native.Mathlib.Nat.{mod-eq_of_lt}
use new_thinbt.Common.{
  ℕ, zero, suc, ◌+◌, ◌-◌, ◌%◌, ◌≤◌, ◌<◌, min, max, ◌≡◌, ◌≢◌, refl, sym, ap, ap₂, ◌∙◌, ◌⊎◌, inl, inr,
  true, false, List, [], ◌∷◌, ◌++◌, length, take, drop, ◌==◌, if◌then◌else◌, Bool-cases, arith,
  u32_mod, take-append-drop,
}
use new_thinbt.Seed.{ChunkEntry}
use new_thinbt.FastCdc.{
  FastCdcConfig, ScanState, gear_update, init_scan_state, is_cut, chunk_at, scan_loop,
  fastcdc_scan_buffer,
}

module _ (sha256 : List ℕ → List ℕ) where
  -- `chunks` is a division of `buffer` from `off` on: each chunk begins where the one before it
  -- ended, has between 1 and max(1, hi) bytes and the hash of its bytes; each but the last has at
  -- least min(lo, hi) bytes; and the last ends with the buffer.
  abbrev pub Divides : List ℕ → ℕ → ℕ → ℕ → List ChunkEntry → Type 0
  Divides buffer lo hi off [] = off ≡ length buffer
  Divides buffer lo hi off (c ∷ cs) =
      (c.offset ≡ off)
      × (1 ≤ c.length)
      × (c.length ≤ max 1 hi)
      × (c.sha256 ≡ sha256 (take c.length (drop off buffer)))
      × ((cs ≡ []) ⊎ (min lo hi ≤ c.length))
      × Divides buffer lo hi (off + c.length) cs

  module _ (st : ScanState) (buffer : List ℕ) (size_is : st.size ≡ length buffer)
      (hi_lt : st.max_size < 4294967296) where
    -- Where the loop stands: `rest` is what is left at `i`, and the chunk in progress is small.
    record At (i off : ℕ) (rest : List ℕ) : Type 0 where
      begun : off ≤ i
      left : i + length rest ≡ length buffer
      small : i - off < max 1 st.max_size
      ended : rest ≡ [] → off ≡ i

    chunk_is :
        (i off : ℕ)
        → off ≤ i
        → i < length buffer
        → i - off < max 1 st.max_size
        → chunk_at sha256 st buffer i off ≡ record {
          offset = off;
          length = i - off + 1;
          sha256 = sha256 (take (i - off + 1) (drop off buffer));
        }
    unfolding chunk_at
    chunk_is i off h lt small =
        let e : (if i == st.size - 1 then st.size - off else i - off + 1) ≡ i - off + 1 =
          ground (arith, size_is) in
        let m : (i - off + 1) % u32_mod ≡ i - off + 1 = mod-eq_of_lt (omega arith) in rw (e, m)

    cut_reason :
        (i off fp : ℕ)
        → is_cut st i off fp ≡ true
        → (i ≡ length buffer - 1) ⊎ (min st.min_size st.max_size ≤ i - off + 1)
    unfolding is_cut
    cut_reason i off fp h = ground (arith, size_is)

    more_reason :
        (i off fp : ℕ)
        → is_cut st i off fp ≡ false
        → (i ≢ length buffer - 1) × (i - off + 1 < st.max_size)
    unfolding is_cut
    more_reason i off fp h = ground (arith, size_is)

    scan_loop-end :
        (i off fp : ℕ) (rest : List ℕ)
        → length rest ≡ 0
        → scan_loop sha256 st buffer i off fp rest ≡ []
    unfolding scan_loop
    scan_loop-end i off fp [] h = refl
    scan_loop-end i off fp (b ∷ rest) h = absurd (omega arith)

    scan_loop-Divides :
        (i off fp : ℕ) (rest : List ℕ)
        → At i off rest
        → Divides buffer st.min_size st.max_size off (scan_loop sha256 st buffer i off fp rest)
    unfolding scan_loop
    scan_loop-Divides i off fp [] at = at.ended refl ∙ omega (arith, at.left)
    scan_loop-Divides i off fp (b ∷ rest) at =
        elim (Bool-cases (is_cut st i off (gear_update b fp))) [
          | inl cut ↦
              let e : off + (i - off + 1) ≡ i + 1 = omega (arith, at.begun) in
              rw (cut, chunk_is i off at.begun (omega (arith, at.left)) at.small, e)
                (
                  refl,
                  omega arith,
                  omega (arith, at.small),
                  refl,
                  elim (cut_reason i off (gear_update b fp) cut) [
                    | inl last ↦
                        inl (scan_loop-end (i + 1) (i + 1) 0 rest (omega (arith, last, at.left)))
                    | inr big ↦ inr big
                  ],
                  scan_loop-Divides (i + 1) (i + 1) 0 rest (record {
                    begun = omega arith;
                    left = omega (arith, at.left);
                    small = omega arith;
                    ended = λ _. refl;
                  }),
                )
          | inr more ↦
              let why : (i ≢ length buffer - 1) × (i - off + 1 < st.max_size) =
                more_reason i off (gear_update b fp) more in
              rw more (
                scan_loop-Divides (i + 1) off (gear_update b fp) rest (record {
                  begun = omega (arith, at.begun);
                  left = omega (arith, at.left);
                  small = omega (arith, why, at.begun);
                  ended = λ e. absurd (omega (arith, why, at.left, ap length e));
                }))
        ]

  -- For every buffer and configuration with a `uint32_t` maximum, the chunks of a scan divide the
  -- buffer from its first byte to its last: in order, without gaps or overlaps, each with between 1
  -- and max(1, max_size) bytes and the hash of exactly its bytes, and each but the last with at
  -- least min(min_size, max_size) bytes.
  pub fastcdc_scan_buffer-Divides :
      (buffer : List ℕ) (config : FastCdcConfig)
      → config.max_size < 4294967296
      → Divides buffer config.min_size config.max_size 0 (fastcdc_scan_buffer sha256 buffer config)
  unfolding fastcdc_scan_buffer init_scan_state
  fastcdc_scan_buffer-Divides [] config h = refl
  fastcdc_scan_buffer-Divides (b ∷ bs) config h =
      let some_byte : (length (b ∷ bs) == 0) ≡ false = ground arith in
      rw some_byte (
        scan_loop-Divides (init_scan_state config (length (b ∷ bs))) (b ∷ bs) refl h 0 0 0 (b ∷ bs)
          (record {
            begun = omega arith;
            left = omega arith;
            small = omega arith;
            ended = λ e. cc;
          }))

-- The bytes of the chunks, one after the other.
abbrev pub bytes_of : List ℕ → List ChunkEntry → List ℕ
bytes_of buffer [] = []
bytes_of buffer (c ∷ cs) = take c.length (drop c.offset buffer) ++ bytes_of buffer cs

drop-nil : (n : ℕ) → drop {A = ℕ} n [] ≡ []
drop-nil zero = refl
drop-nil (suc n) = refl

drop-add : (m n : ℕ) (xs : List ℕ) → drop n (drop m xs) ≡ drop (m + n) xs
drop-add zero n xs = let e : n ≡ 0 + n = omega arith in ap (λ (k : ℕ). drop k xs) e
drop-add (suc m) n [] = drop-nil n ∙ sym (drop-nil (suc m + n))
drop-add (suc m) n (x ∷ xs) =
    let e : suc m + n ≡ suc (m + n) = omega arith in rw e (drop-add m n xs)

drop_all : (n : ℕ) (xs : List ℕ) → n ≡ length xs → drop n xs ≡ []
drop_all zero [] e = refl
drop_all zero (x ∷ xs) e = absurd (omega arith)
drop_all (suc n) [] e = refl
drop_all (suc n) (x ∷ xs) e = drop_all n xs (omega arith)

bytes_of_rest :
    (sha256 : List ℕ → List ℕ) (buffer : List ℕ) (lo hi off : ℕ) (cs : List ChunkEntry)
    → Divides sha256 buffer lo hi off cs
    → bytes_of buffer cs ≡ drop off buffer
bytes_of_rest sha256 buffer lo hi off [] d = sym (drop_all off buffer d)
bytes_of_rest sha256 buffer lo hi off (c ∷ cs) d =
    ap₂ (λ (o : ℕ) t. take c.length (drop o buffer) ++ t) d.0
      (bytes_of_rest sha256 buffer lo hi (off + c.length) cs d.5
        ∙ sym (drop-add off c.length buffer))
    ∙ take-append-drop c.length (drop off buffer)

-- The bytes of the chunks, one after the other, are the buffer.
pub bytes_of-scan :
    (sha256 : List ℕ → List ℕ) (buffer : List ℕ) (config : FastCdcConfig)
    → config.max_size < 4294967296
    → bytes_of buffer (fastcdc_scan_buffer sha256 buffer config) ≡ buffer
bytes_of-scan sha256 buffer config h =
    bytes_of_rest sha256 buffer config.min_size config.max_size 0
      (fastcdc_scan_buffer sha256 buffer config)
      (fastcdc_scan_buffer-Divides sha256 buffer config h)
