-- ===== src/TaskManager/Matches.antt =====
-- Which chunks of a download are found in the files that are there.
use new_thinbt.Common.{
  ℕ, ◌≡◌, refl, sym, ap, ap₂, ◌∙◌, inl, inr, Bool, true, false, ◌&&◌, ◌||◌, some, List, [], ◌∷◌,
  ◌++◌, ◌==◌, Bool-cases, arith,
}
use new_thinbt.Common.Bytes.{bytes_eq, bytes_eq_sound}
use new_thinbt.Seed.{ChunkEntry}
use new_thinbt.TaskManager.Reuse.{
  ChunkIndex, add_chunk, index_chunks, chunks_with, any_in_place, resume_bits, initial_bits,
}

-- The same digest at the same place.
unfoldable pub is_same_chunk : ChunkEntry → ChunkEntry → Bool
unfolding bytes_eq
is_same_chunk want have =
    bytes_eq have.sha256 want.sha256
    && ((have.offset == want.offset) && (have.length == want.length))

-- One of the chunks of a scan is the wanted one.
unfoldable pub is_there : List ChunkEntry → ChunkEntry → Bool
unfolding is_same_chunk
is_there [] want = false
is_there (have ∷ scan) want = is_same_chunk want have || is_there scan want

unfoldable pub each_there : List ChunkEntry → List ChunkEntry → List Bool
unfolding is_there
each_there scan [] = []
each_there scan (want ∷ wanted) = is_there scan want ∷ each_there scan wanted

any_in_place-append :
    (want c : ChunkEntry) (chunks : List ChunkEntry)
    → any_in_place want (chunks ++ (c ∷ []))
      ≡ any_in_place want chunks || ((c.offset == want.offset) && (c.length == want.length))
unfolding any_in_place
any_in_place-append want c [] = ground arith
any_in_place-append want c (d ∷ chunks) = ground (arith, any_in_place-append want c chunks)

bytes_eq_trans : (a b c : List ℕ) → bytes_eq a b ≡ true → bytes_eq a c ≡ bytes_eq b c
bytes_eq_trans a b c same = ap (λ t. bytes_eq t c) (bytes_eq_sound a b same)

not_both :
    (key a b : List ℕ) → bytes_eq key a ≡ false → bytes_eq key b ≡ true → bytes_eq a b ≡ false
not_both key a b different same = elim (Bool-cases (bytes_eq a b)) [
  | inr e ↦ e
  | inl e ↦
      let e' : false ≡ true = sym different ∙ ap (bytes_eq key) (bytes_eq_sound a b e) ∙ same in cc
]

in_place-add :
    (want c : ChunkEntry) (index : ChunkIndex)
    → any_in_place want (chunks_with want.sha256 (add_chunk c index))
      ≡ is_same_chunk want c || any_in_place want (chunks_with want.sha256 index)
unfolding chunks_with add_chunk is_same_chunk any_in_place
in_place-add want c [] = ground arith
in_place-add want c ((key, chunks) ∷ index) = elim (Bool-cases (bytes_eq key c.sha256)) [
  | inl same ↦
      let other = bytes_eq_trans key c.sha256 want.sha256 same in
      elim (Bool-cases (bytes_eq key want.sha256)) [
        | inl wanted ↦
            let e : bytes_eq c.sha256 want.sha256 ≡ true = sym other ∙ wanted in
            rw (add_chunk, same, chunks_with, wanted)
              (any_in_place-append want c chunks ∙ ground (arith, e))
        | inr unwanted ↦
            let e : bytes_eq c.sha256 want.sha256 ≡ false = sym other ∙ unwanted in
            rw (add_chunk, same, chunks_with, unwanted) (ground (arith, e))
      ]
  | inr different ↦ elim (Bool-cases (bytes_eq key want.sha256)) [
    | inl wanted ↦
        let e : bytes_eq c.sha256 want.sha256 ≡ false =
          not_both key c.sha256 want.sha256 different wanted in
        rw (add_chunk, different, chunks_with, wanted) (ground (arith, e))
    | inr unwanted ↦ rw (add_chunk, different, chunks_with, unwanted) (in_place-add want c index)
  ]
]

in_place-index :
    (want : ChunkEntry) (scan : List ChunkEntry) (index : ChunkIndex)
    → any_in_place want (chunks_with want.sha256 (index_chunks scan index))
      ≡ any_in_place want (chunks_with want.sha256 index) || is_there scan want
unfolding index_chunks is_there
in_place-index want [] index = ground arith
in_place-index want (c ∷ scan) index =
    ground (arith, in_place-index want scan (add_chunk c index), in_place-add want c index)

resume_bits-each :
    (scan wanted : List ChunkEntry)
    → resume_bits (index_chunks scan []) wanted ≡ each_there scan wanted
unfolding resume_bits each_there chunks_with any_in_place
resume_bits-each scan [] = refl
resume_bits-each scan (want ∷ wanted) =
    ap₂ (λ b bits. b ∷ bits) (in_place-index want scan []) (resume_bits-each scan wanted)

-- The chunks that a resumed download has are exactly those for which the scan of the file gives a
-- chunk with the same digest, offset and length: the index by digests changes nothing.
pub initial_bits-each_there :
    (scan wanted : List ChunkEntry) → initial_bits (some scan) wanted ≡ each_there scan wanted
unfolding initial_bits
initial_bits-each_there scan wanted = resume_bits-each scan wanted
