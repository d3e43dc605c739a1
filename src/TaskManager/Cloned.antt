-- ===== src/TaskManager/Cloned.antt =====
-- What an update reuses of the old file.
use new_thinbt.Common.{
  ℕ, ◌⊎◌, ◌≡◌, refl, sym, subst, inl, inr, Bool, true, ◌&&◌, Option, none, some, List, [], ◌∷◌, All,
  All-append, ◌==◌, Bool-cases, Option-cases, arith,
}
use new_thinbt.Common.Bytes.{bytes_eq, bytes_eq_sound}
use new_thinbt.Seed.{ChunkEntry}
use new_thinbt.TaskManager.Reuse.{
  ChunkIndex, add_chunk, index_chunks, chunks_with, take_candidate, keep_candidates, put_candidates,
  update_matches,
}

-- The chunk is one of those in the list.
unfoldable pub IsListed : ChunkEntry → List ChunkEntry → Type 0
IsListed c [] = ⊥
IsListed c (d ∷ chunks) = (c ≡ d) ⊎ IsListed c chunks

All-IsListed :
    (scan chunks : List ChunkEntry)
    → ((c : ChunkEntry) → IsListed c chunks → IsListed c scan)
    → All (λ c. IsListed c scan) chunks
unfolding IsListed
All-IsListed scan [] inside = tt
All-IsListed scan (c ∷ chunks) inside =
    (inside c (inl refl), All-IsListed scan chunks (λ d listed. inside d (inr listed)))

-- A chunk of the scan with the digest.
abbrev pub HasKey : List ChunkEntry → List ℕ → ChunkEntry → Type 0
HasKey scan key c = (c.sha256 ≡ key) × IsListed c scan

-- The chunks under a digest have it, and come from the scan.
abbrev pub IsKeyed : List ChunkEntry → ChunkIndex → Type 0
IsKeyed scan = All (λ entry. All (HasKey scan entry.0) entry.1)

add_chunk-IsKeyed :
    (all : List ChunkEntry) (c : ChunkEntry) (index : ChunkIndex)
    → IsListed c all
    → IsKeyed all index
    → IsKeyed all (add_chunk c index)
unfolding add_chunk
add_chunk-IsKeyed all c [] listed keyed = (((refl, listed), tt), tt)
add_chunk-IsKeyed all c ((key, chunks) ∷ index) listed keyed =
    elim (Bool-cases (bytes_eq key c.sha256)) [
      | inl same ↦
          rw (add_chunk, same)
            (
              All-append (HasKey all key) chunks (c ∷ []) keyed.0
                  ((sym (bytes_eq_sound key c.sha256 same), listed), tt),
              keyed.1,
            )
      | inr other ↦ rw (add_chunk, other) (keyed.0, add_chunk-IsKeyed all c index listed keyed.1)
    ]

index_chunks-IsKeyed :
    (all scan : List ChunkEntry) (index : ChunkIndex)
    → All (λ c. IsListed c all) scan
    → IsKeyed all index
    → IsKeyed all (index_chunks scan index)
unfolding index_chunks
index_chunks-IsKeyed all [] index listed keyed = keyed
index_chunks-IsKeyed all (c ∷ scan) index listed keyed =
    index_chunks-IsKeyed all scan (add_chunk c index) listed.1
      (add_chunk-IsKeyed all c index listed.0 keyed)

chunks_with-HasKey :
    (all : List ChunkEntry) (key : List ℕ) (index : ChunkIndex)
    → IsKeyed all index
    → All (HasKey all key) (chunks_with key index)
unfolding chunks_with
chunks_with-HasKey all key [] keyed = tt
chunks_with-HasKey all key ((k, chunks) ∷ index) keyed = elim (Bool-cases (bytes_eq k key)) [
  | inl same ↦
      rw (chunks_with, same)
        (subst (λ d. All (HasKey all d) chunks) (bytes_eq_sound k key same) keyed.0)
  | inr other ↦ rw (chunks_with, other) (chunks_with-HasKey all key index keyed.1)
]

keep_key-IsKeyed :
    (all : List ChunkEntry) (k : List ℕ) (rest : List ChunkEntry) (index : ChunkIndex)
    → All (HasKey all k) rest
    → IsKeyed all index
    → IsKeyed all (keep_candidates k rest index)
unfolding keep_candidates
keep_key-IsKeyed all k [] index has keyed = keyed
keep_key-IsKeyed all k (c ∷ rest) index has keyed = (has, keyed)

put_candidates-IsKeyed :
    (all : List ChunkEntry) (key : List ℕ) (rest : List ChunkEntry) (index : ChunkIndex)
    → All (HasKey all key) rest
    → IsKeyed all index
    → IsKeyed all (put_candidates key rest index)
unfolding put_candidates
put_candidates-IsKeyed all key rest [] has keyed = tt
put_candidates-IsKeyed all key rest ((k, chunks) ∷ index) has keyed =
    elim (Bool-cases (bytes_eq k key)) [
      | inr other ↦
          rw (put_candidates, other)
            (keyed.0, put_candidates-IsKeyed all key rest index has keyed.1)
      | inl same ↦
          rw (put_candidates, same)
            (keep_key-IsKeyed all k rest index
              (subst (λ d. All (HasKey all d) rest) (sym (bytes_eq_sound k key same)) has) keyed.1)
    ]

module _ (clone_range : ℕ → ℕ → ℕ → Bool) (scan : List ChunkEntry) where
  -- A range that may stand for a wanted chunk: it is one of the scan, has its digest and length, and
  -- was cloned to its place.
  pub record IsCloned (want c : ChunkEntry) : Type 0 where
    pub scanned : IsListed c scan
    pub digest : c.sha256 ≡ want.sha256
    pub size : c.length ≡ want.length
    pub copied : clone_range c.offset want.offset want.length ≡ true

  -- There is one answer for each wanted chunk, and every match is good.
  unfoldable pub AllCloned : List ChunkEntry → List (Option ChunkEntry) → Type 0
  AllCloned [] [] = Unit {0}
  AllCloned [] (_ ∷ matches) = ⊥
  AllCloned (want ∷ wanted) [] = ⊥
  AllCloned (want ∷ wanted) (none ∷ matches) = AllCloned wanted matches
  AllCloned (want ∷ wanted) (some c ∷ matches) = IsCloned want c × AllCloned wanted matches

  -- A candidate that was taken is good, and the others keep their digest.
  unfoldable pub IsTaken : ChunkEntry → Option (ChunkEntry × List ChunkEntry) → Type 0
  IsTaken want none = Unit {0}
  IsTaken want (some (c, rest)) = IsCloned want c × All (HasKey scan want.sha256) rest

  take_candidate-IsTaken :
      (want : ChunkEntry) (candidates : List ChunkEntry)
      → All (HasKey scan want.sha256) candidates
      → IsTaken want (take_candidate clone_range want candidates)
  unfolding take_candidate IsTaken
  take_candidate-IsTaken want [] has = tt
  take_candidate-IsTaken want (d ∷ candidates) has =
      elim (Bool-cases
        ((d.length == want.length) && clone_range d.offset want.offset want.length)) [
          | inl fits ↦
              let cloned : IsCloned want d = record {
                scanned = has.0.1;
                digest = has.0.0;
                size = ground (arith, fits);
                copied = ground (arith, fits);
              } in
              rw (take_candidate, fits) (cloned, has.1)
          | inr misfit ↦
              let ih = take_candidate-IsTaken want candidates has.1 in
              elim (Option-cases (take_candidate clone_range want candidates)) [
                | inl absent ↦ rw (take_candidate, misfit, absent) tt
                | inr (found, present) ↦
                    let taken : IsTaken want (some found) = subst (IsTaken want) present ih in
                    rw (take_candidate, misfit, present) (taken.0, (has.0, taken.1))
              ]
        ]

  matches-AllCloned :
      (wanted : List ChunkEntry) (index : ChunkIndex)
      → IsKeyed scan index
      → AllCloned wanted (update_matches clone_range index wanted)
  unfolding update_matches AllCloned IsTaken
  matches-AllCloned [] index keyed = tt
  matches-AllCloned (want ∷ wanted) index keyed =
      let taken =
        take_candidate-IsTaken want (chunks_with want.sha256 index)
          (chunks_with-HasKey scan want.sha256 index keyed) in
      elim (Option-cases (take_candidate clone_range want (chunks_with want.sha256 index))) [
        | inl absent ↦ rw (update_matches, absent) (matches-AllCloned wanted index keyed)
        | inr (found, present) ↦
            let good : IsTaken want (some found) = subst (IsTaken want) present taken in
            rw (update_matches, present)
              (
                good.0,
                matches-AllCloned wanted (put_candidates want.sha256 found.1 index)
                    (put_candidates-IsKeyed scan want.sha256 found.1 index good.1 keyed),
              )
      ]

  -- An update counts a chunk as there only where the scan of the old file has a chunk with its digest
  -- and its length, and the range of that chunk was cloned to its place in the new file; it has one
  -- answer for each wanted chunk.
  pub update_matches-AllCloned :
      (wanted : List ChunkEntry)
      → AllCloned wanted (update_matches clone_range (index_chunks scan []) wanted)
  update_matches-AllCloned wanted =
      matches-AllCloned wanted (index_chunks scan [])
        (index_chunks-IsKeyed scan scan [] (All-IsListed scan scan (λ c listed. listed)) tt)
