-- ===== src/TaskManager/Reuse.antt =====
-- src/daemon/task_manager.cpp: the chunks that are found in a file that is there: `cmd_add`, which
-- resumes a download, and `cmd_update`, which copies chunks of an older version.
use new_thinbt.Common.{
  ℕ, ◌+◌, ◌%◌, Bool, true, false, ◌&&◌, Option, none, some, List, [], ◌∷◌, ◌++◌, if◌then◌else◌,
  ◌==◌, u64_mod,
}
use new_thinbt.Common.Bytes.{bytes_eq}
use new_thinbt.Seed.{ChunkEntry}

-- An std::unordered_map from digests to the chunks with the digest, in the order of the scan.
abbrev pub ChunkIndex : Type 0
ChunkIndex = List (List ℕ × List ChunkEntry)

unfoldable pub add_chunk : ChunkEntry → ChunkIndex → ChunkIndex
unfolding bytes_eq
add_chunk c [] = (c.sha256, c ∷ []) ∷ []
add_chunk c ((key, chunks) ∷ index) =
    if bytes_eq key c.sha256
    then (key, chunks ++ (c ∷ [])) ∷ index
    else (key, chunks) ∷ add_chunk c index

unfoldable pub index_chunks : List ChunkEntry → ChunkIndex → ChunkIndex
unfolding add_chunk
index_chunks [] index = index
index_chunks (c ∷ chunks) index = index_chunks chunks (add_chunk c index)

-- A digest that is not there has no chunks.
unfoldable pub chunks_with : List ℕ → ChunkIndex → List ChunkEntry
unfolding bytes_eq
chunks_with key [] = []
chunks_with key ((k, chunks) ∷ index) = if bytes_eq k key then chunks else chunks_with key index

-- The loop of `cmd_add` over the candidates for a chunk.
unfoldable pub any_in_place : ChunkEntry → List ChunkEntry → Bool
any_in_place want [] = false
any_in_place want (have ∷ chunks) =
    if (have.offset == want.offset) && (have.length == want.length)
    then true
    else any_in_place want chunks

-- init_bf
unfoldable pub resume_bits : ChunkIndex → List ChunkEntry → List Bool
unfolding chunks_with any_in_place
resume_bits index [] = []
resume_bits index (want ∷ wanted) =
    any_in_place want (chunks_with want.sha256 index) ∷ resume_bits index wanted

-- initial_bytes_done
unfoldable pub matched_bytes : List Bool → List ChunkEntry → ℕ → ℕ
matched_bytes [] wanted bytes = bytes
matched_bytes (b ∷ bits) [] bytes = bytes
matched_bytes (b ∷ bits) (want ∷ wanted) bytes =
    matched_bytes bits wanted (if b then (bytes + want.length) % u64_mod else bytes)

unfoldable pub no_bits : List ChunkEntry → List Bool
no_bits [] = []
no_bits (want ∷ wanted) = false ∷ no_bits wanted

-- The bits of a task that is added, where `scan` is what the scan of the file gives: nothing without
-- a file or when the scan throws.
unfoldable pub initial_bits : Option (List ChunkEntry) → List ChunkEntry → List Bool
unfolding index_chunks resume_bits no_bits
initial_bits none wanted = no_bits wanted
initial_bits (some scan) wanted = resume_bits (index_chunks scan []) wanted

-- `cmd_update`: the first candidate of the length that can be cloned is used up. `clone_range` is
-- what the system answers for a range of the old file and its place in the new one.
unfoldable pub take_candidate :
    (ℕ → ℕ → ℕ → Bool) → ChunkEntry → List ChunkEntry → Option (ChunkEntry × List ChunkEntry)
take_candidate clone_range want [] = none
take_candidate clone_range want (c ∷ candidates) =
    elim ((c.length == want.length) && clone_range c.offset want.offset want.length) [
      | true ↦ some (c, candidates)
      | false ↦ elim (take_candidate clone_range want candidates) [
        | none ↦ none
        | some found ↦ some (found.0, c ∷ found.1)
      ]
    ]

-- The candidates of a digest after one was used; a digest without any leaves the index.
unfoldable pub keep_candidates : List ℕ → List ChunkEntry → ChunkIndex → ChunkIndex
keep_candidates key [] index = index
keep_candidates key (c ∷ cs) index = (key, c ∷ cs) ∷ index

unfoldable pub put_candidates : List ℕ → List ChunkEntry → ChunkIndex → ChunkIndex
unfolding bytes_eq keep_candidates
put_candidates key rest [] = []
put_candidates key rest ((k, chunks) ∷ index) = elim (bytes_eq k key) [
  | false ↦ (k, chunks) ∷ put_candidates key rest index
  | true ↦ keep_candidates k rest index
]

-- The loop over the chunks of the new file: for each the range of the old file that it was cloned
-- from, if any.
unfoldable pub update_matches :
    (ℕ → ℕ → ℕ → Bool) → ChunkIndex → List ChunkEntry → List (Option ChunkEntry)
unfolding chunks_with take_candidate put_candidates
update_matches clone_range index [] = []
update_matches clone_range index (want ∷ wanted) =
    elim (take_candidate clone_range want (chunks_with want.sha256 index)) [
      | none ↦ none ∷ update_matches clone_range index wanted
      | some found ↦
          some found.0
          ∷ update_matches clone_range (put_candidates want.sha256 found.1 index) wanted
    ]

unfoldable pub is_some : Option ChunkEntry → Bool
is_some none = false
is_some (some c) = true

unfoldable pub update_bits : List (Option ChunkEntry) → List Bool
unfolding is_some
update_bits [] = []
update_bits (found ∷ matches) = is_some found ∷ update_bits matches
