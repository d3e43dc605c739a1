-- ===== src/TrackerServer/Examples.antt =====
-- The theorems of the tracker at a swarm of two, and tests.
use new_thinbt.Common.{ℕ, ◌≡◌, refl, false, [], ◌∷◌, All, arith}
use new_thinbt.TrackerServer.{
  TrackerPeerEntry, Swarms, is_endpoint, swarm_of, announce, cleanup_stale,
}
use new_thinbt.TrackerServer.Swarm.{entries, announce-others, entries-announce}

abbrev entry_of : ℕ → ℕ → TrackerPeerEntry
entry_of host time = record { ip = host ∷ []; port = 6881; flags = 2; last_announce = time }

abbrev two_peers : Swarms
two_peers = ((7 ∷ []), entry_of 1 0 ∷ entry_of 2 5000000000 ∷ []) ∷ []

entries_two : entries (1 ∷ []) 6881 (swarm_of (7 ∷ []) two_peers) ≡ 1
unfolding entries swarm_of is_endpoint
entries_two = refl

announce-others_example :
    All
      (λ p. is_endpoint (1 ∷ []) 6881 p ≡ false)
      (announce (λ ps. ps) two_peers (7 ∷ []) (1 ∷ []) 6881 1000 9).1
announce-others_example =
    announce-others (λ ps. ps) (λ P xs all. all) two_peers (7 ∷ []) (1 ∷ []) 6881 1000 9

entries-announce_example :
    entries
      (1 ∷ [])
      6881
      (swarm_of (7 ∷ []) (announce (λ ps. ps) two_peers (7 ∷ []) (1 ∷ []) 6881 1000 9).0)
    ≡ 1
entries-announce_example =
    entries-announce (λ ps. ps) two_peers (7 ∷ []) (1 ∷ []) 6881 1000 9 (omega (arith, entries_two))

-- The cleanup after 91 seconds drops the peer that was silent for longer than 90.
cleanup_two : cleanup_stale two_peers 91000000000 90 ≡ ((7 ∷ []), entry_of 2 5000000000 ∷ []) ∷ []
unfolding cleanup_stale
cleanup_two = refl
