-- ===== src/TrackerServer/Swarm.antt =====
-- What an announcement and a cleanup leave in a swarm.
use new_thinbt.Common.{
  ℕ, suc, ◌≤◌, ◌≡◌, refl, inl, inr, true, false, List, [], ◌∷◌, All, Bool-cases, arith,
  if◌then◌else◌,
}
use new_thinbt.Common.Bytes.{bytes_eq, bytes_eq_refl}
use new_thinbt.TrackerServer.{
  TrackerPeerEntry, Swarms, is_endpoint, swarm_of, put_swarm, upsert, other_peers, announce,
  without_stale, cleanup_stale,
}

-- How many entries of the swarm are the endpoint's.
unfoldable pub entries : List ℕ → ℕ → List TrackerPeerEntry → ℕ
entries ip port [] = 0
entries ip port (p ∷ swarm) =
    if is_endpoint ip port p then suc (entries ip port swarm) else entries ip port swarm

is_endpoint_self : (entry : TrackerPeerEntry) → is_endpoint entry.ip entry.port entry ≡ true
unfolding is_endpoint
is_endpoint_self entry = rw (bytes_eq_refl entry.ip) (ground arith)

entries-upsert :
    (entry : TrackerPeerEntry) (swarm : List TrackerPeerEntry)
    → entries entry.ip entry.port swarm ≤ 1
    → entries entry.ip entry.port (upsert entry swarm) ≡ 1
unfolding entries upsert
entries-upsert entry [] le = rw (entries, is_endpoint_self entry) refl
entries-upsert entry (p ∷ swarm) le = elim (Bool-cases (is_endpoint entry.ip entry.port p)) [
  | inl same ↦ rw (upsert, same, entries, is_endpoint_self entry) (ground (arith, le, same))
  | inr other ↦
      let ih = entries-upsert entry swarm (ground (arith, le, other)) in
      rw (upsert, other, entries, other) ih
]

swarm_of-put_swarm :
    (hash : List ℕ) (new : List TrackerPeerEntry) (swarms : Swarms)
    → swarm_of hash (put_swarm hash new swarms) ≡ new
unfolding swarm_of put_swarm
swarm_of-put_swarm hash new [] = rw (swarm_of, bytes_eq_refl hash) refl
swarm_of-put_swarm hash new ((key, swarm) ∷ swarms) = elim (Bool-cases (bytes_eq key hash)) [
  | inl same ↦ rw (put_swarm, same, swarm_of, same) refl
  | inr other ↦ rw (put_swarm, other, swarm_of, other) (swarm_of-put_swarm hash new swarms)
]

swarm_of-cleanup :
    (hash : List ℕ) (swarms : Swarms) (now timeout_sec : ℕ)
    → swarm_of hash (cleanup_stale swarms now timeout_sec)
      ≡ without_stale now timeout_sec (swarm_of hash swarms)
unfolding swarm_of cleanup_stale without_stale
swarm_of-cleanup hash [] now timeout_sec = refl
swarm_of-cleanup hash ((key, swarm) ∷ swarms) now timeout_sec =
    elim (Bool-cases (bytes_eq key hash)) [
      | inl same ↦ rw (cleanup_stale, swarm_of, same) refl
      | inr other ↦
          rw (cleanup_stale, swarm_of, other) (swarm_of-cleanup hash swarms now timeout_sec)
    ]

other_peers-others :
    (ip : List ℕ) (port : ℕ) (swarm : List TrackerPeerEntry)
    → All (λ p. is_endpoint ip port p ≡ false) (other_peers ip port swarm)
unfolding other_peers
other_peers-others ip port [] = tt
other_peers-others ip port (p ∷ swarm) = elim (Bool-cases (is_endpoint ip port p)) [
  | inl same ↦ rw (other_peers, same) (other_peers-others ip port swarm)
  | inr other ↦ rw (other_peers, other) (other, other_peers-others ip port swarm)
]

-- The answer to an announcement never lists the endpoint that announces, given that sorting brings in
-- no entry that was not there.
pub announce-others :
    (sort : List TrackerPeerEntry → List TrackerPeerEntry)
    → ((P : TrackerPeerEntry → Type 0) (xs : List TrackerPeerEntry) → All P xs → All P (sort xs))
    → (swarms : Swarms) (hash ip : List ℕ) (port speed_mbps now : ℕ)
    → All (λ p. is_endpoint ip port p ≡ false) (announce sort swarms hash ip port speed_mbps now).1
unfolding announce
announce-others sort sort_All swarms hash ip port speed_mbps now =
    sort_All _ _ (other_peers-others ip port _)

-- An endpoint with at most one entry has exactly one after its announcement: a repeated announcement
-- does not add a second.
pub entries-announce :
    (sort : List TrackerPeerEntry → List TrackerPeerEntry) (swarms : Swarms) (hash ip : List ℕ)
    (port speed_mbps now : ℕ)
    → entries ip port (swarm_of hash swarms) ≤ 1
    → entries ip port (swarm_of hash (announce sort swarms hash ip port speed_mbps now).0) ≡ 1
unfolding announce
entries-announce sort swarms hash ip port speed_mbps now le =
    rw (swarm_of-put_swarm hash _ swarms) (entries-upsert _ (swarm_of hash swarms) le)
