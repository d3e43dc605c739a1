-- ===== src/TrackerServer.antt =====
-- src/daemon/tracker_server.hpp and src/daemon/tracker_server.cpp: the swarms that the tracker keeps.
-- A string is the list of its bytes, a time a number of nanoseconds of the steady clock, and the map
-- of swarms a list of pairs.
pub mod Swarm
mod Examples
use new_thinbt.Common.{
  ℕ, ◌+◌, ◌-◌, ◌/◌, Bool, true, false, not, ◌&&◌, ◌||◌, List, [], ◌∷◌, ltb, leb, if◌then◌else◌,
  ◌==◌,
}
use new_thinbt.Common.Bytes.{bytes_eq}

pub record TrackerPeerEntry : Type 0 where
  pub ip : List ℕ
  pub port : ℕ
  pub flags : ℕ
  pub last_announce : ℕ

abbrev pub Swarms : Type 0
Swarms = List (List ℕ × List TrackerPeerEntry)

-- p.ip == peer_ip && p.port == peer_port
unfoldable pub is_endpoint : List ℕ → ℕ → TrackerPeerEntry → Bool
unfolding bytes_eq
is_endpoint ip port entry = bytes_eq entry.ip ip && (entry.port == port)

-- swarms_[hash], where a swarm that is not there is empty.
unfoldable pub swarm_of : List ℕ → Swarms → List TrackerPeerEntry
unfolding bytes_eq
swarm_of hash [] = []
swarm_of hash ((key, swarm) ∷ swarms) = if bytes_eq key hash then swarm else swarm_of hash swarms

unfoldable pub put_swarm : List ℕ → List TrackerPeerEntry → Swarms → Swarms
unfolding bytes_eq
put_swarm hash new [] = (hash, new) ∷ []
put_swarm hash new ((key, swarm) ∷ swarms) =
    if bytes_eq key hash then (key, new) ∷ swarms else (key, swarm) ∷ put_swarm hash new swarms

-- The first entry of the endpoint is replaced; without one the new entry goes to the end.
unfoldable pub upsert : TrackerPeerEntry → List TrackerPeerEntry → List TrackerPeerEntry
unfolding is_endpoint
upsert entry [] = entry ∷ []
upsert entry (p ∷ swarm) =
    if is_endpoint entry.ip entry.port p then entry ∷ swarm else p ∷ upsert entry swarm

unfoldable pub other_peers : List ℕ → ℕ → List TrackerPeerEntry → List TrackerPeerEntry
unfolding is_endpoint
other_peers ip port [] = []
other_peers ip port (p ∷ swarm) =
    let rest = other_peers ip port swarm in if is_endpoint ip port p then rest else p ∷ rest

-- `sort` is std::sort by descending flags; the order of equal flags is not specified.
unfoldable pub announce :
    (List TrackerPeerEntry → List TrackerPeerEntry)
    → Swarms
    → List ℕ
    → List ℕ
    → ℕ
    → ℕ
    → ℕ
    → Swarms × List TrackerPeerEntry
unfolding swarm_of put_swarm upsert other_peers
announce sort swarms hash ip port speed_mbps now =
    let entry : TrackerPeerEntry = record {
      ip = ip;
      port = port;
      flags = if leb 1000 speed_mbps then 2 else 0;
      last_announce = now;
    } in
    let swarm = upsert entry (swarm_of hash swarms) in
    (put_swarm hash swarm swarms, sort (other_peers ip port swarm))

-- duration_cast<seconds>(now - p.last_announce).count() > timeout_sec
unfoldable pub is_stale : ℕ → ℕ → TrackerPeerEntry → Bool
is_stale now timeout_sec p = ltb timeout_sec ((now - p.last_announce) / 1000000000)

unfoldable pub without_stale : ℕ → ℕ → List TrackerPeerEntry → List TrackerPeerEntry
unfolding is_stale
without_stale now timeout_sec [] = []
without_stale now timeout_sec (p ∷ swarm) =
    let rest = without_stale now timeout_sec swarm in
    if is_stale now timeout_sec p then rest else p ∷ rest

unfoldable pub cleanup_stale : Swarms → ℕ → ℕ → Swarms
unfolding without_stale
cleanup_stale [] now timeout_sec = []
cleanup_stale ((hash, swarm) ∷ swarms) now timeout_sec =
    (hash, without_stale now timeout_sec swarm) ∷ cleanup_stale swarms now timeout_sec
