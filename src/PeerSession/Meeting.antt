-- ===== src/PeerSession/Meeting.antt =====
-- Two sessions that greet each other.
use new_thinbt.Common.{ℕ, ◌<◌, ◌≡◌, true, List, length, ◌∷◌, if◌then◌else◌}
use new_thinbt.PeerSession.Greeting.{connected, Greeting, handshake_bytes}

-- What a session sends in its handshake, at the widths of the fields.
pub record IsGreeter (g : Greeting) (peer_id : List ℕ) : Type 0 where
  pub hash_size : length g.info_hash ≡ 20
  pub id_size : length peer_id ≡ 20
  pub speed_lt : g.local_speed_mbps < 4294967296
  pub port_lt : g.local_listen_port < 65536

-- What is asked of a session `b'` that was `b` and accepted the handshake of `a`: it has sent its own
-- handshake, with `peer_id`, exactly if it had not before, and nothing else.
pub record HasMet (b b' a : Greeting) (peer_id : List ℕ) : Type 0 where
  pub established : b'.state ≡ connected
  pub marked : b'.handshake_sent ≡ true
  pub answered :
      b'.outgoing
      ≡ (if b.handshake_sent then b.outgoing else (handshake_bytes b peer_id ∷ b.outgoing))
  pub speed_known : b'.remote_speed_mbps ≡ a.local_speed_mbps
  pub port_known : b'.remote_listen_port ≡ a.local_listen_port
