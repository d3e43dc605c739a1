-- ===== src/PeerSession/Greeting.antt =====
-- src/daemon/peer_session.cpp: `send_handshake` and `handle_handshake`.
use new_thinbt.Common.{ℕ, suc, Bool, true, false, Option, none, some, List, ◌∷◌, take}
use new_thinbt.Common.Bytes.{bytes_eq}
use new_thinbt.Protocol.{
  Handshake, empty_handshake, build_handshake, listen_port, serialize_handshake, parse_handshake,
}

-- PeerSession::State
pub data State : Type 0 where
  handshaking connected disconnected : State

-- `outgoing` lists the messages given to send_message, the newest first; `timers` and `reads` count
-- the calls of start_eval_timer and start_read_header, `greeted` and `disconnects` those of the two
-- callbacks of the owner.
pub record Greeting : Type 0 where
  pub info_hash : List ℕ
  pub local_speed_mbps : ℕ
  pub local_listen_port : ℕ
  pub state : State
  pub handshake_sent : Bool
  pub remote_speed_mbps : ℕ
  pub remote_listen_port : ℕ
  pub outgoing : List (List ℕ)
  pub timers : ℕ
  pub reads : ℕ
  pub greeted : ℕ
  pub disconnects : ℕ

-- The 67 bytes of a session's handshake. `peer_id` are the 20 bytes that rand gives.
unfoldable pub handshake_bytes : Greeting → List ℕ → List ℕ
unfolding empty_handshake build_handshake serialize_handshake
handshake_bytes g peer_id = serialize_handshake (
    build_handshake (record empty_handshake { peer_id = peer_id }) g.info_hash g.local_speed_mbps
      g.local_listen_port)

unfoldable pub send_handshake : Greeting → List ℕ → Greeting
unfolding handshake_bytes
send_handshake g peer_id = record g {
  outgoing = handshake_bytes g peer_id ∷ g.outgoing;
  handshake_sent = true;
}

unfoldable pub disconnect_from : State → Greeting → Greeting
disconnect_from disconnected g = g
disconnect_from handshaking g = record g { state = disconnected; disconnects = suc g.disconnects }
disconnect_from connected g = record g { state = disconnected; disconnects = suc g.disconnects }

-- An inbound session answers with its own handshake; an outbound one has sent it.
unfoldable pub send_unless : Bool → Greeting → List ℕ → Greeting
unfolding send_handshake
send_unless true g peer_id = g
send_unless false g peer_id = send_handshake g peer_id

unfoldable pub establish : Greeting → Greeting
establish g = record g {
  state = connected;
  timers = suc g.timers;
  reads = suc g.reads;
  greeted = suc g.greeted;
}

-- The test of the hash, and the one of the bytes before it.
unfoldable pub accept_hash : Bool → Greeting → Handshake → List ℕ → Greeting
unfolding disconnect_from listen_port send_unless establish
accept_hash false g h peer_id = disconnect_from g.state g
accept_hash true g h peer_id = establish (
    send_unless g.handshake_sent
      (record g { remote_speed_mbps = h.speed_mbps; remote_listen_port = listen_port h }) peer_id)

unfoldable pub accept_parsed : Option Handshake → Greeting → List ℕ → Greeting
unfolding disconnect_from bytes_eq accept_hash
accept_parsed none g peer_id = disconnect_from g.state g
accept_parsed (some h) g peer_id =
    accept_hash (bytes_eq (take 20 h.info_hash) (take 20 g.info_hash)) g h peer_id

-- `failed` is an error of the read.
unfoldable pub handle_handshake : Greeting → Bool → List ℕ → List ℕ → Greeting
unfolding disconnect_from parse_handshake accept_parsed
handle_handshake g true bytes peer_id = disconnect_from g.state g
handle_handshake g false bytes peer_id = accept_parsed (parse_handshake bytes) g peer_id
