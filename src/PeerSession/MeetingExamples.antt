-- ===== src/PeerSession/MeetingExamples.antt =====
-- The theorem on handshakes at two sessions.
use new_thinbt.Common.{ℕ, false, List, [], replicate}
use new_thinbt.PeerSession.Greeting.{handshaking, Greeting}

abbrev twenty : ℕ → List ℕ
twenty = replicate 20

abbrev greeter : ℕ → Greeting
greeter hash = record {
  info_hash = twenty hash;
  local_speed_mbps = 1000;
  local_listen_port = 6881;
  state = handshaking;
  handshake_sent = false;
  remote_speed_mbps = 0;
  remote_listen_port = 0;
  outgoing = [];
  timers = 0;
  reads = 0;
  greeted = 0;
  disconnects = 0;
}
