-- ===== src/PeerManager/Sessions.antt =====
-- src/daemon/peer_manager.cpp: how sessions begin and end. A text is the list of its bytes, a time a
-- number of nanoseconds of the steady clock.
use new_thinbt.Common.{
  ℕ, Bool, true, false, not, ◌&&◌, ◌||◌, Option, none, some, List, [], ◌∷◌, ◌++◌, length, ltb, leb,
  if◌then◌else◌, ◌==◌, inc32,
}
use new_thinbt.Common.Bytes.{bytes_eq, byte_swap}
use new_thinbt.Common.Text.{codes}
use new_thinbt.Protocol.{PexPeer, build_pex, build_bitfield}
use new_thinbt.Scheduler.State.{Scheduler}
use new_thinbt.Scheduler.Peers.{on_peer_added, on_peer_removed, on_peer_speed}

-- MAX_PEERS
abbrev pub max_peers : ℕ
max_peers = 60

-- INADDR_NONE
abbrev pub inaddr_none : ℕ
inaddr_none = 4294967295

-- What the manager asks a session for and sets in it. `remote_ip` and `remote_port` are what the
-- socket answers: "unknown" and 0 until it is connected. `outgoing` lists the messages given to
-- send_message, the newest first.
pub record ManagedSession : Type 0 where
  pub slot_id : ℕ
  pub remote_ip : List ℕ
  pub remote_port : ℕ
  pub remote_listen_port : ℕ
  pub link_speed_reported : ℕ
  pub is_choked : Bool
  pub is_peer_interested : Bool
  pub recv_bytes : ℕ
  pub sent_bytes : ℕ
  pub last_download_eval_time : ℕ
  pub last_upload_eval_time : ℕ
  pub download_rate_kbps : ℕ
  pub upload_rate_kbps : ℕ
  pub outgoing : List (List ℕ)

-- An entry of recent_connects_ or recent_disconnects_, with its key.
pub record RecentPeer : Type 0 where
  pub ip : List ℕ
  pub when : ℕ
  pub port : ℕ
  pub flags : ℕ

-- `connects` lists the addresses that outbound sessions were started to, the newest first. A session
-- is told from the others by its slot.
pub record PeerManager : Type 0 where
  pub sessions : List ManagedSession
  pub next_slot_id : ℕ
  pub sched : Scheduler
  pub recent_connects : List RecentPeer
  pub recent_disconnects : List RecentPeer
  pub local_peer_ips : List (List ℕ)
  pub p2p_port : ℕ
  pub local_speed_mbps : ℕ
  pub initial_bitfield : List Bool
  pub connects : List (List ℕ × ℕ)

unfoldable pub has_text : List ℕ → List (List ℕ) → Bool
unfolding bytes_eq
has_text text [] = false
has_text text (t ∷ texts) = bytes_eq t text || has_text text texts

-- The system's inet_addr is a parameter.
unfoldable pub is_connectable_peer_ip : (List ℕ → ℕ) → List ℕ → Bool
unfolding bytes_eq
is_connectable_peer_ip inet_addr ip =
    not (bytes_eq ip [] || bytes_eq ip (codes "unknown"))
    && (not (bytes_eq ip (codes "0.0.0.0") || bytes_eq ip (codes "255.255.255.255"))
        && not (inet_addr ip == inaddr_none))

unfoldable pub is_self_peer_endpoint : List (List ℕ) → ℕ → List ℕ → ℕ → Bool
unfolding has_text
is_self_peer_endpoint local_ips local_port ip port = port == local_port && has_text ip local_ips

-- The loop that looks for a session with the address.
unfoldable pub has_session_to : List ℕ → List ManagedSession → Bool
unfolding bytes_eq
has_session_to ip [] = false
has_session_to ip (s ∷ sessions) = bytes_eq s.remote_ip ip || has_session_to ip sessions

unfoldable pub listen_or_remote_port : ManagedSession → ℕ
listen_or_remote_port s = if s.remote_listen_port == 0 then s.remote_port else s.remote_listen_port

unfoldable pub speed_flags : ManagedSession → ℕ
speed_flags s = if leb 1000 s.link_speed_reported then 2 else 0

unfoldable pub pex_peer_of : (List ℕ → ℕ) → ManagedSession → PexPeer
unfolding listen_or_remote_port speed_flags
pex_peer_of inet_addr s = record {
  ip = inet_addr s.remote_ip;
  port = byte_swap 2 (listen_or_remote_port s);
  flags = speed_flags s;
  reserved = 0;
}

unfoldable pub make_full_pex_list : (List ℕ → ℕ) → List ManagedSession → ℕ → List PexPeer
unfolding is_connectable_peer_ip pex_peer_of
make_full_pex_list inet_addr [] exclude = []
make_full_pex_list inet_addr (s ∷ sessions) exclude =
    let rest = make_full_pex_list inet_addr sessions exclude in
    if s.slot_id == exclude || not (is_connectable_peer_ip inet_addr s.remote_ip)
    then rest
    else pex_peer_of inet_addr s ∷ rest

-- A session that has begun: outbound before its socket is connected, inbound with its address.
unfoldable pub new_session : List ℕ → ℕ → ℕ → ManagedSession
new_session ip port now = record {
  slot_id = 0;
  remote_ip = ip;
  remote_port = port;
  remote_listen_port = 0;
  link_speed_reported = 0;
  is_choked = true;
  is_peer_interested = false;
  recv_bytes = 0;
  sent_bytes = 0;
  last_download_eval_time = now;
  last_upload_eval_time = now;
  download_rate_kbps = 0;
  upload_rate_kbps = 0;
  outgoing = [];
}

unfoldable pub on_peer_connected : PeerManager → ManagedSession → PeerManager
unfolding on_peer_added
on_peer_connected m sess = record m {
  next_slot_id = inc32 m.next_slot_id;
  sessions = m.sessions ++ (record sess { slot_id = m.next_slot_id } ∷ []);
  sched = on_peer_added m.sched m.next_slot_id sess.link_speed_reported;
}

unfoldable pub connect_unless : Bool → PeerManager → List ℕ → ℕ → ℕ → PeerManager
unfolding on_peer_connected new_session
connect_unless true m ip port now = m
connect_unless false m ip port now =
    on_peer_connected (record m { connects = (ip, port) ∷ m.connects })
      (new_session (codes "unknown") 0 now)

-- The early returns of `connect_to`.
unfoldable pub is_refused : (List ℕ → ℕ) → PeerManager → List ℕ → ℕ → Bool
unfolding is_connectable_peer_ip is_self_peer_endpoint has_session_to
is_refused inet_addr m ip port =
    leb max_peers (length m.sessions)
    || (not (is_connectable_peer_ip inet_addr ip)
        || (is_self_peer_endpoint m.local_peer_ips m.p2p_port ip port
            || has_session_to ip m.sessions))

unfoldable pub connect_to : (List ℕ → ℕ) → PeerManager → List ℕ → ℕ → ℕ → PeerManager
unfolding is_refused connect_unless
connect_to inet_addr m ip port now = connect_unless (is_refused inet_addr m ip port) m ip port now

-- The callback of a peer exchange, which makes tests of its own before it connects.
unfoldable pub on_pex_peer : (List ℕ → ℕ) → PeerManager → List ℕ → ℕ → ℕ → PeerManager
unfolding connect_to is_connectable_peer_ip has_session_to
on_pex_peer inet_addr m ip port now =
    elim (leb max_peers (length m.sessions)
      || (not (is_connectable_peer_ip inet_addr ip) || has_session_to ip m.sessions)) [
        | true ↦ m
        | false ↦ connect_to inet_addr m ip port now
      ]

-- The handler of a connection that was accepted, from the address that the socket answers.
unfoldable pub accept_unless : Bool → PeerManager → List ℕ → ℕ → ℕ → PeerManager
unfolding on_peer_connected new_session
accept_unless true m ip port now = m
accept_unless false m ip port now = on_peer_connected m (new_session ip port now)

unfoldable pub do_accept : PeerManager → List ℕ → ℕ → ℕ → PeerManager
unfolding accept_unless
do_accept m ip port now = accept_unless (leb max_peers (length m.sessions)) m ip port now

-- A std::map in the order of its keys.
unfoldable pub text_before : List ℕ → List ℕ → Bool
text_before [] [] = false
text_before [] (y ∷ ys) = true
text_before (x ∷ xs) [] = false
text_before (x ∷ xs) (y ∷ ys) = ltb x y || (x == y && text_before xs ys)

unfoldable pub put_recent : RecentPeer → List RecentPeer → List RecentPeer
unfolding bytes_eq text_before
put_recent new [] = new ∷ []
put_recent new (r ∷ recents) =
    if bytes_eq r.ip new.ip
    then new ∷ recents
    else if text_before new.ip r.ip
    then new ∷ r ∷ recents
    else r ∷ put_recent new recents

unfoldable pub erase_recent : List ℕ → List RecentPeer → List RecentPeer
unfolding bytes_eq
erase_recent ip [] = []
erase_recent ip (r ∷ recents) = if bytes_eq r.ip ip then recents else r ∷ erase_recent ip recents

-- The entry for a session, in a map that has none for addresses that cannot be connected to.
unfoldable pub note_recent : (List ℕ → ℕ) → ManagedSession → ℕ → List RecentPeer → List RecentPeer
unfolding is_connectable_peer_ip put_recent listen_or_remote_port speed_flags
note_recent inet_addr s now recents =
    if is_connectable_peer_ip inet_addr s.remote_ip
    then put_recent
        (record {
          ip = s.remote_ip;
          when = now;
          port = listen_or_remote_port s;
          flags = speed_flags s;
        })
        recents
    else recents

unfoldable pub on_pex_remove : PeerManager → List ℕ → PeerManager
unfolding erase_recent
on_pex_remove m ip = record m { recent_connects = erase_recent ip m.recent_connects }

-- sessions_.erase(std::remove(...))
unfoldable pub without_session : ℕ → List ManagedSession → List ManagedSession
without_session id [] = []
without_session id (s ∷ sessions) =
    let rest = without_session id sessions in if s.slot_id == id then rest else s ∷ rest

unfoldable pub on_peer_disconnected : (List ℕ → ℕ) → PeerManager → ManagedSession → ℕ → PeerManager
unfolding on_peer_removed note_recent without_session
on_peer_disconnected inet_addr m sess now = record m {
  sched = on_peer_removed m.sched sess.slot_id;
  recent_disconnects = note_recent inet_addr sess now m.recent_disconnects;
  sessions = without_session sess.slot_id m.sessions;
}

unfoldable pub with_bitfield : List Bool → List (List ℕ) → List (List ℕ)
with_bitfield [] outgoing = outgoing
with_bitfield (b ∷ bits) outgoing = build_bitfield (b ∷ bits) ∷ outgoing

unfoldable pub with_pex : List PexPeer → List (List ℕ) → List (List ℕ)
with_pex [] outgoing = outgoing
with_pex (p ∷ peers) outgoing = build_pex false (p ∷ peers) ∷ outgoing

-- The messages that a new peer gets: the chunks there were at the start and the other peers, each
-- unless it is empty.
unfoldable pub greet : (List ℕ → ℕ) → PeerManager → ManagedSession → ManagedSession
unfolding make_full_pex_list with_bitfield with_pex
greet inet_addr m s = record s {
  outgoing =
      with_pex (make_full_pex_list inet_addr m.sessions s.slot_id)
        (with_bitfield m.initial_bitfield s.outgoing);
}

unfoldable pub update_session :
    ℕ → (ManagedSession → ManagedSession) → List ManagedSession → List ManagedSession
update_session id f [] = []
update_session id f (s ∷ sessions) =
    (if s.slot_id == id then f s else s) ∷ update_session id f sessions

unfoldable pub get_session : ℕ → List ManagedSession → Option ManagedSession
get_session id [] = none
get_session id (s ∷ sessions) = if s.slot_id == id then some s else get_session id sessions

-- on_handshake_done_ of a session, whose address, speed and port are known by now.
unfoldable pub on_handshake_done : (List ℕ → ℕ) → PeerManager → ManagedSession → ℕ → PeerManager
unfolding on_peer_speed note_recent update_session greet
on_handshake_done inet_addr m s now = record m {
  sched = on_peer_speed m.sched s.slot_id s.link_speed_reported;
  recent_connects = note_recent inet_addr s now m.recent_connects;
  sessions = update_session s.slot_id (greet inet_addr m) m.sessions;
}
