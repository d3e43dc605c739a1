-- ===== src/TaskManager/Tick.antt =====
-- src/daemon/task_manager.cpp: `tick` for one task, and `announce_task_now`; src/daemon/
-- verify_worker.cpp: the comparison of the digests. A time is a number of nanoseconds.
use new_thinbt.Common.{
  ℕ, ◌+◌, ◌%◌, Bool, true, false, not, ◌&&◌, none, some, List, [], ◌∷◌, length, get_or, ltb, leb,
  if◌then◌else◌, u64_mod,
}
use new_thinbt.Common.Bytes.{bytes_eq, byte_swap}
use new_thinbt.Common.Text.{codes}
use new_thinbt.ChunkAssembler.{ChunkCompleteMsg}
use new_thinbt.NetUtil.{parse_tracker_url}
use new_thinbt.Protocol.{PexPeer}
use new_thinbt.PeerManager.Sessions.{PeerManager, connect_to}
use new_thinbt.PeerManager.Choke.{Lottery}
use new_thinbt.PeerManager.Events.{ManagerEvent, on_manager_event}
use new_thinbt.Scheduler.State.{Scheduler}
use new_thinbt.Scheduler.Endgame.{tick}
use new_thinbt.Scheduler.Completions.{process_completions, on_verify_failed}

-- The texts of ActiveTask::state.
pub data TaskState : Type 0 where
  seeding downloading waiting complete failed : TaskState

unfoldable pub is_downloading : TaskState → Bool
is_downloading downloading = true
is_downloading _ = false

pub record VerifyResult : Type 0 where
  pub chunk_idx : ℕ
  pub winning_peer_slot : ℕ
  pub passed : Bool

-- The digest of the bytes of a chunk, a function of the digest library, against the expected one.
unfoldable pub verify : (List ℕ → List ℕ) → ChunkCompleteMsg → List ℕ → List ℕ → VerifyResult
unfolding bytes_eq
verify sha256 msg chunk expected = record {
  chunk_idx = msg.chunk_idx;
  winning_peer_slot = msg.winning_peer_slot;
  passed = bytes_eq (sha256 chunk) expected;
}

-- A task that has its seed file and its peer manager. The scheduler of the task is the one that the
-- peer manager refers to, `peer_mgr.sched`. `announces` lists the trackers that the task was
-- announced to, the newest first.
pub record ActiveTask : Type 0 where
  pub peer_mgr : PeerManager
  pub state : TaskState
  pub is_seed : Bool
  pub file_size : ℕ
  pub chunk_lengths : List ℕ
  pub announce_url : List ℕ
  pub bytes_done : ℕ
  pub tracker_dead : Bool
  pub startup_announce_deadline : ℕ
  pub next_startup_announce : ℕ
  pub announces : List (List ℕ × ℕ)

-- A call of the task's scheduler.
unfoldable pub on_scheduler : (Scheduler → Scheduler) → ActiveTask → ActiveTask
on_scheduler call t = record t { peer_mgr = record (t.peer_mgr) { sched = call t.peer_mgr.sched } }

-- A chunk that passed counts with its length; one that failed goes back to the scheduler.
unfoldable pub feed_result : VerifyResult → ActiveTask → ActiveTask
unfolding on_verify_failed on_scheduler
feed_result r t = elim r.passed [
  | true ↦ record t {
    bytes_done =
        if ltb r.chunk_idx (length t.chunk_lengths)
        then (t.bytes_done + get_or t.chunk_lengths r.chunk_idx 0) % u64_mod
        else t.bytes_done;
  }
  | false ↦ on_scheduler (λ scheduler. on_verify_failed scheduler r.chunk_idx) t
]

unfoldable pub feed_results : List VerifyResult → ActiveTask → ActiveTask
unfolding feed_result
feed_results [] t = t
feed_results (r ∷ results) t = feed_results results (feed_result r t)

unfoldable pub passed_of : List VerifyResult → List ChunkCompleteMsg
passed_of [] = []
passed_of (r ∷ results) =
    let rest = passed_of results in
    if r.passed
    then record { chunk_idx = r.chunk_idx; winning_peer_slot = r.winning_peer_slot } ∷ rest
    else rest

unfoldable pub complete_passed : List ChunkCompleteMsg → ActiveTask → ActiveTask
unfolding process_completions on_scheduler
complete_passed [] t = t
complete_passed (msg ∷ msgs) t =
    on_scheduler (λ scheduler. process_completions scheduler (msg ∷ msgs)) t

-- The test for completion, and the one for a tracker that is given up.
unfoldable pub complete_if_done : ActiveTask → ActiveTask
unfolding is_downloading
complete_if_done t = record t {
  state = if leb t.file_size t.bytes_done && is_downloading t.state then complete else t.state;
}

unfoldable pub wait_if_dead : ActiveTask → ActiveTask
unfolding is_downloading
wait_if_dead t = record t {
  state = if t.tracker_dead && is_downloading t.state then waiting else t.state;
}

-- The tracker of a task: the one of the command line, else that of the seed file, else the host
-- itself. The port of the command line stays where the seed file names no tracker.
unfoldable pub tracker_address : List ℕ → ℕ → List ℕ → List ℕ × ℕ
unfolding parse_tracker_url
tracker_address (c ∷ host) port url = (c ∷ host, port)
tracker_address [] port url = elim (parse_tracker_url url) [
  | none ↦ (codes "127.0.0.1", port)
  | some found ↦ elim found.host [
    | [] ↦ (codes "127.0.0.1", found.port)
    | c ∷ host ↦ (c ∷ host, found.port)
  ]
]

unfoldable pub announce_task_now : List ℕ → ℕ → ActiveTask → ActiveTask
unfolding tracker_address
announce_task_now tracker_host tracker_port t = record t {
  tracker_dead = false;
  announces = tracker_address tracker_host tracker_port t.announce_url ∷ t.announces;
}

-- The announcements of the first minute, two seconds apart.
unfoldable pub startup_announce : List ℕ → ℕ → ℕ → ActiveTask → ActiveTask
unfolding is_downloading announce_task_now
startup_announce tracker_host tracker_port now t =
    elim (not t.is_seed
      && (is_downloading t.state
          && (ltb now t.startup_announce_deadline && leb t.next_startup_announce now))) [
            | true ↦
                announce_task_now tracker_host tracker_port
                  (record t { next_startup_announce = now + 2000000000 })
            | false ↦ t
          ]

-- The callback of an announcement: a connection to each peer of the answer. The system's inet_ntoa
-- and inet_addr are parameters; `now` is the time at which the sessions begin.
unfoldable pub connect_peers :
    (ℕ → List ℕ) → (List ℕ → ℕ) → List PexPeer → ℕ → PeerManager → PeerManager
unfolding connect_to byte_swap
connect_peers inet_ntoa inet_addr [] now m = m
connect_peers inet_ntoa inet_addr (p ∷ peers) now m =
    connect_peers inet_ntoa inet_addr peers now
      (connect_to inet_addr m (inet_ntoa p.ip) (byte_swap 2 p.port) now)

-- What happens to a task: a round with the results that the verification has ready, a tracker that is
-- given up, the announcement of the heartbeat, an answer of the tracker with its peers, and what
-- happens to the peer manager. The first number of a round is the scheduler's clock in milliseconds.
pub data TaskEvent : Type 0 where
  ticked : ℕ → List VerifyResult → ℕ → TaskEvent
  tracker_given_up : TaskEvent
  heartbeat : TaskEvent
  tracker_answered : List PexPeer → ℕ → TaskEvent
  managed : ManagerEvent → TaskEvent

-- `sort` is the scheduler's std::sort, and `lottery` what the choke rounds draw.
module _ (sort : (ℕ → ℕ) → List ℕ → List ℕ) (inet_ntoa : ℕ → List ℕ) (inet_addr : List ℕ → ℕ)
    (lottery : Lottery) (tracker_host : List ℕ) (tracker_port : ℕ) where
  unfoldable pub tick_task : ℕ → List VerifyResult → ℕ → ActiveTask → ActiveTask
  unfolding tick on_scheduler feed_results passed_of complete_passed complete_if_done wait_if_dead
      startup_announce
  tick_task now_ms results now t = startup_announce tracker_host tracker_port now (
      wait_if_dead (
        complete_if_done (
          complete_passed (passed_of results)
            (feed_results results (on_scheduler (λ scheduler. tick sort scheduler now_ms) t)))))

  unfoldable pub on_task_event : ActiveTask → TaskEvent → ActiveTask
  unfolding tick_task announce_task_now connect_peers on_manager_event
  on_task_event t (ticked now_ms results now) = tick_task now_ms results now t
  on_task_event t tracker_given_up = record t { tracker_dead = true }
  on_task_event t heartbeat = announce_task_now tracker_host tracker_port t
  on_task_event t (tracker_answered peers now) = record t {
    peer_mgr = connect_peers inet_ntoa inet_addr peers now t.peer_mgr;
  }
  on_task_event t (managed e) = record t {
    peer_mgr = on_manager_event inet_addr lottery t.peer_mgr e;
  }

  unfoldable pub run_task : ActiveTask → List TaskEvent → ActiveTask
  unfolding on_task_event
  run_task t [] = t
  run_task t (e ∷ events) = run_task (on_task_event t e) events
