-- ===== src/TaskManager/Examples.antt =====
-- The theorems of the task manager at small downloads, and tests.
use new_thinbt.Common.{ℕ, ◌≡◌, refl, Bool, true, false, some, List, [], ◌∷◌, arith}
use new_thinbt.Common.Text.{codes}
use new_thinbt.Seed.{ChunkEntry}
use new_thinbt.PeerManager.Sessions.{PeerManager}
use new_thinbt.PeerManager.Choke.{Lottery}
use new_thinbt.PeerManager.Events.{connect}
use new_thinbt.Scheduler.State.{Scheduler, normal}
use new_thinbt.Scheduler.Completions.{on_subblock_timeout}
use new_thinbt.Scheduler.Counting.{IsCounted}
use new_thinbt.Scheduler.Reach.{stay, times_out}
use new_thinbt.TaskManager.Reuse.{index_chunks, initial_bits, update_matches, update_bits}
use new_thinbt.TaskManager.Matches.{each_there, initial_bits-each_there}
use new_thinbt.TaskManager.Cloned.{AllCloned, update_matches-AllCloned}
use new_thinbt.TaskManager.Start.{start_download, start_download-IsCounted}
use new_thinbt.TaskManager.Tick.{
  waiting, ActiveTask, TaskEvent, ticked, heartbeat, tracker_answered, managed, tracker_address,
  run_task,
}
use new_thinbt.TaskManager.Waiting.{run_task-waiting}

abbrev chunk : ℕ → ℕ → ℕ → ChunkEntry
chunk offset length digest = record { offset = offset; length = length; sha256 = digest ∷ [] }

-- The old file has the digest 5 twice; the second chunk of the new file has another digest.
abbrev old_file : List ChunkEntry
old_file = chunk 0 4 5 ∷ chunk 4 4 5 ∷ []

abbrev new_file : List ChunkEntry
new_file = chunk 0 4 5 ∷ chunk 4 2 9 ∷ chunk 6 4 5 ∷ []

initial_bits-each_there_example :
    initial_bits (some old_file) new_file ≡ each_there old_file new_file
initial_bits-each_there_example = initial_bits-each_there old_file new_file

resumed_bits : initial_bits (some old_file) new_file ≡ true ∷ false ∷ false ∷ []
unfolding initial_bits
resumed_bits = refl

abbrev always : ℕ → ℕ → ℕ → Bool
always from to length = true

update_matches-AllCloned_example :
    AllCloned always old_file new_file (update_matches always (index_chunks old_file []) new_file)
update_matches-AllCloned_example = update_matches-AllCloned always old_file new_file

updated_bits :
    update_bits (update_matches always (index_chunks old_file []) new_file)
    ≡ true ∷ false ∷ true ∷ []
unfolding update_bits update_matches index_chunks
updated_bits = refl

abbrev empty_scheduler : Scheduler
empty_scheduler = record {
  chunk_states = [];
  chunk_sub_blocks = [];
  availability = [];
  active_chunks = [];
  chunk_sub_done = [];
  chunk_sub_req = [];
  chunk_sub_req_time = [];
  chunk_sub_done_count = [];
  chunk_sub_req_count = [];
  peer_slots = [];
  phase = normal;
  missing_count = 0;
  local_speed_mbps = 0;
  has_cancel = false;
  has_broadcast_not_interested = false;
  has_not_interested_issuer = false;
  events = [];
}

abbrev in_order : ℕ → List ℕ → List ℕ
in_order seed order = order

abbrev started : Scheduler
started =
    start_download in_order empty_scheduler 3 1000 (4 ∷ 2 ∷ 4 ∷ []) 7 (true ∷ false ∷ false ∷ []) 4

start_download-IsCounted_example : IsCounted (on_subblock_timeout started 1 0)
start_download-IsCounted_example =
    start_download-IsCounted in_order empty_scheduler 3 1000 (4 ∷ 2 ∷ 4 ∷ []) 7
      (true ∷ false ∷ false ∷ []) 4 (on_subblock_timeout started 1 0) (omega arith)
      (times_out 1 0 stay)

-- One of the three chunks is there.
started_missing : started.missing_count ≡ 2
unfolding start_download
started_missing = refl

abbrev empty_manager : PeerManager
empty_manager = record {
  sessions = [];
  next_slot_id = 0;
  sched = empty_scheduler;
  recent_connects = [];
  recent_disconnects = [];
  local_peer_ips = [];
  p2p_port = 6881;
  local_speed_mbps = 1000;
  initial_bitfield = true ∷ true ∷ false ∷ [];
  connects = [];
}

abbrev first_in_order : Lottery
first_in_order = record { kbps = λ bytes elapsed. 0; sort = λ ss. ss; shuffle = λ ids. ids }

abbrev dotted : ℕ → List ℕ
dotted ip = codes "10.0.0.2"

abbrev some_address : List ℕ → ℕ
some_address ip = 33554442

abbrev in_order_keys : (ℕ → ℕ) → List ℕ → List ℕ
in_order_keys key order = order

-- A task whose tracker was given up before its last chunk arrived.
abbrev stuck : ActiveTask
stuck = record {
  peer_mgr = empty_manager;
  state = waiting;
  is_seed = false;
  file_size = 10;
  chunk_lengths = 4 ∷ 2 ∷ 4 ∷ [];
  announce_url = codes "thinbt://lan:80";
  bytes_done = 6;
  tracker_dead = true;
  startup_announce_deadline = 0;
  next_startup_announce = 0;
  announces = [];
}

abbrev last_chunk : List TaskEvent
last_chunk =
    ticked 9 (record { chunk_idx = 2; winning_peer_slot = 0; passed = true } ∷ []) 9
    ∷ heartbeat
    ∷ tracker_answered (record { ip = 33554442; port = 57626; flags = 0; reserved = 0 } ∷ []) 10
    ∷ managed (connect (codes "10.0.0.3") 6881 11)
    ∷ []

abbrev run : ActiveTask → List TaskEvent → ActiveTask
run = run_task in_order_keys dotted some_address first_in_order [] 8080

run_task-waiting_example : (run stuck last_chunk).state ≡ waiting
run_task-waiting_example =
    run_task-waiting in_order_keys dotted some_address first_in_order [] 8080 stuck last_chunk refl

stuck_bytes : (run stuck last_chunk).bytes_done ≡ 10
unfolding run_task
stuck_bytes = refl

-- The peer of the answer is connected to, at the port in host order, and then the other.
stuck_connects :
    (run stuck last_chunk).peer_mgr.connects
    ≡ (codes "10.0.0.3", 6881) ∷ (codes "10.0.0.2", 6881) ∷ []
unfolding run_task
stuck_connects = refl

-- The command line comes before the seed file, which comes before the host itself.
given_tracker : tracker_address (codes "hub") 8080 (codes "thinbt://lan:80") ≡ (codes "hub", 8080)
unfolding tracker_address
given_tracker = refl

named_tracker : tracker_address [] 8080 (codes "thinbt://lan:80") ≡ (codes "lan", 80)
unfolding tracker_address
named_tracker = refl

no_tracker : tracker_address [] 8080 (codes "http://lan:80") ≡ (codes "127.0.0.1", 8080)
unfolding tracker_address
no_tracker = refl
