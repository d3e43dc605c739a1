-- ===== src/Scheduler/State.antt =====
-- The state of the scheduler and the tables it keeps. The calls of the callbacks that the owner
-- installs are recorded in the state. A `PeerSlot&` is the peer's index in `peer_slots_`.
use new_thinbt.Common.{
  ℕ, zero, suc, ◌+◌, ◌-◌, ◌/◌, ◌%◌, Bool, true, false, Option, none, some, List, [], ◌∷◌, ◌++◌, map,
  length, get_or, set, take, replicate, ltb, if◌then◌else◌, ◌==◌, u32_mod,
}

-- SUB_BLOCK_SIZE
abbrev pub sub_block_size : ℕ
sub_block_size = 16384

pub data ChunkState : Type 0 where
  missing : ChunkState
  requested : ChunkState
  downloading : ChunkState
  complete : ChunkState

pub data SchedulerPhase : Type 0 where
  normal : SchedulerPhase
  endgame : SchedulerPhase
  done : SchedulerPhase

-- The calls of RequestIssuer, CancelIssuer, HaveBroadcaster, NotInterestedBroadcaster and
-- NotInterestedIssuer. The first argument of a request, a cancel and a not_interested is the slot.
pub data Event : Type 0 where
  request : ℕ → ℕ → ℕ → ℕ → Event
  cancel : ℕ → ℕ → ℕ → ℕ → Event
  have : ℕ → Event
  not_interested_all : Event
  not_interested : ℕ → Event

-- A std::map of std::set: both lists are in ascending order.
abbrev pub SubBlockMap : Type 0
SubBlockMap = List (ℕ × List ℕ)

pub record PeerSlot : Type 0 where
  pub slot_id : ℕ
  pub pending_requests : ℕ
  pub consecutive_timeouts : ℕ
  pub rtt_us : ℕ
  pub link_speed_mbps : ℕ
  pub link_speed_reported : ℕ
  pub pipeline_cap : ℕ
  pub am_choking : Bool
  pub remote_bitfield : List Bool
  pub active_sub_blocks : SubBlockMap

-- A new `PeerSlot`: its slot, its speed and its bitfield are set in `on_peer_added`.
abbrev pub default_peer : PeerSlot
default_peer = record {
  slot_id = 0;
  pending_requests = 0;
  consecutive_timeouts = 0;
  rtt_us = 0;
  link_speed_mbps = 0;
  link_speed_reported = 0;
  pipeline_cap = 128;
  am_choking = true;
  remote_bitfield = [];
  active_sub_blocks = [];
}

-- `events` is the newest call first; the three flags say which optional callbacks are set.
pub record Scheduler : Type 0 where
  pub chunk_states : List ChunkState
  pub chunk_sub_blocks : List ℕ
  pub availability : List ℕ
  pub active_chunks : List ℕ
  pub chunk_sub_done : List (List Bool)
  pub chunk_sub_req : List (List Bool)
  pub chunk_sub_req_time : List (List ℕ)
  pub chunk_sub_done_count : List ℕ
  pub chunk_sub_req_count : List ℕ
  pub peer_slots : List PeerSlot
  pub phase : SchedulerPhase
  pub missing_count : ℕ
  pub local_speed_mbps : ℕ
  pub has_cancel : Bool
  pub has_broadcast_not_interested : Bool
  pub has_not_interested_issuer : Bool
  pub events : List Event

unfoldable pub is_complete : ChunkState → Bool
is_complete complete = true
is_complete _ = false

unfoldable pub is_missing : ChunkState → Bool
is_missing missing = true
is_missing _ = false

unfoldable pub is_downloading : ChunkState → Bool
is_downloading downloading = true
is_downloading _ = false

unfoldable pub is_done : SchedulerPhase → Bool
is_done done = true
is_done _ = false

-- Tables. A row or a cell that is not there reads as the default and is not written, which is what
-- the tests of the source's sizes come to.
abbrev pub cell {ℓ} : {A : Type ℓ} → List (List A) → ℕ → ℕ → A → A
cell table c i default = get_or (get_or table c []) i default

abbrev pub set_cell {ℓ} : {A : Type ℓ} → List (List A) → ℕ → ℕ → A → List (List A)
set_cell table c i v = set table c (set (get_or table c []) i v)

abbrev pub state_at : Scheduler → ℕ → ChunkState
state_at s c = get_or s.chunk_states c missing

-- vector::resize
unfoldable pub resize {ℓ} : {A : Type ℓ} → ℕ → A → List A → List A
resize n v xs = take n (xs ++ replicate n v)

-- The numbers i, ..., i + n - 1.
unfoldable pub upto : ℕ → ℕ → List ℕ
upto zero i = []
upto (suc n) i = i ∷ upto n (i + 1)

unfoldable pub init : Scheduler → ℕ → ℕ → Bool → Scheduler
unfolding resize upto
init s total_chunks local_speed has_broadcast = record s {
  chunk_states = replicate total_chunks missing;
  availability = replicate total_chunks 0;
  chunk_sub_done = resize total_chunks [] s.chunk_sub_done;
  chunk_sub_req = resize total_chunks [] s.chunk_sub_req;
  chunk_sub_req_time = resize total_chunks [] s.chunk_sub_req_time;
  chunk_sub_done_count = replicate total_chunks 0;
  chunk_sub_req_count = replicate total_chunks 0;
  active_chunks = upto total_chunks 0;
  missing_count = total_chunks;
  phase = normal;
  local_speed_mbps = local_speed;
  has_broadcast_not_interested = has_broadcast;
}

unfoldable pub set_cancel_issuer : Scheduler → Bool → Scheduler
set_cancel_issuer s given = record s { has_cancel = given }

unfoldable pub set_not_interested_issuer : Scheduler → Bool → Scheduler
set_not_interested_issuer s given = record s { has_not_interested_issuer = given }

-- std::shuffle with a generator seeded with the argument is a parameter.
unfoldable pub randomize_piece_order : (ℕ → List ℕ → List ℕ) → Scheduler → ℕ → Scheduler
randomize_piece_order shuffle s seed = record s { active_chunks = shuffle seed s.active_chunks }

unfoldable pub sub_block_count : ℕ → ℕ
sub_block_count size = (size + 16383) % u32_mod / sub_block_size

-- rows[i].assign(counts[i], v) for the rows there are.
unfoldable pub assign_rows {ℓ} : {A : Type ℓ} → A → List ℕ → List (List A) → List (List A)
assign_rows v [] rows = rows
assign_rows v (n ∷ counts) [] = []
assign_rows v (n ∷ counts) (row ∷ rows) = replicate n v ∷ assign_rows v counts rows

unfoldable pub set_chunk_sizes : Scheduler → List ℕ → Scheduler
unfolding sub_block_count assign_rows
set_chunk_sizes s sizes =
    let counts = map sub_block_count sizes in
    record s {
      chunk_sub_blocks = counts;
      chunk_sub_done = assign_rows false counts s.chunk_sub_done;
      chunk_sub_req = assign_rows false counts s.chunk_sub_req;
      chunk_sub_req_time = assign_rows 0 counts s.chunk_sub_req_time;
    }

-- peer_slot: the index of the first peer with the slot.
unfoldable pub find_peer : ℕ → List PeerSlot → Option ℕ
find_peer id [] = none
find_peer id (peer ∷ peers) =
    if peer.slot_id == id
    then some 0
    else elim (find_peer id peers) [ none ↦ none | some i ↦ some (i + 1) ]

abbrev pub peer_at : Scheduler → ℕ → PeerSlot
peer_at s p = get_or s.peer_slots p default_peer

abbrev pub set_peer : Scheduler → ℕ → PeerSlot → Scheduler
set_peer s p peer = record s { peer_slots = set s.peer_slots p peer }

abbrev pub record_event : Scheduler → Event → Scheduler
record_event s e = record s { events = e ∷ s.events }

abbrev pub has_chunk : PeerSlot → ℕ → Bool
has_chunk peer c = get_or peer.remote_bitfield c false

-- set::insert and set::erase
unfoldable pub insert_begin : ℕ → List ℕ → List ℕ
insert_begin b [] = b ∷ []
insert_begin b (x ∷ xs) =
    if b == x then x ∷ xs else if ltb b x then b ∷ x ∷ xs else x ∷ insert_begin b xs

unfoldable pub erase_begin : ℕ → List ℕ → List ℕ
erase_begin b [] = []
erase_begin b (x ∷ xs) = if b == x then xs else x ∷ erase_begin b xs

-- The set of a chunk; a chunk that is not in the map has none.
unfoldable pub begins_of : ℕ → SubBlockMap → List ℕ
begins_of c [] = []
begins_of c ((k, begins) ∷ m) = if k == c then begins else begins_of c m

unfoldable pub put_begins : ℕ → List ℕ → SubBlockMap → SubBlockMap
put_begins c begins [] = (c, begins) ∷ []
put_begins c begins ((k, old) ∷ m) =
    if c == k
    then (c, begins) ∷ m
    else if ltb c k
    then (c, begins) ∷ (k, old) ∷ m
    else (k, old) ∷ put_begins c begins m

unfoldable pub erase_chunk : ℕ → SubBlockMap → SubBlockMap
erase_chunk c [] = []
erase_chunk c ((k, begins) ∷ m) = if k == c then m else (k, begins) ∷ erase_chunk c m

-- A sub-block leaves the set; a set that is then empty leaves the map.
unfoldable pub erase_sub_block : ℕ → ℕ → SubBlockMap → SubBlockMap
unfolding begins_of erase_begin erase_chunk put_begins
erase_sub_block c b m = elim (begins_of c m) [
  | [] ↦ erase_chunk c m
  | begins ↦ elim (erase_begin b begins) [ [] ↦ erase_chunk c m | rest ↦ put_begins c rest m ]
]

-- Removes an entry by the swap with the last.
unfoldable pub index_of : ℕ → List ℕ → Option ℕ
index_of c [] = none
index_of c (x ∷ xs) =
    if x == c then some 0 else elim (index_of c xs) [ none ↦ none | some i ↦ some (i + 1) ]

unfoldable pub swap_remove : ℕ → List ℕ → List ℕ
unfolding index_of
swap_remove c xs = elim (index_of c xs) [
  | none ↦ xs
  | some i ↦ take (length xs - 1) (set xs i (get_or xs (length xs - 1) 0))
]
