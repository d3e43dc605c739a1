-- ===== src/PeerSession/Interest.antt =====
-- src/daemon/peer_session.cpp: `handle_have_msg`, `handle_bitfield_msg`, `record_have`,
-- `send_interested` and `send_not_interested`, with the scheduler that the session belongs to, and
-- what the callback of src/daemon/task_manager.cpp sends to each session when a download is done.
use new_thinbt.Common.{
  ℕ, Bool, true, false, Option, none, some, List, [], ◌∷◌, length, set, ltb, if◌then◌else◌,
}
use new_thinbt.Common.Bytes.{get_be}
use new_thinbt.Protocol.{build_interested, build_not_interested}
use new_thinbt.Protocol.Bitfield.{record_bitfield}
use new_thinbt.Scheduler.State.{Scheduler}
use new_thinbt.Scheduler.Choice.{wants_peer}
use new_thinbt.Scheduler.Peers.{on_have, on_bitfield}

-- `outgoing` lists the messages about interest given to send_message, the newest first; `scheduler` is `none` for a
-- null pointer.
pub record Session : Type 0 where
  pub slot_id : ℕ
  pub remote_bitfield : List Bool
  pub am_interested : Bool
  pub outgoing : List (List ℕ)
  pub scheduler : Option Scheduler

unfoldable pub send_interested : Session → Session
send_interested s =
    if s.am_interested
    then s
    else record s { am_interested = true; outgoing = build_interested ∷ s.outgoing }

unfoldable pub send_not_interested : Session → Session
send_not_interested s =
    if s.am_interested
    then record s { am_interested = false; outgoing = build_not_interested ∷ s.outgoing }
    else s

-- One turn of the loop in the scheduler's broadcast callback: the message is given to send_message
-- whatever `am_interested` is, which stays as it was.
unfoldable pub broadcast_done : Session → Session
broadcast_done s = record s { outgoing = build_not_interested ∷ s.outgoing }

unfoldable pub record_have : Session → ℕ → Session
record_have s c = record s { remote_bitfield = set s.remote_bitfield c true }

-- if (scheduler_ && scheduler_->wants_peer(slot_id_)) send_interested();
unfoldable pub show_interest : Session → Session
unfolding wants_peer send_interested
show_interest s = elim s.scheduler [
  | none ↦ s
  | some scheduler ↦ if wants_peer scheduler s.slot_id then send_interested s else s
]

-- record_have and scheduler_->on_have, and record_bitfield and scheduler_->on_bitfield. `now` is
-- what monotonic_ms answers.
unfoldable pub note_have_msg : Session → ℕ → ℕ → Session
unfolding record_have on_have
note_have_msg s c now = record (record_have s c) {
  scheduler = elim s.scheduler [
    | none ↦ none
    | some scheduler ↦ some (on_have scheduler s.slot_id c now)
  ];
}

unfoldable pub note_bitfield_msg : Session → List Bool → ℕ → Session
unfolding on_bitfield
note_bitfield_msg s bits now = record s {
  remote_bitfield = bits;
  scheduler = elim s.scheduler [
    | none ↦ none
    | some scheduler ↦ some (on_bitfield scheduler s.slot_id bits now)
  ];
}

-- `none` is a read behind the end of the body.
unfoldable pub handle_have_msg : Session → List ℕ → ℕ → Option Session
unfolding note_have_msg show_interest
handle_have_msg s body now =
    if ltb (length body) 4 then none else some (show_interest (note_have_msg s (get_be 4 body) now))

unfoldable pub handle_bitfield_msg : Session → List ℕ → ℕ → Session
unfolding record_bitfield note_bitfield_msg show_interest
handle_bitfield_msg s body now = show_interest (note_bitfield_msg s (record_bitfield body) now)

-- What may happen to the interest of a session: a HAVE or a BITFIELD at a time, a call of
-- send_interested or send_not_interested, or the broadcast of a download that is done.
pub data Call : Type 0 where
  got_have : List ℕ → ℕ → Call
  got_bitfield : List ℕ → ℕ → Call
  show_it : Call
  withdraw : Call
  download_done : Call

-- The calls in order, up to a read behind the end of a body.
unfoldable pub run_calls : Session → List Call → Option Session
unfolding handle_have_msg handle_bitfield_msg send_interested send_not_interested broadcast_done
run_calls s [] = some s
run_calls s (got_have body now ∷ calls) = elim (handle_have_msg s body now) [
  | none ↦ none
  | some s' ↦ run_calls s' calls
]
run_calls s (got_bitfield body now ∷ calls) = run_calls (handle_bitfield_msg s body now) calls
run_calls s (show_it ∷ calls) = run_calls (send_interested s) calls
run_calls s (withdraw ∷ calls) = run_calls (send_not_interested s) calls
run_calls s (download_done ∷ calls) = run_calls (broadcast_done s) calls
