-- ===== src/PeerSession/Examples.antt =====
-- The queue of the outgoing messages at four messages and a failure, a peer exchange,
-- and the interest in a peer.
use new_thinbt.Common.{arith, true, ◌≡◌, refl, List, [], ◌∷◌}
use new_thinbt.PeerSession.Writer.{new_writer, run, Event, send, written, failed, do_write}
use new_thinbt.PeerSession.WriteOrder.{IsOrdered, sent, run-new_writer}
use new_thinbt.Common.Bytes.{byte_swap}
use new_thinbt.Common.{some, false}
use new_thinbt.Scheduler.State.{Scheduler, missing, normal, default_peer}
use new_thinbt.PeerSession.Interest.{
  Session, note_have_msg, show_interest, Call, got_have, got_bitfield, show_it, withdraw,
  download_done, run_calls,
}
use new_thinbt.PeerSession.Alternation.{Alternates, silent, broadcasts, run_calls-Alternates}
use new_thinbt.Protocol.{PexPeer, pex_payload}
use new_thinbt.PeerSession.Pex.{connect_peer, remove_peer, pex_call, handle_pex_msg}
use new_thinbt.PeerSession.PexTrip.{calls_of, handle_pex-pex_payload}

abbrev session : List Event
session = send (1 ∷ []) ∷ send (2 ∷ []) ∷ written ∷ send (3 ∷ []) ∷ failed ∷ send (4 ∷ []) ∷ []

run-new_writer_example : IsOrdered (run new_writer session) (sent session)
run-new_writer_example = run-new_writer session

-- Only the first two were begun.
started_session : (run new_writer session).started ≡ (1 ∷ []) ∷ (2 ∷ []) ∷ []
unfolding run do_write
started_session = refl

-- Two entries, the second of a peer that leaves.
abbrev two_entries : List PexPeer
two_entries =
    record { ip = 16777343; port = 57626; flags = 2; reserved = 0 }
    ∷ record { ip = 33554559; port = 57626; flags = 128; reserved = 0 }
    ∷ []

handle_pex-pex_payload_example :
    handle_pex_msg true true (pex_payload true two_entries) ≡ calls_of true true 1 two_entries
handle_pex-pex_payload_example =
    handle_pex-pex_payload true true true two_entries (omega arith)
      ((omega arith, omega arith), ((omega arith, omega arith), tt))

-- The first is connected to, port 6881, and the second removed.
calls_two :
    calls_of true true 1 two_entries ≡ connect_peer 16777343 6881 2 ∷ remove_peer 33554559 6881 ∷ []
unfolding calls_of pex_call byte_swap
calls_two = refl

-- A scheduler of one chunk that is missing, with the peer of slot 4.
abbrev one_chunk : Scheduler
one_chunk = record {
  chunk_states = missing ∷ [];
  chunk_sub_blocks = 1 ∷ [];
  availability = 0 ∷ [];
  active_chunks = 0 ∷ [];
  chunk_sub_done = (false ∷ []) ∷ [];
  chunk_sub_req = (false ∷ []) ∷ [];
  chunk_sub_req_time = (0 ∷ []) ∷ [];
  chunk_sub_done_count = 0 ∷ [];
  chunk_sub_req_count = 0 ∷ [];
  peer_slots = record default_peer { slot_id = 4; remote_bitfield = false ∷ [] } ∷ [];
  phase = normal;
  missing_count = 1;
  local_speed_mbps = 1000;
  has_cancel = true;
  has_broadcast_not_interested = true;
  has_not_interested_issuer = true;
  events = [];
}

abbrev new_session : Session
new_session = record {
  slot_id = 4;
  remote_bitfield = false ∷ [];
  am_interested = false;
  outgoing = [];
  scheduler = some one_chunk;
}

abbrev interest_calls : List Call
interest_calls =
    got_have (0 ∷ 0 ∷ 0 ∷ 0 ∷ []) 50
    ∷ show_it
    ∷ withdraw
    ∷ got_bitfield (128 ∷ []) 60
    ∷ download_done
    ∷ []

run_calls-Alternates_example :
    (s' : Session) × (run_calls new_session interest_calls ≡ some s')
    × Alternates s'.am_interested (broadcasts 0 interest_calls) s'.outgoing
run_calls-Alternates_example =
    run_calls-Alternates interest_calls new_session 0 silent
      (omega arith, (tt, (tt, (tt, (tt, tt)))))

-- The HAVE makes the session show its interest.
shown : (show_interest (note_have_msg new_session 0 50)).am_interested ≡ true
unfolding show_interest note_have_msg
shown = refl
