-- ===== src/PeerSession/Writer.antt =====
-- src/daemon/peer_session.cpp: `send_message`, `do_write` and `disconnect`.
use new_thinbt.Common.{ℕ, suc, Bool, true, false, List, [], ◌∷◌, ◌++◌, if◌then◌else◌}

-- `in_flight` says that an asynchronous write has begun and its handler has not run. `started` lists
-- the messages given to async_write, and `overlapping` says that a write was begun while another was
-- in flight, which the network library does not allow. `disconnected` is State::DISCONNECTED and
-- `disconnects` counts the calls of on_disconnect_.
pub record Writer : Type 0 where
  pub write_queue : List (List ℕ)
  pub is_writing : Bool
  pub in_flight : Bool
  pub started : List (List ℕ)
  pub overlapping : Bool
  pub disconnected : Bool
  pub disconnects : ℕ

abbrev pub new_writer : Writer
new_writer = record {
  write_queue = [];
  is_writing = false;
  in_flight = false;
  started = [];
  overlapping = false;
  disconnected = false;
  disconnects = 0;
}

unfoldable pub do_write : Writer → Writer
do_write w = elim w.write_queue [
  | [] ↦ record w { is_writing = false }
  | buf ∷ rest ↦ record w {
    write_queue = rest;
    in_flight = true;
    started = w.started ++ (buf ∷ []);
    overlapping = if w.in_flight then true else w.overlapping;
  }
]

unfoldable pub send_message : Writer → List ℕ → Writer
unfolding do_write
send_message w buf =
    let queued = record w { write_queue = w.write_queue ++ (buf ∷ []) } in
    if w.is_writing then queued else do_write (record queued { is_writing = true })

unfoldable pub disconnect : Writer → Writer
disconnect w =
    if w.disconnected then w else record w { disconnected = true; disconnects = suc w.disconnects }

-- The handler of async_write, on success and on an error. The first line of each ends the write.
unfoldable pub on_written : Writer → Writer
unfolding do_write
on_written w =
    let ended = record w { in_flight = false } in
    elim w.write_queue [ [] ↦ record ended { is_writing = false } | _ ∷ _ ↦ do_write ended ]

unfoldable pub on_write_failed : Writer → Writer
unfolding disconnect
on_write_failed w = disconnect (record w { in_flight = false })

-- What happens to a session: a message to send, or the end of the write in flight. With no write in
-- flight there is no handler to run.
pub data Event : Type 0 where
  send : List ℕ → Event
  written failed closed : Event

unfoldable pub step : Writer → Event → Writer
unfolding send_message on_written on_write_failed disconnect
step w (send buf) = send_message w buf
step w written = if w.in_flight then on_written w else w
step w failed = if w.in_flight then on_write_failed w else w
step w closed = disconnect w

unfoldable pub run : Writer → List Event → Writer
unfolding step
run w [] = w
run w (e ∷ events) = run (step w e) events
