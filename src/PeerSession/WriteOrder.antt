-- ===== src/PeerSession/WriteOrder.antt =====
-- The queue of the outgoing messages: order, and one write at a time.
use new_thinbt.Common.{
  ℕ, suc, ◌≡◌, refl, sym, ap, ◌∙◌, Bool, true, false, List, [], ◌∷◌, ◌++◌, append_assoc, append-nil,
  arith, if◌then◌else◌,
}
use new_thinbt.PeerSession.Writer.{
  Writer, new_writer, do_write, send_message, disconnect, on_written, on_write_failed, Event, send,
  written, failed, closed, step, run,
}

unfoldable pub sent : List Event → List (List ℕ)
sent [] = []
sent (send buf ∷ events) = buf ∷ sent events
sent (written ∷ events) = sent events
sent (failed ∷ events) = sent events
sent (closed ∷ events) = sent events

-- `history` is what was sent so far.
pub record IsOrdered (w : Writer) (history : List (List ℕ)) : Type 0 where
  pub order : w.started ++ w.write_queue ≡ history
  pub single : w.overlapping ≡ false
  pub idle_queue : w.is_writing ≡ false → w.write_queue ≡ []
  pub idle_flight : w.is_writing ≡ false → w.in_flight ≡ false
  pub busy : w.is_writing ≡ true → w.disconnected ≡ false → w.in_flight ≡ true
  pub once : w.disconnects ≡ (if w.disconnected then 1 else 0)

-- A writer from its fields, for a split on them.
abbrev writer : List (List ℕ) → Bool → Bool → List (List ℕ) → Bool → Bool → ℕ → Writer
writer queue is_writing in_flight started overlapping disconnected disconnects = record {
  write_queue = queue;
  is_writing = is_writing;
  in_flight = in_flight;
  started = started;
  overlapping = overlapping;
  disconnected = disconnected;
  disconnects = disconnects;
}

send_fields :
    (queue : List (List ℕ)) (is_writing in_flight : Bool) (started : List (List ℕ))
    (overlapping disconnected : Bool) (disconnects : ℕ) (history : List (List ℕ)) (buf : List ℕ)
    → IsOrdered
        (writer queue is_writing in_flight started overlapping disconnected disconnects)
        history
    → IsOrdered
        (send_message
          (writer queue is_writing in_flight started overlapping disconnected disconnects)
          buf)
        (history ++ (buf ∷ []))
unfolding send_message do_write
send_fields queue true in_flight started overlapping disconnected disconnects history buf is =
    record {
      order = sym (append_assoc started queue (buf ∷ [])) ∙ ap (λ ms. ms ++ (buf ∷ [])) is.order;
      single = is.single;
      idle_queue = λ h. ground (arith, h);
      idle_flight = λ h. ground (arith, h);
      busy = is.busy;
      once = is.once;
    }
send_fields (m ∷ queue) false in_flight started overlapping disconnected disconnects history buf
      is =
    absurd (ground (arith, is.idle_queue refl))
send_fields [] false in_flight started overlapping disconnected disconnects history buf is =
    record {
      order =
          append-nil (started ++ (buf ∷ []))
          ∙ ap (λ ms. ms ++ (buf ∷ [])) (sym (append-nil started) ∙ is.order);
      single = ground (arith, is.single, is.idle_flight refl);
      idle_queue = λ h. ground (arith, h);
      idle_flight = λ h. ground (arith, h);
      busy = λ h k. refl;
      once = is.once;
    }

written_fields :
    (queue : List (List ℕ)) (is_writing : Bool) (started : List (List ℕ))
    (overlapping disconnected : Bool) (disconnects : ℕ) (history : List (List ℕ))
    → IsOrdered (writer queue is_writing true started overlapping disconnected disconnects) history
    → IsOrdered
        (on_written (writer queue is_writing true started overlapping disconnected disconnects))
        history
unfolding on_written do_write
written_fields [] is_writing started overlapping disconnected disconnects history is = record {
  order = is.order;
  single = is.single;
  idle_queue = λ h. refl;
  idle_flight = λ h. refl;
  busy = λ h k. ground (arith, h);
  once = is.once;
}
written_fields (m ∷ queue) false started overlapping disconnected disconnects history is =
    absurd (ground (arith, is.idle_queue refl))
written_fields (m ∷ queue) true started overlapping disconnected disconnects history is = record {
  order = append_assoc started (m ∷ []) queue ∙ is.order;
  single = is.single;
  idle_queue = λ h. ground (arith, h);
  idle_flight = λ h. ground (arith, h);
  busy = λ h k. refl;
  once = is.once;
}

closed_fields :
    (queue : List (List ℕ)) (is_writing in_flight : Bool) (started : List (List ℕ))
    (overlapping disconnected : Bool) (disconnects : ℕ) (history : List (List ℕ))
    → IsOrdered
        (writer queue is_writing in_flight started overlapping disconnected disconnects)
        history
    → IsOrdered
        (disconnect
          (writer queue is_writing in_flight started overlapping disconnected disconnects))
        history
unfolding disconnect
closed_fields queue is_writing in_flight started overlapping true disconnects history is = is
closed_fields queue is_writing in_flight started overlapping false disconnects history is = record {
  order = is.order;
  single = is.single;
  idle_queue = is.idle_queue;
  idle_flight = is.idle_flight;
  busy = λ h k. ground (arith, k);
  once = ap suc is.once;
}

failed_fields :
    (queue : List (List ℕ)) (is_writing : Bool) (started : List (List ℕ))
    (overlapping disconnected : Bool) (disconnects : ℕ) (history : List (List ℕ))
    → IsOrdered (writer queue is_writing true started overlapping disconnected disconnects) history
    → IsOrdered
        (on_write_failed
          (writer queue is_writing true started overlapping disconnected disconnects))
        history
unfolding on_write_failed disconnect
failed_fields queue is_writing started overlapping true disconnects history is = record {
  order = is.order;
  single = is.single;
  idle_queue = is.idle_queue;
  idle_flight = λ h. refl;
  busy = λ h k. ground (arith, k);
  once = is.once;
}
failed_fields queue is_writing started overlapping false disconnects history is = record {
  order = is.order;
  single = is.single;
  idle_queue = is.idle_queue;
  idle_flight = λ h. refl;
  busy = λ h k. ground (arith, k);
  once = ap suc is.once;
}

ended-IsOrdered :
    (on_end : Writer → Writer) (queue : List (List ℕ)) (is_writing in_flight : Bool)
    (started : List (List ℕ)) (overlapping disconnected : Bool) (disconnects : ℕ)
    (history : List (List ℕ))
    → (IsOrdered (writer queue is_writing true started overlapping disconnected disconnects) history
        → IsOrdered
            (on_end (writer queue is_writing true started overlapping disconnected disconnects))
            history)
    → IsOrdered
        (writer queue is_writing in_flight started overlapping disconnected disconnects)
        history
    → IsOrdered
        (if in_flight
          then on_end
              (writer queue is_writing in_flight started overlapping disconnected disconnects)
          else writer queue is_writing in_flight started overlapping disconnected disconnects)
        history
ended-IsOrdered on_end queue is_writing true started overlapping disconnected disconnects history f
      is =
    f is
ended-IsOrdered on_end queue is_writing false started overlapping disconnected disconnects history f
      is =
    is

run-IsOrdered :
    (events : List Event) (w : Writer) (history : List (List ℕ))
    → IsOrdered w history
    → IsOrdered (run w events) (history ++ sent events)
unfolding run step sent
run-IsOrdered [] w history is = rw (append-nil history) is
run-IsOrdered (send buf ∷ events) w history is =
    rw (sym (append_assoc history (buf ∷ []) (sent events))) (
      run-IsOrdered events (send_message w buf) (history ++ (buf ∷ [])) (
        send_fields w.write_queue w.is_writing w.in_flight w.started w.overlapping w.disconnected
          w.disconnects history buf is))
run-IsOrdered (written ∷ events) w history is = run-IsOrdered events (step w written) history (
    ended-IsOrdered on_written w.write_queue w.is_writing w.in_flight w.started w.overlapping
      w.disconnected w.disconnects history
      (written_fields w.write_queue w.is_writing w.started w.overlapping w.disconnected
        w.disconnects history)
      is)
run-IsOrdered (failed ∷ events) w history is = run-IsOrdered events (step w failed) history (
    ended-IsOrdered on_write_failed w.write_queue w.is_writing w.in_flight w.started w.overlapping
      w.disconnected w.disconnects history
      (failed_fields w.write_queue w.is_writing w.started w.overlapping w.disconnected w.disconnects
        history)
      is)
run-IsOrdered (closed ∷ events) w history is = run-IsOrdered events (disconnect w) history (
    closed_fields w.write_queue w.is_writing w.in_flight w.started w.overlapping w.disconnected
      w.disconnects history is)

new-IsOrdered : IsOrdered new_writer []
new-IsOrdered = record {
  order = refl;
  single = refl;
  idle_queue = λ h. refl;
  idle_flight = λ h. refl;
  busy = λ h k. ground (arith, h);
  once = refl;
}

-- After any sequence of sends, ended writes, failed writes and closes, the messages given to the
-- socket followed by those in the queue are the messages sent, in order; no write was begun while
-- another was in flight; when no write is under way the queue is empty; while the session is
-- connected and writing, a write is in flight; and the disconnect was reported once if the session
-- is disconnected and never if it is not. After a failed write or a close, messages may be left in
-- the queue.
pub run-new_writer : (events : List Event) → IsOrdered (run new_writer events) (sent events)
run-new_writer events = run-IsOrdered events new_writer [] new-IsOrdered
