-- ===== src/PeerSession/Cancelled.antt =====
-- What a CANCEL means for later requests of the block. `handle_cancel_msg` of
-- src/daemon/peer_session.cpp remembers the block, and nothing there forgets it.
use new_thinbt.Common.{
  ℕ, ◌≡◌, refl, sym, ap, ap₂, ◌∙◌, inl, inr, Bool, true, false, not, ◌&&◌, Option, none, some, List,
  [], ◌∷◌, length, drop, ltb, Bool-cases, Option-cases, arith,
}
use new_thinbt.Common.Bytes.{get_be}
use new_thinbt.Protocol.{block_payload}
use new_thinbt.PeerSession.Blocks.{
  IsBlock, length-block_payload, chunk_first, begin_second, requested, block_of-block_payload,
}
use new_thinbt.PeerSession.Serving.{
  Block, Upload, is_cancelled, insert_cancelled, block_of, post_block, serve_block, request_unless,
  handle_request_msg, note_cancel, handle_cancel_msg, send_piece, send_read, on_block_read,
  on_sendfile_done, BlockEvent, got_request, got_cancel, block_read, sendfile_done, on_block_event,
  run_blocks,
}

is_cancelled-insert_self :
    (c b : ℕ) (blocks : List (ℕ × ℕ)) → is_cancelled c b (insert_cancelled c b blocks) ≡ true
unfolding is_cancelled insert_cancelled
is_cancelled-insert_self c b blocks = elim (Bool-cases (is_cancelled c b blocks)) [
  | inl old ↦ rw (insert_cancelled, old) old
  | inr new ↦ rw (insert_cancelled, new) (ground arith)
]

is_cancelled-insert :
    (c b c' b' : ℕ) (blocks : List (ℕ × ℕ))
    → is_cancelled c b blocks ≡ true
    → is_cancelled c b (insert_cancelled c' b' blocks) ≡ true
unfolding is_cancelled insert_cancelled
is_cancelled-insert c b c' b' blocks was = elim (Bool-cases (is_cancelled c' b' blocks)) [
  | inl old ↦ rw (insert_cancelled, old) was
  | inr new ↦ rw (insert_cancelled, new) (ground (arith, was))
]

post_block-cancelled :
    (sending : Bool) (queue : List (List ℕ)) (u : Upload) (block : Block)
    → (post_block sending queue u block).cancelled_set ≡ u.cancelled_set
unfolding post_block
post_block-cancelled true [] u block = refl
post_block-cancelled true (_ ∷ _) u block = refl
post_block-cancelled false queue u block = refl

serve_block-cancelled :
    (cancelled has_file : Bool) (u : Upload) (block : Block)
    → (serve_block cancelled has_file u block).cancelled_set ≡ u.cancelled_set
unfolding serve_block
serve_block-cancelled true has_file u block = refl
serve_block-cancelled false false u block = refl
serve_block-cancelled false true u block =
    post_block-cancelled (u.use_sendfile && not u.writer.is_writing) u.writer.write_queue u block

cancelled_of : Option Upload → List (ℕ × ℕ)
cancelled_of none = []
cancelled_of (some u) = u.cancelled_set

request_unless-cancelled :
    (choking short : Bool) (u u' : Upload) (block : Block)
    → request_unless choking short u block ≡ some u'
    → u.cancelled_set ≡ u'.cancelled_set
unfolding request_unless cancelled_of
request_unless-cancelled true short u u' block e = ap cancelled_of e
request_unless-cancelled false true u u' block e = cc
request_unless-cancelled false false u u' block e =
    sym (
      serve_block-cancelled (is_cancelled block.chunk_idx block.begin u.cancelled_set) u.has_file u
        block)
    ∙ ap cancelled_of e

send_read-cancelled :
    (closed : Bool) (bytes : List ℕ) (u : Upload) (block : Block)
    → (send_read closed bytes u block).cancelled_set ≡ u.cancelled_set
unfolding send_read send_piece
send_read-cancelled true bytes u block = refl
send_read-cancelled false [] u block = refl
send_read-cancelled false (x ∷ xs) u block = refl

note_cancel-cancelled :
    (c b : ℕ) (short : Bool) (u u' : Upload) (body : List ℕ)
    → note_cancel short u body ≡ some u'
    → is_cancelled c b u.cancelled_set ≡ true
    → is_cancelled c b u'.cancelled_set ≡ true
unfolding note_cancel cancelled_of
note_cancel-cancelled c b true u u' body e was = cc
note_cancel-cancelled c b false u u' body e was =
    ap (is_cancelled c b) (sym (ap cancelled_of e))
    ∙ is_cancelled-insert c b (get_be 4 body) (get_be 4 (drop 4 body)) u.cancelled_set was

-- A block that was cancelled stays so, whatever happens.
on_block_event-cancelled :
    (c b : ℕ) (u u' : Upload) (e : BlockEvent)
    → on_block_event u e ≡ some u'
    → is_cancelled c b u.cancelled_set ≡ true
    → is_cancelled c b u'.cancelled_set ≡ true
unfolding on_block_event handle_request_msg handle_cancel_msg on_block_read on_sendfile_done
    cancelled_of
on_block_event-cancelled c b u u' (got_request body) e was =
    ap (is_cancelled c b) (
      sym (
        request_unless-cancelled u.choking_peer (ltb (length body) 12) u u'
          (block_of u.chunk_offsets body) e))
    ∙ was
on_block_event-cancelled c b u u' (got_cancel body) e was =
    note_cancel-cancelled c b (ltb (length body) 8) u u' body e was
on_block_event-cancelled c b u u' (block_read block bytes) e was =
    ap (is_cancelled c b) (sym (ap cancelled_of e) ∙ send_read-cancelled u.closed bytes u block)
    ∙ was
on_block_event-cancelled c b u u' (sendfile_done sent_body) e was =
    ap (is_cancelled c b) (sym (ap cancelled_of e)) ∙ was

run_blocks-cancelled :
    (c b : ℕ) (events : List BlockEvent) (u u' : Upload)
    → run_blocks u events ≡ some u'
    → is_cancelled c b u.cancelled_set ≡ true
    → is_cancelled c b u'.cancelled_set ≡ true
unfolding run_blocks cancelled_of
run_blocks-cancelled c b [] u u' e was = ap (is_cancelled c b) (sym (ap cancelled_of e)) ∙ was
run_blocks-cancelled c b (event ∷ events) u u' e was =
    elim (Option-cases (on_block_event u event)) [
      | inl stopped ↦ let e' : none ≡ some u' = rw (run_blocks, stopped) at e in cc
      | inr (u1, stepped) ↦
          run_blocks-cancelled c b events u1 u' (rw (run_blocks, stepped) at e)
            (on_block_event-cancelled c b u u1 event stepped was)
    ]

handle_cancel-cancels :
    (u u' : Upload) (c b len : ℕ)
    → IsBlock c b len
    → handle_cancel_msg u (block_payload c b len) ≡ some u'
    → is_cancelled c b u'.cancelled_set ≡ true
unfolding handle_cancel_msg note_cancel cancelled_of
handle_cancel-cancels u u' c b len fits e =
    let long : ltb (length (block_payload c b len)) 8 ≡ false =
      ground (arith, length-block_payload c b len) in
    let same = ap cancelled_of (ap (λ k. note_cancel k u (block_payload c b len)) (sym long) ∙ e) in
    ap (is_cancelled c b) (
      sym same
      ∙ ap₂ (λ (k l : ℕ). insert_cancelled k l u.cancelled_set) (chunk_first c b _ fits.chunk_lt)
          (begin_second c b _ fits.begin_lt))
    ∙ is_cancelled-insert_self c b u.cancelled_set

unserved :
    (choking : Bool) (u : Upload) (block : Block)
    → is_cancelled block.chunk_idx block.begin u.cancelled_set ≡ true
    → request_unless choking false u block ≡ some u
unfolding request_unless serve_block
unserved true u block was = refl
unserved false u block was = ap (λ k. some (serve_block k u.has_file u block)) was

-- After a CANCEL of a block, the fields of both messages within their widths, every later request
-- for the block is ignored, whatever requests, cancels and ends of reads and sends come in between,
-- and so also when the peer asks again because its request timed out: the request changes nothing,
-- so no job is posted for it. A job that was posted before the CANCEL is not covered: its block may
-- still be sent.
pub cancel-request_ignored :
    (u u1 u2 : Upload) (c b len len' : ℕ) (events : List BlockEvent)
    → IsBlock c b len
    → IsBlock c b len'
    → handle_cancel_msg u (block_payload c b len) ≡ some u1
    → run_blocks u1 events ≡ some u2
    → handle_request_msg u2 (block_payload c b len') ≡ some u2
unfolding handle_request_msg
cancel-request_ignored u u1 u2 c b len len' events fits fits' cancelled ran =
    let was =
      run_blocks-cancelled c b events u1 u2 ran
        (handle_cancel-cancels u u1 c b len fits cancelled) in
    let long : ltb (length (block_payload c b len')) 12 ≡ false =
      ground (arith, length-block_payload c b len') in
    ap₂ (λ k blk. request_unless u2.choking_peer k u2 blk) long
      (block_of-block_payload u2.chunk_offsets c b len' fits')
    ∙ unserved u2.choking_peer u2 (requested u2.chunk_offsets c b len') was
