-- ===== src/PeerSession/Blocks.antt =====
-- Blocks of a file from the request to the worker that assembles them, and blocks that were
-- cancelled.
use new_thinbt.Common.{
  ℕ, ◌+◌, ◌%◌, ◌<◌, ◌≡◌, refl, sym, ap, ap₂, ◌∙◌, true, false, not, ◌&&◌, Option, some, List, [],
  ◌∷◌, ◌++◌, append_assoc, append-nil, length, length-append, drop, drop-append_left, ltb, arith,
  u32_mod, u64_mod,
}
use new_thinbt.Common.Bytes.{put_be, get_be, get_be-put_be, drop-put_be, length-put_be}
use new_thinbt.Protocol.{block_payload, piece, id_byte, build_piece}
use new_thinbt.PeerSession.Writer.{send_message}
use new_thinbt.PeerSession.Serving.{
  Block, read_job, Upload, is_cancelled, base_off, block_of, post_block, serve_block,
  request_unless, send_read, handle_request_msg, read_task, send_piece, on_block_read,
  sendfile_header,
}

-- The fields of a request at their width.
pub record IsBlock (c b len : ℕ) : Type 0 where
  pub chunk_lt : c < u32_mod
  pub begin_lt : b < u32_mod
  pub length_lt : len < u32_mod

pub drop_twice : (c b : ℕ) (rest : List ℕ) → drop 8 (put_be 4 c ++ (put_be 4 b ++ rest)) ≡ rest
drop_twice c b rest =
    ap (drop 8) (sym (append_assoc (put_be 4 c) (put_be 4 b) rest))
    ∙ drop-append_left 8 (put_be 4 c ++ put_be 4 b) rest (
        omega
          (arith, length-append (put_be 4 c) (put_be 4 b), length-put_be 4 c, length-put_be 4 b))

get_be-last : (v : ℕ) → v < u32_mod → get_be 4 (put_be 4 v) ≡ v
get_be-last v lt = ap (get_be 4) (sym (append-nil (put_be 4 v))) ∙ get_be-put_be 4 v [] lt

pub length-block_payload : (c b len : ℕ) → length (block_payload c b len) ≡ 12
length-block_payload c b len = omega (
  arith,
  length-append (put_be 4 c) (put_be 4 b ++ put_be 4 len),
  length-append (put_be 4 b) (put_be 4 len),
  length-put_be 4 c,
  length-put_be 4 b,
  length-put_be 4 len,
)

-- The fields that lead a REQUEST, a CANCEL and a PIECE.
pub chunk_first :
    (c b : ℕ) (rest : List ℕ) → c < u32_mod → get_be 4 (put_be 4 c ++ (put_be 4 b ++ rest)) ≡ c
chunk_first c b rest lt = get_be-put_be 4 c (put_be 4 b ++ rest) lt

pub begin_second :
    (c b : ℕ) (rest : List ℕ)
    → b < u32_mod
    → get_be 4 (drop 4 (put_be 4 c ++ (put_be 4 b ++ rest))) ≡ b
begin_second c b rest lt =
    ap (get_be 4) (drop-put_be 4 c (put_be 4 b ++ rest)) ∙ get_be-put_be 4 b rest lt

-- The block that a request for `c`, `b` and `len` stands for.
abbrev pub requested : Option (List ℕ) → ℕ → ℕ → ℕ → Block
requested offsets c b len = record {
  chunk_idx = c;
  begin = b;
  length = len;
  offset = (base_off offsets c + b) % u64_mod;
}

pub block_of-block_payload :
    (offsets : Option (List ℕ)) (c b len : ℕ)
    → IsBlock c b len
    → block_of offsets (block_payload c b len) ≡ requested offsets c b len
unfolding block_of
block_of-block_payload offsets c b len fits = λ i. record {
  chunk_idx = first i;
  begin = second i;
  length = (ap (get_be 4) (drop_twice c b (put_be 4 len)) ∙ get_be-last len fits.length_lt) i;
  offset = (base_off offsets (first i) + second i) % u64_mod;
}
  where
    first : get_be 4 (block_payload c b len) ≡ c
    first = chunk_first c b (put_be 4 len) fits.chunk_lt

    second : get_be 4 (drop 4 (block_payload c b len)) ≡ b
    second = begin_second c b (put_be 4 len) fits.begin_lt

-- A session that answers requests with reads of the file.
pub record IsServing (u : Upload) : Type 0 where
  pub unchoked : u.choking_peer ≡ false
  pub filed : u.has_file ≡ true
  pub reading : u.use_sendfile ≡ false
  pub live : u.closed ≡ false

request_posts :
    (u : Upload) (c b len : ℕ)
    → IsBlock c b len
    → IsServing u
    → is_cancelled c b u.cancelled_set ≡ false
    → handle_request_msg u (block_payload c b len)
      ≡ some (record u { jobs = read_job (requested u.chunk_offsets c b len) ∷ u.jobs })
unfolding handle_request_msg request_unless serve_block post_block
request_posts u c b len fits serving wanted =
    let block : Block = requested u.chunk_offsets c b len in
    let long : ltb (length (block_payload c b len)) 12 ≡ false =
      ground (arith, length-block_payload c b len) in
    ap (λ blk. request_unless u.choking_peer (ltb (length (block_payload c b len)) 12) u blk)
      (block_of-block_payload u.chunk_offsets c b len fits)
    ∙ ap₂ (λ k l. request_unless k l u block) serving.unchoked long
    ∙ ap₂ (λ k f. some (serve_block k f u block)) wanted serving.filed
    ∙ ap (λ k. some (post_block (k && not u.writer.is_writing) u.writer.write_queue u block))
        serving.reading

-- A request for a block that was not cancelled, at a session that does not choke and reads its file,
-- has the block read; and what the read gives, if it gives anything, is sent as the PIECE with the
-- chunk, the offset and these bytes.
pub handle_request-send_piece :
    (u : Upload) (c b len : ℕ) (pread : ℕ → ℕ → Option (List ℕ)) (x : ℕ) (xs : List ℕ)
    → IsBlock c b len
    → IsServing u
    → is_cancelled c b u.cancelled_set ≡ false
    → pread (requested u.chunk_offsets c b len).offset len ≡ some (x ∷ xs)
    → (u' : Upload) × (handle_request_msg u (block_payload c b len) ≡ some u')
      × (u'.jobs ≡ read_job (requested u.chunk_offsets c b len) ∷ u.jobs)
      × ((on_block_read u'
            (requested u.chunk_offsets c b len)
            (read_task pread (requested u.chunk_offsets c b len))).writer
          ≡ send_message u.writer (build_piece c b (x ∷ xs)))
unfolding on_block_read send_read read_task send_piece
handle_request-send_piece u c b len pread x xs fits serving wanted read =
    let block : Block = requested u.chunk_offsets c b len in
    let u' : Upload = record u { jobs = read_job block ∷ u.jobs } in
    let got : read_task pread block ≡ x ∷ xs = rw (read_task, read) refl in
    (
      u',
      request_posts u c b len fits serving wanted,
      refl,
      ap₂ (λ k bytes. (send_read k bytes u' block).writer) serving.live got,
    )

-- The two ways a block is sent write the same bytes if as many bytes of the file are sent as the
-- block is long: the header of the sendfile path, before these bytes, is then the PIECE message that
-- the other path builds of them.
pub sendfile_header-build_piece :
    (block : Block) (bytes : List ℕ)
    → length bytes ≡ block.length
    → sendfile_header block ++ bytes ≡ build_piece block.chunk_idx block.begin bytes
unfolding sendfile_header build_piece
sendfile_header-build_piece block bytes same =
    append_assoc (put_be 4 ((1 + 8 + block.length) % u32_mod)) _ bytes
    ∙ ap₂ (λ (n : ℕ) t. put_be 4 ((1 + 8 + n) % u32_mod) ++ (id_byte piece ∷ t)) (sym same)
        (append_assoc (put_be 4 block.chunk_idx) (put_be 4 block.begin) bytes)
