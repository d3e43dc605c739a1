-- ===== src/Protocol/Framing.antt =====
-- Messages on the wire: what the receiving side, `start_read_header` and `start_read_body` of
-- src/daemon/peer_session.cpp, makes of what the builders of src/daemon/protocol.cpp wrote.
use native.Mathlib.Nat.{mod-eq_of_lt}
use new_thinbt.Common.{
  ℕ, zero, suc, ◌+◌, ◌-◌, ◌%◌, ◌≤◌, ◌<◌, ◌≡◌, refl, sym, ap, ◌∙◌, Option, none, some, List, [], ◌∷◌,
  ◌++◌, append_assoc, length, length-append, take, drop, get_or, take-append_left, drop-append_left,
  get_or-append_right, ltb, if◌then◌else◌, u32_mod, arith, All, ◌>>=◌,
}
use new_thinbt.Common.Bytes.{put_be, get_be-put_be, length-put_be}
use new_thinbt.Protocol.{
  P2PMsgId, choke, unchoke, interested, not_interested, have, bitfield, request, piece, cancel, pex,
  other, id_byte, msg_id, build_message, build_piece, parse_message_header,
}

-- PeerSession::MAX_MSG_SIZE
abbrev pub max_msg_size : ℕ
max_msg_size = 65536

-- One round of the read chain on the bytes at hand: a message and the bytes behind it; `none` is a
-- disconnect (a header that is refused, a body that is too large, or the stream's end).
unfoldable pub read_message : List ℕ → Option ((P2PMsgId × List ℕ) × List ℕ)
read_message bytes = elim (parse_message_header bytes) [
  | none ↦ none
  | some (msg_len, id) ↦
      if ltb max_msg_size (msg_len - 1)
      then none
      else if ltb (length (drop 5 bytes)) (msg_len - 1)
      then none
      else some ((id, take (msg_len - 1) (drop 5 bytes)), drop (msg_len - 1) (drop 5 bytes))
]

-- Ids that the receiver tells apart: the ten of the protocol, and any other byte.
abbrev pub IsWireId : P2PMsgId → Type 0
IsWireId (other b) = (10 ≤ b) × (b < 256)
IsWireId id = Unit {0}

msg_id_byte_other : (b : ℕ) → 10 ≤ b → msg_id b ≡ other b
unfolding msg_id
msg_id_byte_other (suc (suc (suc (suc (suc (suc (suc (suc (suc (suc b)))))))))) h = refl
msg_id_byte_other zero h = absurd (omega arith)
msg_id_byte_other _ h = absurd (omega arith)

pub msg_id-id_byte : (id : P2PMsgId) → IsWireId id → msg_id (id_byte id) ≡ id
unfolding msg_id id_byte
msg_id-id_byte choke h = refl
msg_id-id_byte unchoke h = refl
msg_id-id_byte interested h = refl
msg_id-id_byte not_interested h = refl
msg_id-id_byte have h = refl
msg_id-id_byte bitfield h = refl
msg_id-id_byte request h = refl
msg_id-id_byte piece h = refl
msg_id-id_byte cancel h = refl
msg_id-id_byte pex h = refl
msg_id-id_byte (other b) h = msg_id_byte_other b h.0

parse_header :
    (n x : ℕ) (rest : List ℕ)
    → n < 4294967296
    → 1 ≤ n
    → parse_message_header (put_be 4 n ++ (x ∷ rest)) ≡ some (n, msg_id x)
unfolding parse_message_header
parse_header n x rest h pos =
    let len : length (put_be 4 n ++ (x ∷ rest)) ≡ 4 + suc (length rest) =
      omega (arith, length-append (put_be 4 n) (x ∷ rest), length-put_be 4 n) in
    let at : get_or (put_be 4 n ++ (x ∷ rest)) 4 0 ≡ x =
      get_or-append_right (put_be 4 n) (x ∷ rest) 4 0 (omega (arith, length-put_be 4 n))
      ∙ ap (λ (k : ℕ). get_or (x ∷ rest) (4 - k) 0) (length-put_be 4 n) in
    rw (get_be-put_be 4 n (x ∷ rest) h, at) (ground (arith, len))

-- The header of a built message is read back: the payload's length with the id, and the id.
pub parse-build_message :
    (id : P2PMsgId) (payload rest : List ℕ)
    → IsWireId id
    → length payload < 4294967291
    → parse_message_header (build_message id payload ++ rest) ≡ some (1 + length payload, id)
unfolding build_message
parse-build_message id payload rest w h =
    let m : (1 + length payload) % u32_mod ≡ 1 + length payload = mod-eq_of_lt (omega arith) in
    rw (append_assoc (put_be 4 ((1 + length payload) % u32_mod)) (id_byte id ∷ payload) rest, m)
      (parse_header (1 + length payload) (id_byte id) (payload ++ rest) (omega arith) (omega arith)
        ∙ ap (λ i. some (1 + length payload, i)) (msg_id-id_byte id w))

drop_header : (n x : ℕ) (rest : List ℕ) → drop 5 (put_be 4 n ++ (x ∷ rest)) ≡ rest
drop_header n x rest =
    ap (drop 5) (sym (append_assoc (put_be 4 n) (x ∷ []) rest))
    ∙ drop-append_left 5 (put_be 4 n ++ (x ∷ [])) rest
        (omega (arith, length-append (put_be 4 n) (x ∷ []), length-put_be 4 n))

drop-build_message :
    (id : P2PMsgId) (payload rest : List ℕ)
    → drop 5 (build_message id payload ++ rest) ≡ payload ++ rest
unfolding build_message
drop-build_message id payload rest =
    ap (drop 5)
      (append_assoc (put_be 4 ((1 + length payload) % u32_mod)) (id_byte id ∷ payload) rest)
    ∙ drop_header ((1 + length payload) % u32_mod) (id_byte id) (payload ++ rest)

-- A built message of at most 65536 payload bytes is read back whole, whatever stands behind it in
-- the stream, and exactly its bytes are taken.
pub read-build_message :
    (id : P2PMsgId) (payload rest : List ℕ)
    → IsWireId id
    → length payload ≤ max_msg_size
    → read_message (build_message id payload ++ rest) ≡ some ((id, payload), rest)
unfolding read_message
read-build_message id payload rest w h =
    let e : 1 + length payload - 1 ≡ length payload = omega arith in
    rw
      (
        parse-build_message id payload rest w (omega arith),
        read_message,
        drop-build_message id payload rest,
        e,
      )
      (ground (
        arith,
        length-append payload rest,
        take-append_left (length payload) payload rest refl,
        drop-append_left (length payload) payload rest refl,
      ))

-- The read chain over a whole stream, with a round of fuel for each message; `none` is a disconnect
-- before the stream is used up.
unfoldable pub read_stream : ℕ → List ℕ → Option (List (P2PMsgId × List ℕ))
read_stream fuel [] = some []
read_stream zero (b ∷ bytes) = none
read_stream (suc fuel) (b ∷ bytes) = do
  (m, rest) ← read_message (b ∷ bytes)
  ms ← read_stream fuel rest
  some (m ∷ ms)

-- Messages as they are queued for one connection.
unfoldable pub stream_of : List (P2PMsgId × List ℕ) → List ℕ
stream_of [] = []
stream_of ((id, payload) ∷ ms) = build_message id payload ++ stream_of ms

abbrev pub IsSendable : P2PMsgId × List ℕ → Type 0
IsSendable m = IsWireId m.0 × (length m.1 ≤ max_msg_size)

read_stream_step :
    (fuel : ℕ) (bytes rest : List ℕ) (m : P2PMsgId × List ℕ)
    → read_message bytes ≡ some (m, rest)
    → read_stream (suc fuel) bytes ≡ (read_stream fuel rest >>= λ ms. some (m ∷ ms))
unfolding read_stream
read_stream_step fuel [] rest m e = absurd (unfold read_message parse_message_header in cc e)
read_stream_step fuel (b ∷ bytes) rest m e = rw e

-- Any sequence of sendable messages, written one after the other, is read back as that sequence,
-- with one round of the read chain for each message.
pub read_stream-stream_of :
    (ms : List (P2PMsgId × List ℕ))
    → All IsSendable ms
    → read_stream (length ms) (stream_of ms) ≡ some ms
unfolding stream_of
read_stream-stream_of [] h = unfold read_stream in refl
read_stream-stream_of ((id, payload) ∷ ms) h =
    read_stream_step (length ms) (build_message id payload ++ stream_of ms) (stream_of ms)
      (id, payload) (read-build_message id payload (stream_of ms) h.0.0 h.0.1)
    ∙ rw (read_stream-stream_of ms h.1)

-- The PIECE message, which is laid out by hand in one allocation, is byte for byte the message that
-- `build_message` makes of the index, the offset and the data.
pub build_piece-build_message :
    (index begin : ℕ) (block : List ℕ)
    → build_piece index begin block
      ≡ build_message piece (put_be 4 index ++ (put_be 4 begin ++ block))
unfolding build_piece build_message
build_piece-build_message index begin block =
    let e : 1 + 8 + length block ≡ 1 + length (put_be 4 index ++ (put_be 4 begin ++ block)) =
      omega (
        arith,
        length-append (put_be 4 index) (put_be 4 begin ++ block),
        length-append (put_be 4 begin) block,
        length-put_be 4 index,
        length-put_be 4 begin,
      ) in
    ap
      (λ (n : ℕ).
        put_be 4 (n % u32_mod) ++ (id_byte piece ∷ (put_be 4 index ++ (put_be 4 begin ++ block))))
      e
