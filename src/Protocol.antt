-- ===== src/Protocol.antt =====
-- src/daemon/protocol.hpp and src/daemon/protocol.cpp: the handshake and the messages of the peer
-- protocol as byte strings. A buffer is a list of bytes; an integer field is the number that the
-- host holds, and memcpy writes it low byte first (the hosts are little-endian).
pub mod Bitfield
pub mod Framing
pub mod HandshakeTrip
mod Examples
use new_thinbt.Common.{
  ℕ, zero, suc, ◌+◌, ◌-◌, ◌*◌, ◌/◌, ◌%◌, ◌^◌, bit_or, Bool, true, false, Option, none, some, List,
  [], ◌∷◌, ◌++◌, length, take, drop, get_or, set, replicate, ltb, leb, if◌then◌else◌, ◌&&◌, ◌==◌,
  u32_mod, u16_mod,
}
use new_thinbt.Common.Bytes.{le_bytes, le_value, byte_swap, bytes_eq, put_be, get_be}

-- An `enum class : uint8_t` holds any byte, so a byte that names no message is `other`.
pub data P2PMsgId : Type 0 where
  choke unchoke interested not_interested have bitfield request piece cancel pex : P2PMsgId
  other : ℕ → P2PMsgId

unfoldable pub id_byte : P2PMsgId → ℕ
id_byte choke = 0
id_byte unchoke = 1
id_byte interested = 2
id_byte not_interested = 3
id_byte have = 4
id_byte bitfield = 5
id_byte request = 6
id_byte piece = 7
id_byte cancel = 8
id_byte pex = 9
id_byte (other b) = b

-- static_cast<P2PMsgId>(byte)
unfoldable pub msg_id : ℕ → P2PMsgId
msg_id zero = choke
msg_id (suc zero) = unchoke
msg_id (suc (suc zero)) = interested
msg_id (suc (suc (suc zero))) = not_interested
msg_id (suc (suc (suc (suc zero)))) = have
msg_id (suc (suc (suc (suc (suc zero))))) = bitfield
msg_id (suc (suc (suc (suc (suc (suc zero)))))) = request
msg_id (suc (suc (suc (suc (suc (suc (suc zero))))))) = piece
msg_id (suc (suc (suc (suc (suc (suc (suc (suc zero)))))))) = cancel
msg_id (suc (suc (suc (suc (suc (suc (suc (suc (suc zero))))))))) = pex
msg_id (suc (suc (suc (suc (suc (suc (suc (suc (suc (suc b)))))))))) =
    other (suc (suc (suc (suc (suc (suc (suc (suc (suc (suc b))))))))))

pub record Handshake : Type 0 where
  pub protocol_id : List ℕ
  pub reserved : List ℕ
  pub speed_mbps : ℕ
  pub info_hash : List ℕ
  pub peer_id : List ℕ

-- "thinBT Protocol"
abbrev pub protocol_name : List ℕ
protocol_name =
    0x74 ∷ 0x68 ∷ 0x69 ∷ 0x6e ∷ 0x42 ∷ 0x54 ∷ 0x20 ∷ 0x50 ∷ 0x72 ∷ 0x6f ∷ 0x74 ∷ 0x6f ∷ 0x63 ∷ 0x6f
    ∷ 0x6c ∷ []

-- A fresh handshake, as its member initialisers leave it.
unfoldable pub empty_handshake : Handshake
empty_handshake = record {
  protocol_id = replicate 19 0;
  reserved = replicate 4 0;
  speed_mbps = 0;
  info_hash = replicate 20 0;
  peer_id = replicate 20 0;
}

unfoldable pub build_handshake : Handshake → List ℕ → ℕ → ℕ → Handshake
build_handshake h ih speed port = record h {
  protocol_id = protocol_name ++ replicate 4 0;
  reserved = put_be 2 port ++ replicate 2 0;
  speed_mbps = byte_swap 4 speed;
  info_hash = take 20 ih;
}

unfoldable pub validate_protocol_id : Handshake → Bool
validate_protocol_id h =
    bytes_eq (take 15 h.protocol_id) protocol_name
    && (get_or h.protocol_id 15 0 == 0 && get_or h.protocol_id 16 0 == 0)
    && (get_or h.protocol_id 17 0 == 0 && get_or h.protocol_id 18 0 == 0)

unfoldable pub listen_port : Handshake → ℕ
listen_port h = get_be 2 h.reserved

-- memcpy of the packed struct, 67 bytes.
unfoldable pub serialize_handshake : Handshake → List ℕ
serialize_handshake h =
    h.protocol_id ++ (h.reserved ++ (le_bytes 4 h.speed_mbps ++ (h.info_hash ++ h.peer_id)))

-- memcpy back into the struct.
unfoldable pub load_handshake : List ℕ → Handshake
load_handshake bytes =
    let r1 = drop 19 bytes in
    let r2 = drop 4 r1 in
    let r3 = drop 4 r2 in
    let r4 = drop 20 r3 in
    record {
      protocol_id = take 19 bytes;
      reserved = take 4 r1;
      speed_mbps = le_value (take 4 r2);
      info_hash = take 20 r3;
      peer_id = take 20 r4;
    }

unfoldable pub parse_handshake : List ℕ → Option Handshake
parse_handshake bytes =
    let h = load_handshake bytes in
    if ltb (length bytes) 67
    then none
    else if validate_protocol_id h
    then some (record h { speed_mbps = byte_swap 4 h.speed_mbps })
    else none

-- `[len:4][id:1][payload]`. A payload of 2 ^ 32 - 5 bytes or more, for which the buffer's size
-- would wrap, is outside the model: every theorem bounds the payload.
unfoldable pub build_message : P2PMsgId → List ℕ → List ℕ
build_message id payload = put_be 4 ((1 + length payload) % u32_mod) ++ (id_byte id ∷ payload)

unfoldable pub build_have : ℕ → List ℕ
unfolding build_message
build_have chunk_idx = build_message have (put_be 4 chunk_idx)

-- for (i) if (have[i]) bf[i / 8] |= 1u << (7 - i % 8): the loop from position `i` on.
unfoldable pub pack_bits : ℕ → List Bool → List ℕ → List ℕ
pack_bits i [] bf = bf
pack_bits i (b ∷ bs) bf =
    pack_bits (i + 1) bs
      (if b then set bf (i / 8) (bit_or (get_or bf (i / 8) 0) (2 ^ (7 - i % 8)) % 256) else bf)

unfoldable pub bitfield_bytes : List Bool → List ℕ
bitfield_bytes bits = pack_bits 0 bits (replicate ((length bits + 7) % u32_mod / 8) 0)

unfoldable pub build_bitfield : List Bool → List ℕ
build_bitfield bits = build_message bitfield (bitfield_bytes bits)

-- The payload that `build_request` and `build_cancel` share.
abbrev pub block_payload : ℕ → ℕ → ℕ → List ℕ
block_payload index begin len = put_be 4 index ++ (put_be 4 begin ++ put_be 4 len)

unfoldable pub build_request : ℕ → ℕ → ℕ → List ℕ
build_request index begin len = build_message request (block_payload index begin len)

unfoldable pub build_cancel : ℕ → ℕ → ℕ → List ℕ
build_cancel index begin len = build_message cancel (block_payload index begin len)

-- One allocation: the header is written field by field and not by `build_message`.
unfoldable pub build_piece : ℕ → ℕ → List ℕ → List ℕ
build_piece index begin block =
    put_be 4 ((1 + 8 + length block) % u32_mod)
    ++ (id_byte piece ∷ (put_be 4 index ++ (put_be 4 begin ++ block)))

unfoldable pub build_interested : List ℕ
build_interested = build_message interested []

unfoldable pub build_not_interested : List ℕ
build_not_interested = build_message not_interested []

-- `ip` and `port` hold network-order integers, so memcpy writes them as they are.
pub record PexPeer : Type 0 where
  pub ip : ℕ
  pub port : ℕ
  pub flags : ℕ
  pub reserved : ℕ

unfoldable pub pex_bytes : PexPeer → List ℕ
pex_bytes p = le_bytes 4 p.ip ++ (le_bytes 2 p.port ++ (p.flags ∷ p.reserved ∷ []))

unfoldable pub pex_peers_bytes : List PexPeer → List ℕ
pex_peers_bytes [] = []
pex_peers_bytes (p ∷ ps) = pex_bytes p ++ pex_peers_bytes ps

unfoldable pub pex_payload : Bool → List PexPeer → List ℕ
unfolding pex_peers_bytes pex_bytes
pex_payload is_delta peers =
    (if is_delta then 1 else 0) ∷ (put_be 2 (length peers % u16_mod) ++ pex_peers_bytes peers)

unfoldable pub build_pex : Bool → List PexPeer → List ℕ
build_pex is_delta peers = build_message pex (pex_payload is_delta peers)

-- The message length and the id, if there are five bytes and the length counts the id.
unfoldable pub parse_message_header : List ℕ → Option (ℕ × P2PMsgId)
parse_message_header bytes =
    let msg_len = get_be 4 bytes in
    if ltb (length bytes) 5
    then none
    else if leb 1 msg_len
    then some (msg_len, msg_id (get_or bytes 4 0))
    else none
