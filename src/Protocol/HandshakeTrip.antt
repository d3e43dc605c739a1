-- ===== src/Protocol/HandshakeTrip.antt =====
-- The handshake of src/daemon/protocol.cpp from one side to the other.
use new_thinbt.Common.{
  ℕ, ◌<◌, ◌≤◌, ◌≡◌, refl, sym, ap, ◌∙◌, true, some, List, [], ◌++◌, length, length-append,
  length-take, take, drop, take-append_left, drop-append_left, replicate, append_assoc, append-nil,
  arith,
}
use new_thinbt.Common.Bytes.{
  put_be, get_be-put_be, length-put_be, length-le_bytes, le_bytes, le_value, le_value-le_bytes,
  byte_swap, byte_swap-lt, byte_swap-byte_swap, bytes_eq,
}
use new_thinbt.Protocol.{
  Handshake, build_handshake, validate_protocol_id, listen_port, serialize_handshake,
  load_handshake, parse_handshake,
}

-- A handshake struct with its fields at their widths.
pub record IsPacked (h : Handshake) : Type 0 where
  pub name_size : length h.protocol_id ≡ 19
  pub reserved_size : length h.reserved ≡ 4
  pub hash_size : length h.info_hash ≡ 20
  pub peer_size : length h.peer_id ≡ 20
  pub speed_lt : h.speed_mbps < 4294967296

length-serialize : (h : Handshake) → IsPacked h → length (serialize_handshake h) ≡ 67
unfolding serialize_handshake
length-serialize h p = omega (
  arith,
  length-append h.protocol_id
      (h.reserved ++ (le_bytes 4 h.speed_mbps ++ (h.info_hash ++ h.peer_id))),
  length-append h.reserved (le_bytes 4 h.speed_mbps ++ (h.info_hash ++ h.peer_id)),
  length-append (le_bytes 4 h.speed_mbps) (h.info_hash ++ h.peer_id),
  length-append h.info_hash h.peer_id,
  length-le_bytes 4 h.speed_mbps,
)

-- memcpy out of a struct and into another gives the struct back.
load-serialize :
    (h : Handshake) (rest : List ℕ)
    → IsPacked h
    → load_handshake (serialize_handshake h ++ rest) ≡ h
unfolding load_handshake serialize_handshake
load-serialize h rest p = λ k. record {
  protocol_id = (ap (take 19) flat ∙ take-append_left 19 h.protocol_id t1 p.name_size) k;
  reserved = (ap (take 4) d1 ∙ take-append_left 4 h.reserved t2 p.reserved_size) k;
  speed_mbps =
      (ap (λ bs. le_value (take 4 bs)) d2
          ∙ ap le_value (take-append_left 4 speed t3 (length-le_bytes 4 h.speed_mbps))
          ∙ le_value-le_bytes 4 h.speed_mbps p.speed_lt)
        k;
  info_hash = (ap (take 20) d3 ∙ take-append_left 20 h.info_hash t4 p.hash_size) k;
  peer_id = (ap (take 20) d4 ∙ take-append_left 20 h.peer_id rest p.peer_size) k;
}
  where
    speed : List ℕ
    speed = le_bytes 4 h.speed_mbps

    t4 : List ℕ
    t4 = h.peer_id ++ rest

    t3 : List ℕ
    t3 = h.info_hash ++ t4

    t2 : List ℕ
    t2 = speed ++ t3

    t1 : List ℕ
    t1 = h.reserved ++ t2

    flat : serialize_handshake h ++ rest ≡ h.protocol_id ++ t1
    flat = simp append_assoc

    d1 : drop 19 (serialize_handshake h ++ rest) ≡ t1
    d1 = ap (drop 19) flat ∙ drop-append_left 19 h.protocol_id t1 p.name_size

    d2 : drop 4 (drop 19 (serialize_handshake h ++ rest)) ≡ t2
    d2 = ap (drop 4) d1 ∙ drop-append_left 4 h.reserved t2 p.reserved_size

    d3 : drop 4 (drop 4 (drop 19 (serialize_handshake h ++ rest))) ≡ t3
    d3 = ap (drop 4) d2 ∙ drop-append_left 4 speed t3 (length-le_bytes 4 h.speed_mbps)

    d4 : drop 20 (drop 4 (drop 4 (drop 19 (serialize_handshake h ++ rest)))) ≡ t4
    d4 = ap (drop 20) d3 ∙ drop-append_left 20 h.info_hash t4 p.hash_size

build-IsPacked :
    (h : Handshake) (ih : List ℕ) (speed port : ℕ)
    → length ih ≡ 20
    → length h.peer_id ≡ 20
    → IsPacked (build_handshake h ih speed port)
unfolding build_handshake
build-IsPacked h ih speed port n q = record {
  name_size = refl;
  reserved_size =
      omega (arith, length-append (put_be 2 port) (replicate 2 0), length-put_be 2 port);
  hash_size = omega (arith, length-take 20 ih);
  peer_size = q;
  speed_lt = byte_swap-lt 4 speed;
}

build-validate :
    (h : Handshake) (ih : List ℕ) (speed port : ℕ)
    → validate_protocol_id (build_handshake h ih speed port) ≡ true
unfolding validate_protocol_id build_handshake bytes_eq
build-validate h ih speed port = refl

parse-serialize :
    (h : Handshake) (rest : List ℕ)
    → IsPacked h
    → validate_protocol_id h ≡ true
    → parse_handshake (serialize_handshake h ++ rest)
      ≡ some (record h { speed_mbps = byte_swap 4 h.speed_mbps })
unfolding parse_handshake
parse-serialize h rest p v =
    let size : 67 ≤ length (serialize_handshake h ++ rest) =
      omega (arith, length-append (serialize_handshake h) rest, length-serialize h p) in
    rw (load-serialize h rest p, v) (ground arith)

-- What one side builds from its info hash, link speed and listening port, the other side accepts,
-- with the same hash, speed, port and peer id, also when more bytes follow the 67 of the handshake;
-- the hash and the peer id have 20 bytes, and the speed and the port fit their integers.
pub parse-build_handshake :
    (h : Handshake) (ih : List ℕ) (speed port : ℕ) (rest : List ℕ)
    → length ih ≡ 20
    → length h.peer_id ≡ 20
    → speed < 4294967296
    → port < 65536
    → (got : Handshake) × (parse_handshake
          (serialize_handshake (build_handshake h ih speed port) ++ rest)
        ≡ some got)
      × (got.info_hash ≡ ih)
      × (got.speed_mbps ≡ speed)
      × (got.peer_id ≡ h.peer_id)
      × (listen_port got ≡ port)
unfolding build_handshake
parse-build_handshake h ih speed port rest n q s l =
    (got, accepted, whole_hash, speed_back, refl, port_back)
  where
    built : Handshake
    built = build_handshake h ih speed port

    got : Handshake
    got = record built { speed_mbps = byte_swap 4 built.speed_mbps }

    accepted : parse_handshake (serialize_handshake built ++ rest) ≡ some got
    accepted =
        parse-serialize built rest (build-IsPacked h ih speed port n q)
          (build-validate h ih speed port)

    whole_hash : take 20 ih ≡ ih
    whole_hash = ap (take 20) (sym (append-nil ih)) ∙ take-append_left 20 ih [] n

    speed_back : got.speed_mbps ≡ speed
    speed_back = unfold build_handshake in byte_swap-byte_swap 4 speed s

    port_back : listen_port got ≡ port
    port_back = unfold build_handshake listen_port in get_be-put_be 2 port (replicate 2 0) l
