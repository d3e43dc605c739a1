-- ===== src/Protocol/Examples.antt =====
-- The theorems of the protocol at concrete messages, and tests.
use new_thinbt.Common.{
  ℕ, ◌-◌, ◌%◌, ◌≡◌, refl, true, false, some, List, [], ◌∷◌, ◌++◌, length, replicate, All, arith,
}
use new_thinbt.Protocol.{P2PMsgId, have, piece, empty_handshake, bitfield_bytes, pack_bits}
use new_thinbt.Protocol.Bitfield.{record_bitfield, record_bitfield-bitfield_bytes}
use new_thinbt.Protocol.Framing.{read_stream, stream_of, IsSendable, read_stream-stream_of}

abbrev two_messages : List (P2PMsgId × List ℕ)
two_messages = (have, 0 ∷ 0 ∷ 0 ∷ 7 ∷ []) ∷ (piece, 1 ∷ 2 ∷ []) ∷ []

two-IsSendable : All IsSendable two_messages
two-IsSendable = ((tt, omega arith), ((tt, omega arith), tt))

read_stream-stream_of_example : read_stream 2 (stream_of two_messages) ≡ some two_messages
read_stream-stream_of_example = read_stream-stream_of two_messages two-IsSendable

record_bitfield-bitfield_bytes_example :
    record_bitfield (bitfield_bytes (true ∷ false ∷ true ∷ []))
    ≡ (true ∷ false ∷ true ∷ [])
      ++ replicate ((8 - length (true ∷ false ∷ true ∷ []) % 8) % 8) false
record_bitfield-bitfield_bytes_example =
    record_bitfield-bitfield_bytes (true ∷ false ∷ true ∷ []) (omega arith)

abbrev hash : List ℕ
hash = replicate 20 17

peer_id_size : length empty_handshake.peer_id ≡ 20
unfolding empty_handshake
peer_id_size = refl

-- The bits of a byte are in network order, the first chunk in the highest.
bitfield_three : bitfield_bytes (true ∷ false ∷ true ∷ []) ≡ 160 ∷ []
unfolding bitfield_bytes pack_bits
bitfield_three = refl
