-- ===== src/PeerSession/Pex.antt =====
-- src/daemon/peer_session.cpp: `handle_pex_msg`, the handler of a peer exchange.
use new_thinbt.Common.{
  ℕ, zero, suc, ◌+◌, ◌*◌, Bool, not, ◌&&◌, List, [], ◌∷◌, ◌++◌, length, get_or, take, drop, bit_and,
  ltb, if◌then◌else◌, ◌==◌,
}
use new_thinbt.Common.Bytes.{le_value, byte_swap, get_be}
use new_thinbt.Protocol.{PexPeer}

-- The calls of on_pex_peer_ and on_pex_remove_. An address is the number in the message, in network
-- order, which inet_ntoa prints.
pub data PexCall : Type 0 where
  connect_peer : ℕ → ℕ → ℕ → PexCall
  remove_peer : ℕ → ℕ → PexCall

-- memcpy of the eight bytes of an entry.
unfoldable pub load_pex_peer : List ℕ → PexPeer
load_pex_peer bytes = record {
  ip = le_value (take 4 bytes);
  port = le_value (take 2 (drop 4 bytes));
  flags = get_or bytes 6 0;
  reserved = get_or bytes 7 0;
}

-- The body of the loop. The first two arguments say which of the callbacks are set.
unfoldable pub pex_call : Bool → Bool → ℕ → PexPeer → List PexCall
pex_call has_remove has_peer op p =
    let is_left = not (bit_and p.flags 128 == 0) in
    if (op == 1) && is_left
    then (if has_remove then remove_peer p.ip (byte_swap 2 p.port) ∷ [] else [])
    else if not is_left && has_peer
    then connect_peer p.ip (byte_swap 2 p.port) p.flags ∷ []
    else []

-- The loop, over the entries that are left.
unfoldable pub pex_calls : Bool → Bool → ℕ → ℕ → List ℕ → List PexCall
unfolding load_pex_peer pex_call
pex_calls has_remove has_peer op zero bytes = []
pex_calls has_remove has_peer op (suc n) bytes =
    pex_call has_remove has_peer op (load_pex_peer bytes)
    ++ pex_calls has_remove has_peer op n (drop 8 bytes)

unfoldable pub handle_pex_msg : Bool → Bool → List ℕ → List PexCall
unfolding pex_calls
handle_pex_msg has_remove has_peer data_bytes =
    let count = get_be 2 (drop 1 data_bytes) in
    if ltb (length data_bytes) 3
    then []
    else if ltb (length data_bytes) (3 + count * 8)
    then []
    else pex_calls has_remove has_peer (get_or data_bytes 0 0) count (drop 3 data_bytes)
