-- ===== src/PeerSession/PexTrip.antt =====
-- A peer exchange from the builder of src/daemon/protocol.cpp to the handler.
use native.Mathlib.Nat.{mod-eq_of_lt}
use new_thinbt.Common.{
  ℕ, suc, ◌+◌, ◌*◌, ◌%◌, ◌<◌, ◌≡◌, refl, ap, ap₂, ◌∙◌, Bool, false, List, [], ◌∷◌, ◌++◌, length,
  length-append, drop, ltb, if◌then◌else◌, All, arith, u16_mod,
}
use new_thinbt.Common.Bytes.{
  le_bytes, le_value-le_bytes, put_be, get_be-put_be, drop-put_be, length-put_be,
}
use new_thinbt.Protocol.{PexPeer, pex_bytes, pex_peers_bytes, pex_payload}
use new_thinbt.PeerSession.Pex.{PexCall, load_pex_peer, pex_call, pex_calls, handle_pex_msg}

-- An entry whose integers fit their fields.
abbrev pub IsPexPeer : PexPeer → Type 0
IsPexPeer p = (p.ip < 4294967296) × (p.port < 65536)

-- The calls for the entries, in order.
unfoldable pub calls_of : Bool → Bool → ℕ → List PexPeer → List PexCall
calls_of has_remove has_peer op [] = []
calls_of has_remove has_peer op (p ∷ ps) =
    pex_call has_remove has_peer op p ++ calls_of has_remove has_peer op ps

load-pex_bytes :
    (p : PexPeer) (rest : List ℕ) → IsPexPeer p → load_pex_peer (pex_bytes p ++ rest) ≡ p
unfolding load_pex_peer pex_bytes le_bytes
load-pex_bytes p rest fits = λ i. record p {
  ip = le_value-le_bytes 4 p.ip fits.0 i;
  port = le_value-le_bytes 2 p.port fits.1 i;
}

drop-pex_bytes : (p : PexPeer) (rest : List ℕ) → drop 8 (pex_bytes p ++ rest) ≡ rest
unfolding pex_bytes le_bytes
drop-pex_bytes p rest = refl

length-pex_bytes : (p : PexPeer) → length (pex_bytes p) ≡ 8
unfolding pex_bytes le_bytes
length-pex_bytes p = refl

length-pex_peers_bytes : (ps : List PexPeer) → length (pex_peers_bytes ps) ≡ length ps * 8
unfolding pex_peers_bytes
length-pex_peers_bytes [] = refl
length-pex_peers_bytes (p ∷ ps) = omega (
  arith,
  length-append (pex_bytes p) (pex_peers_bytes ps),
  length-pex_bytes p,
  length-pex_peers_bytes ps,
)

pex_calls-pex_peers_bytes :
    (has_remove has_peer : Bool) (op : ℕ) (ps : List PexPeer)
    → All IsPexPeer ps
    → pex_calls has_remove has_peer op (length ps) (pex_peers_bytes ps)
      ≡ calls_of has_remove has_peer op ps
unfolding pex_calls pex_peers_bytes calls_of
pex_calls-pex_peers_bytes has_remove has_peer op [] fits = refl
pex_calls-pex_peers_bytes has_remove has_peer op (p ∷ ps) fits =
    ap₂
      (λ q bytes.
        pex_call has_remove has_peer op q ++ pex_calls has_remove has_peer op (length ps) bytes)
      (load-pex_bytes p (pex_peers_bytes ps) fits.0) (drop-pex_bytes p (pex_peers_bytes ps))
    ∙ ap (λ calls. pex_call has_remove has_peer op p ++ calls)
        (pex_calls-pex_peers_bytes has_remove has_peer op ps fits.1)

-- The handler of a built exchange of at most 65535 entries, whose integers fit their fields, makes
-- the calls for the entries in order: a full exchange has the operation 0, a delta the operation 1.
pub handle_pex-pex_payload :
    (has_remove has_peer is_delta : Bool) (ps : List PexPeer)
    → length ps < 65536
    → All IsPexPeer ps
    → handle_pex_msg has_remove has_peer (pex_payload is_delta ps)
      ≡ calls_of has_remove has_peer (if is_delta then 1 else 0) ps
unfolding handle_pex_msg pex_payload
handle_pex-pex_payload has_remove has_peer is_delta ps few fits =
    let whole : length ps % u16_mod ≡ length ps = mod-eq_of_lt few in
    let bytes : List ℕ = put_be 2 (length ps) ++ pex_peers_bytes ps in
    let size : length bytes ≡ 2 + length ps * 8 = omega (
      arith,
      length-append (put_be 2 (length ps)) (pex_peers_bytes ps),
      length-put_be 2 (length ps),
      length-pex_peers_bytes ps,
    ) in
    let wide : ltb (suc (length bytes)) 3 ≡ false = ground (arith, size) in
    let all_there : ltb (suc (length bytes)) (3 + length ps * 8) ≡ false = ground (arith, size) in
    rw
      (
        whole,
        get_be-put_be 2 (length ps) (pex_peers_bytes ps) few,
        wide,
        all_there,
        drop-put_be 2 (length ps) (pex_peers_bytes ps),
      )
      (pex_calls-pex_peers_bytes has_remove has_peer (if is_delta then 1 else 0) ps fits)
