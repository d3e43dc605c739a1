-- ===== src/Scheduler/Wants.antt =====
-- The choices of peers: what `wants_peer` and `select_best_peer` answer.
use new_thinbt.Common.{
  ℕ, zero, suc, ◌<◌, ◌≡◌, ◌↔◌, refl, sym, ap, subst, ◌⊎◌, inl, inr, Bool, true, false, not, ◌&&◌,
  some, List, [], ◌∷◌, length, get_or, Bool-cases, arith,
}
use new_thinbt.Scheduler.State.{ChunkState, missing, is_complete, Scheduler, PeerSlot, default_peer}
use new_thinbt.Scheduler.Choice.{
  any_wanted, can_serve, peer_score, peer_have_count, is_better, Best, best_peer, no_best,
  select_best_peer,
}

-- A chunk that the bits have and that is not complete.
abbrev pub Wanted : List Bool → List ChunkState → Type 0
Wanted bits states =
    (i : ℕ) × (i < length states)
    × (get_or bits i false ≡ true)
    × (is_complete (get_or states i missing) ≡ false)

any_wanted_sound :
    (bits : List Bool) (states : List ChunkState)
    → any_wanted bits states ≡ true
    → Wanted bits states
unfolding any_wanted
any_wanted_sound [] states h = absurd (ground (arith, h))
any_wanted_sound (b ∷ bits) [] h = absurd (ground (arith, h))
any_wanted_sound (b ∷ bits) (state ∷ states) h = elim (Bool-cases (b && not (is_complete state))) [
  | inl here ↦ (0, omega arith, ground arith, ground arith)
  | inr later ↦
      let (i, inside, bit, opened) = any_wanted_sound bits states (ground arith) in
      (suc i, omega arith, bit, opened)
]

any_wanted_complete :
    (bits : List Bool) (states : List ChunkState) (i : ℕ)
    → i < length states
    → get_or bits i false ≡ true
    → is_complete (get_or states i missing) ≡ false
    → any_wanted bits states ≡ true
unfolding any_wanted
any_wanted_complete [] states i inside bit opened = absurd (ground (arith, bit))
any_wanted_complete (b ∷ bits) [] i inside bit opened = absurd (omega arith)
any_wanted_complete (b ∷ bits) (state ∷ states) zero inside bit opened = ground (arith, bit, opened)
any_wanted_complete (b ∷ bits) (state ∷ states) (suc i) inside bit opened =
    let ih = any_wanted_complete bits states i (omega arith) bit opened in ground (arith, ih)

-- The loop of `wants_peer` answers `true` if and only if there is a chunk that the peer has and that
-- is not complete.
pub any_wanted_iff :
    (bits : List Bool) (states : List ChunkState)
    → (any_wanted bits states ≡ true) ↔ Wanted bits states
any_wanted_iff bits states = (
  any_wanted_sound bits states,
  λ w. let (i, inside, bit, opened) = w in any_wanted_complete bits states i inside bit opened,
)

-- A peer of the list that serves the chunk and has the slot.
abbrev pub Serves : ℕ → ℕ → List PeerSlot → Type 0
Serves c slot peers =
    (i : ℕ) × (i < length peers)
    × (can_serve (get_or peers i default_peer) c ≡ true)
    × ((get_or peers i default_peer).slot_id ≡ slot)

Serves-later :
    (c slot : ℕ) (peer : PeerSlot) (peers : List PeerSlot)
    → Serves c slot peers
    → Serves c slot (peer ∷ peers)
Serves-later c slot peer peers (i, inside, serves, slot_is) = (suc i, omega arith, serves, slot_is)

serves-left : (a b : Bool) → (a && b) ≡ true → a ≡ true
serves-left a b h = ground arith

best_peer-Serves :
    (local_speed c : ℕ) (peers : List PeerSlot) (best : Best)
    → (best_peer local_speed c peers best ≡ best)
      ⊎ Serves c (best_peer local_speed c peers best).slot peers
unfolding best_peer
best_peer-Serves local_speed c [] best = inl refl
best_peer-Serves local_speed c (peer ∷ peers) best =
    let score = peer_score local_speed peer in
    let have_count = peer_have_count peer in
    elim (Bool-cases (can_serve peer c && is_better score have_count best)) [
      | inl taken ↦
          let next : Best = record {
            slot = peer.slot_id;
            score = score;
            have_count = have_count;
          } in
          rw (best_peer, taken)
            (elim (best_peer-Serves local_speed c peers next) [
              | inl same ↦
                  inr (0, omega arith, serves-left _ _ taken, sym (ap (λ (b : Best). b.slot) same))
              | inr found ↦ inr (Serves-later c _ peer peers found)
            ])
      | inr kept ↦
          rw (best_peer, kept)
            (elim (best_peer-Serves local_speed c peers best) [
              | inl same ↦ inl same
              | inr found ↦ inr (Serves-later c _ peer peers found)
            ])
    ]

-- The peer that `select_best_peer` chooses is one of the peers, has the chunk, does not choke and has
-- fewer than three timeouts in a row.
pub select_best_peer-Serves :
    (s : Scheduler) (c slot : ℕ) → select_best_peer s c ≡ some slot → Serves c slot s.peer_slots
unfolding select_best_peer
select_best_peer-Serves s c slot h =
    let best = best_peer s.local_speed_mbps c s.peer_slots no_best in
    elim (best_peer-Serves s.local_speed_mbps c s.peer_slots no_best) [
      | inl same ↦ absurd (ground (arith, h, ap (λ (b : Best). b.score) same))
      | inr found ↦
          let e : best.slot ≡ slot = ground (arith, h) in
          subst (λ n. Serves c n s.peer_slots) e found
    ]
