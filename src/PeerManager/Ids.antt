-- ===== src/PeerManager/Ids.antt =====
-- The slots of sessions and of the scheduler's peers as lists of numbers.
use new_thinbt.Common.{
  ℕ, suc, zero, ◌≤◌, ◌≡◌, refl, ap, ap₂, ◌∙◌, inl, inr, List, [], ◌∷◌, ◌++◌, length, get_or, set,
  if◌then◌else◌, ◌==◌, Bool-cases, Option-cases, arith,
}
use new_thinbt.Scheduler.State.{Scheduler, PeerSlot, default_peer, find_peer, peer_at}
use new_thinbt.Scheduler.Peers.{
  on_peer_removed, on_peer_speed, without_slot, release_begin, release_begins, settle_released,
  release_chunks, count_out,
}
use new_thinbt.PeerManager.Sessions.{ManagedSession, without_session, update_session}
use new_thinbt.PeerManager.Choke.{slot_ids}

unfoldable pub peer_ids : List PeerSlot → List ℕ
peer_ids [] = []
peer_ids (p ∷ peers) = p.slot_id ∷ peer_ids peers

-- Numbers from `low` on, each greater than the one before, and all below `high`.
unfoldable pub Rising : ℕ → List ℕ → ℕ → Type 0
Rising low [] high = low ≤ high
Rising low (x ∷ xs) high = (low ≤ x) × Rising (suc x) xs high

unfoldable pub without : ℕ → List ℕ → List ℕ
without id [] = []
without id (x ∷ xs) = if x == id then without id xs else x ∷ without id xs

pub slot_ids-without_session :
    (id : ℕ) (sessions : List ManagedSession)
    → slot_ids (without_session id sessions) ≡ without id (slot_ids sessions)
unfolding slot_ids without_session without
slot_ids-without_session id [] = refl
slot_ids-without_session id (s ∷ sessions) = elim (Bool-cases (s.slot_id == id)) [
  | inl same ↦ rw (without_session, without, same) (slot_ids-without_session id sessions)
  | inr other ↦
      rw (without_session, without, other)
        (ap (λ t. s.slot_id ∷ t) (slot_ids-without_session id sessions))
]

pub length-slot_ids :
    (sessions : List ManagedSession) → length (slot_ids sessions) ≡ length sessions
unfolding slot_ids
length-slot_ids [] = refl
length-slot_ids (s ∷ sessions) = ap suc (length-slot_ids sessions)

pub slot_ids-append :
    (sessions : List ManagedSession) (s : ManagedSession)
    → slot_ids (sessions ++ (s ∷ [])) ≡ slot_ids sessions ++ (s.slot_id ∷ [])
unfolding slot_ids
slot_ids-append [] s = refl
slot_ids-append (t ∷ sessions) s = ap (λ ids. t.slot_id ∷ ids) (slot_ids-append sessions s)

pub slot_ids-update :
    (id : ℕ) (f : ManagedSession → ManagedSession)
    → ((s : ManagedSession) → (f s).slot_id ≡ s.slot_id)
    → (sessions : List ManagedSession) → slot_ids (update_session id f sessions) ≡ slot_ids sessions
unfolding slot_ids update_session
slot_ids-update id f keeps [] = refl
slot_ids-update id f keeps (s ∷ sessions) = elim (Bool-cases (s.slot_id == id)) [
  | inl same ↦
      rw (update_session, same)
        (ap₂ (λ (k : ℕ) ids. k ∷ ids) (keeps s) (slot_ids-update id f keeps sessions))
  | inr other ↦
      rw (update_session, other) (ap (λ ids. s.slot_id ∷ ids) (slot_ids-update id f keeps sessions))
]

pub peer_ids-append :
    (peers : List PeerSlot) (p : PeerSlot)
    → peer_ids (peers ++ (p ∷ [])) ≡ peer_ids peers ++ (p.slot_id ∷ [])
unfolding peer_ids
peer_ids-append [] p = refl
peer_ids-append (q ∷ peers) p = ap (λ ids. q.slot_id ∷ ids) (peer_ids-append peers p)

peer_ids-without_slot :
    (id : ℕ) (peers : List PeerSlot)
    → peer_ids (without_slot id peers) ≡ without id (peer_ids peers)
unfolding peer_ids without_slot without
peer_ids-without_slot id [] = refl
peer_ids-without_slot id (p ∷ peers) = elim (Bool-cases (p.slot_id == id)) [
  | inl same ↦ rw (without_slot, without, same) (peer_ids-without_slot id peers)
  | inr other ↦
      rw (without_slot, without, other) (ap (λ t. p.slot_id ∷ t) (peer_ids-without_slot id peers))
]

peer_ids-set :
    (peers : List PeerSlot) (i : ℕ) (p : PeerSlot)
    → p.slot_id ≡ (get_or peers i default_peer).slot_id
    → peer_ids (set peers i p) ≡ peer_ids peers
unfolding peer_ids
peer_ids-set [] i p same = refl
peer_ids-set (q ∷ peers) zero p same = ap (λ (k : ℕ). k ∷ peer_ids peers) same
peer_ids-set (q ∷ peers) (suc i) p same = ap (λ t. q.slot_id ∷ t) (peer_ids-set peers i p same)

release_begins-peers :
    (c : ℕ) (begins : List ℕ) (s : Scheduler)
    → (release_begins c begins s).peer_slots ≡ s.peer_slots
unfolding release_begins release_begin
release_begins-peers c [] s = refl
release_begins-peers c (b ∷ begins) s =
    release_begins-peers c begins (release_begin c b s) ∙ ground arith

settle_released-peers : (c : ℕ) (s : Scheduler) → (settle_released c s).peer_slots ≡ s.peer_slots
unfolding settle_released
settle_released-peers c s = ground arith

release_chunks-peers :
    (chunks : List (ℕ × List ℕ)) (s : Scheduler)
    → (release_chunks chunks s).peer_slots ≡ s.peer_slots
unfolding release_chunks
release_chunks-peers [] s = refl
release_chunks-peers ((c, begins) ∷ chunks) s =
    release_chunks-peers chunks (settle_released c (release_begins c begins s))
    ∙ settle_released-peers c (release_begins c begins s)
    ∙ release_begins-peers c begins s

pub peer_ids-removed :
    (s : Scheduler) (id : ℕ)
    → peer_ids (on_peer_removed s id).peer_slots ≡ without id (peer_ids s.peer_slots)
unfolding on_peer_removed
peer_ids-removed s id = elim (Option-cases (find_peer id s.peer_slots)) [
  | inl absent ↦ rw (on_peer_removed, absent) (peer_ids-without_slot id s.peer_slots)
  | inr (p, found) ↦
      let counted : Scheduler = record s {
        availability = count_out (peer_at s p).remote_bitfield s.availability;
      } in
      rw (on_peer_removed, found)
        (ap (λ peers. peer_ids (without_slot id peers))
            (release_chunks-peers (peer_at s p).active_sub_blocks counted)
          ∙ peer_ids-without_slot id s.peer_slots)
]

pub peer_ids-speed :
    (s : Scheduler) (id speed : ℕ)
    → peer_ids (on_peer_speed s id speed).peer_slots ≡ peer_ids s.peer_slots
unfolding on_peer_speed
peer_ids-speed s id speed = elim (Option-cases (find_peer id s.peer_slots)) [
  | inl absent ↦ rw (on_peer_speed, absent) refl
  | inr (p, found) ↦
      rw (on_peer_speed, found)
        (peer_ids-set s.peer_slots p
          (record (peer_at s p) { link_speed_reported = speed; link_speed_mbps = speed }) refl)
]

pub Rising-push :
    (low : ℕ) (ids : List ℕ) (high : ℕ)
    → Rising low ids high
    → Rising low (ids ++ (high ∷ [])) (suc high)
unfolding Rising
Rising-push low [] high h = (h, omega arith)
Rising-push low (x ∷ xs) high h = (h.0, Rising-push (suc x) xs high h.1)

Rising-lower :
    (low low' : ℕ) (ids : List ℕ) (high : ℕ)
    → low ≤ low'
    → Rising low' ids high
    → Rising low ids high
unfolding Rising
Rising-lower low low' [] high le h = omega (arith, h)
Rising-lower low low' (x ∷ xs) high le h = (omega (arith, h.0), h.1)

pub Rising-without :
    (low id : ℕ) (ids : List ℕ) (high : ℕ) → Rising low ids high → Rising low (without id ids) high
unfolding Rising without
Rising-without low id [] high h = h
Rising-without low id (x ∷ xs) high h = elim (Bool-cases (x == id)) [
  | inl same ↦
      rw (without, same)
        (Rising-lower low (suc x) (without id xs) high (omega (arith, h.0))
          (Rising-without (suc x) id xs high h.1))
  | inr other ↦ rw (without, other) (h.0, Rising-without (suc x) id xs high h.1)
]

pub length-without : (id : ℕ) (ids : List ℕ) → length (without id ids) ≤ length ids
unfolding without
length-without id [] = omega arith
length-without id (x ∷ xs) = ground (arith, length-without id xs)
