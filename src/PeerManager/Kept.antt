-- ===== src/PeerManager/Kept.antt =====
-- A choke round leaves the sessions and their order as they are.
use new_thinbt.Common.{
  ℕ, suc, zero, ◌-◌, ◌*◌, ◌/◌, min, ◌≡◌, refl, ap, ◌∙◌, inl, inr, List, [], ◌∷◌, length, take, ◌==◌,
  Bool-cases,
}
use new_thinbt.PeerManager.Sessions.{ManagedSession}
use new_thinbt.PeerManager.Choke.{
  Lottery, update_download_rate, update_upload_rate, begin_round, slot_count, unchoke_session,
  is_interested, is_starving, tit_for_tat, optimistic, anti_starvation, share_slots, tell_choked,
  slot_ids, choke_round,
}

slot_ids-unchoke :
    (id : ℕ) (sessions : List ManagedSession)
    → slot_ids (unchoke_session id sessions) ≡ slot_ids sessions
unfolding slot_ids unchoke_session
slot_ids-unchoke id [] = refl
slot_ids-unchoke id (s ∷ sessions) = elim (Bool-cases (s.slot_id == id)) [
  | inl same ↦ rw (unchoke_session, same) refl
  | inr other ↦ rw (unchoke_session, other) (ap (λ t. s.slot_id ∷ t) (slot_ids-unchoke id sessions))
]

slot_ids-tit_for_tat :
    (ids : List ℕ) (n : ℕ) (sessions : List ManagedSession)
    → slot_ids (tit_for_tat ids n sessions) ≡ slot_ids sessions
unfolding tit_for_tat
slot_ids-tit_for_tat [] n sessions = refl
slot_ids-tit_for_tat (id ∷ ids) zero sessions = refl
slot_ids-tit_for_tat (id ∷ ids) (suc n) sessions = elim (Bool-cases (is_interested id sessions)) [
  | inl wants ↦
      rw (tit_for_tat, wants)
        (slot_ids-tit_for_tat ids n (unchoke_session id sessions) ∙ slot_ids-unchoke id sessions)
  | inr idle ↦ rw (tit_for_tat, idle) (slot_ids-tit_for_tat ids (suc n) sessions)
]

slot_ids-optimistic :
    (ids : List ℕ) (sessions : List ManagedSession)
    → slot_ids (optimistic ids sessions) ≡ slot_ids sessions
unfolding optimistic
slot_ids-optimistic [] sessions = refl
slot_ids-optimistic (id ∷ ids) sessions =
    slot_ids-optimistic ids (unchoke_session id sessions) ∙ slot_ids-unchoke id sessions

slot_ids-anti_starvation :
    (ids : List ℕ) (n : ℕ) (sessions : List ManagedSession)
    → slot_ids (anti_starvation ids n sessions) ≡ slot_ids sessions
unfolding anti_starvation
slot_ids-anti_starvation [] n sessions = refl
slot_ids-anti_starvation (id ∷ ids) zero sessions = refl
slot_ids-anti_starvation (id ∷ ids) (suc n) sessions = elim (Bool-cases (is_starving id sessions)) [
  | inl slow ↦
      rw (anti_starvation, slow)
        (slot_ids-anti_starvation ids n (unchoke_session id sessions)
          ∙ slot_ids-unchoke id sessions)
  | inr served ↦ rw (anti_starvation, served) (slot_ids-anti_starvation ids (suc n) sessions)
]

slot_ids-begin_round :
    (lottery : Lottery) (now : ℕ) (sessions : List ManagedSession)
    → slot_ids (begin_round lottery now sessions) ≡ slot_ids sessions
unfolding slot_ids begin_round update_download_rate update_upload_rate
slot_ids-begin_round lottery now [] = refl
slot_ids-begin_round lottery now (s ∷ sessions) =
    ap (λ t. s.slot_id ∷ t) (slot_ids-begin_round lottery now sessions)

slot_ids-tell_choked :
    (sessions : List ManagedSession) → slot_ids (tell_choked sessions) ≡ slot_ids sessions
unfolding slot_ids tell_choked
slot_ids-tell_choked [] = refl
slot_ids-tell_choked (s ∷ sessions) = ap (λ t. s.slot_id ∷ t) (slot_ids-tell_choked sessions)

slot_ids-share_slots :
    (shuffle : List ℕ → List ℕ) (slots : ℕ) (order : List ℕ) (sessions : List ManagedSession)
    → slot_ids (share_slots shuffle slots order sessions) ≡ slot_ids sessions
unfolding share_slots
slot_ids-share_slots shuffle slots order sessions =
    let mixed : List ℕ = shuffle order in
    let best : ℕ = slots * 50 / 100 in
    let lucky : ℕ = slots * 25 / 100 in
    let chosen : List ℕ = take (min lucky (length mixed)) mixed in
    let first : List ManagedSession = tit_for_tat order best sessions in
    slot_ids-anti_starvation mixed (slots - best - lucky) (optimistic chosen first)
    ∙ slot_ids-optimistic chosen first
    ∙ slot_ids-tit_for_tat order best sessions

-- A choke round keeps the sessions in their order.
pub slot_ids-choke_round :
    (lottery : Lottery) (local_speed_mbps now : ℕ) (sessions : List ManagedSession)
    → slot_ids (choke_round lottery local_speed_mbps now sessions) ≡ slot_ids sessions
unfolding choke_round
slot_ids-choke_round lottery local_speed_mbps now sessions =
    let rated : List ManagedSession = begin_round lottery now sessions in
    let order : List ℕ = slot_ids (lottery.sort rated) in
    let slots : ℕ = slot_count local_speed_mbps rated in
    slot_ids-tell_choked (share_slots lottery.shuffle slots order rated)
    ∙ slot_ids-share_slots lottery.shuffle slots order rated
    ∙ slot_ids-begin_round lottery now sessions
