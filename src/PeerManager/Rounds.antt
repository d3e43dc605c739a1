-- ===== src/PeerManager/Rounds.antt =====
-- How many peers a choke round unchokes, and what it tells them.
use new_thinbt.Common.{
  ℕ, suc, zero, ◌+◌, ◌-◌, ◌*◌, ◌/◌, ◌≤◌, min, ◌≡◌, refl, ap, inl, inr, List, [], ◌∷◌, length,
  length-take, take, All, if◌then◌else◌, ◌==◌, Bool-cases, arith,
}
use new_thinbt.Protocol.{choke, unchoke, build_message}
use new_thinbt.PeerManager.Sessions.{ManagedSession}
use new_thinbt.PeerManager.Choke.{
  Lottery, update_download_rate, update_upload_rate, begin_round, slot_count, unchoke_session,
  is_interested, is_starving, tit_for_tat, optimistic, anti_starvation, share_slots, tell_choked,
  slot_ids, choke_round,
}

unfoldable pub unchoked : List ManagedSession → ℕ
unchoked [] = 0
unchoked (s ∷ sessions) = if s.is_choked then unchoked sessions else suc (unchoked sessions)

unchoked-unchoke :
    (id : ℕ) (sessions : List ManagedSession)
    → unchoked (unchoke_session id sessions) ≤ suc (unchoked sessions)
unfolding unchoked unchoke_session
unchoked-unchoke id [] = omega arith
unchoked-unchoke id (s ∷ sessions) = elim (Bool-cases (s.slot_id == id)) [
  | inl same ↦ rw (unchoke_session, same) (ground arith)
  | inr other ↦ rw (unchoke_session, other) (ground (arith, unchoked-unchoke id sessions))
]

unchoked-tit_for_tat :
    (ids : List ℕ) (n : ℕ) (sessions : List ManagedSession)
    → unchoked (tit_for_tat ids n sessions) ≤ n + unchoked sessions
unfolding tit_for_tat
unchoked-tit_for_tat [] n sessions = omega arith
unchoked-tit_for_tat (id ∷ ids) zero sessions = omega arith
unchoked-tit_for_tat (id ∷ ids) (suc n) sessions = elim (Bool-cases (is_interested id sessions)) [
  | inl wants ↦
      let ih = unchoked-tit_for_tat ids n (unchoke_session id sessions) in
      rw (tit_for_tat, wants) (omega (arith, ih, unchoked-unchoke id sessions))
  | inr idle ↦ rw (tit_for_tat, idle) (unchoked-tit_for_tat ids (suc n) sessions)
]

unchoked-optimistic :
    (ids : List ℕ) (sessions : List ManagedSession)
    → unchoked (optimistic ids sessions) ≤ length ids + unchoked sessions
unfolding optimistic
unchoked-optimistic [] sessions = omega arith
unchoked-optimistic (id ∷ ids) sessions =
    omega
      (arith, unchoked-optimistic ids (unchoke_session id sessions), unchoked-unchoke id sessions)

unchoked-anti_starvation :
    (ids : List ℕ) (n : ℕ) (sessions : List ManagedSession)
    → unchoked (anti_starvation ids n sessions) ≤ n + unchoked sessions
unfolding anti_starvation
unchoked-anti_starvation [] n sessions = omega arith
unchoked-anti_starvation (id ∷ ids) zero sessions = omega arith
unchoked-anti_starvation (id ∷ ids) (suc n) sessions = elim (Bool-cases (is_starving id sessions)) [
  | inl slow ↦
      let ih = unchoked-anti_starvation ids n (unchoke_session id sessions) in
      rw (anti_starvation, slow) (omega (arith, ih, unchoked-unchoke id sessions))
  | inr served ↦ rw (anti_starvation, served) (unchoked-anti_starvation ids (suc n) sessions)
]

unchoked-begin_round :
    (lottery : Lottery) (now : ℕ) (sessions : List ManagedSession)
    → unchoked (begin_round lottery now sessions) ≡ 0
unfolding unchoked begin_round update_download_rate update_upload_rate
unchoked-begin_round lottery now [] = refl
unchoked-begin_round lottery now (s ∷ sessions) = unchoked-begin_round lottery now sessions

unchoked-tell_choked :
    (sessions : List ManagedSession) → unchoked (tell_choked sessions) ≡ unchoked sessions
unfolding unchoked tell_choked
unchoked-tell_choked [] = refl
unchoked-tell_choked (s ∷ sessions) =
    ap (λ (n : ℕ). if s.is_choked then n else suc n) (unchoked-tell_choked sessions)

unchoked-share_slots :
    (shuffle : List ℕ → List ℕ) (slots : ℕ) (order : List ℕ) (sessions : List ManagedSession)
    → unchoked sessions ≡ 0
    → unchoked (share_slots shuffle slots order sessions) ≤ slots
unfolding share_slots
unchoked-share_slots shuffle slots order sessions none_yet =
    let mixed : List ℕ = shuffle order in
    let best : ℕ = slots * 50 / 100 in
    let lucky : ℕ = slots * 25 / 100 in
    let chosen : List ℕ = take (min lucky (length mixed)) mixed in
    let first : List ManagedSession = tit_for_tat order best sessions in
    omega (
      arith,
      none_yet,
      unchoked-tit_for_tat order best sessions,
      unchoked-optimistic chosen first,
      length-take (min lucky (length mixed)) mixed,
      unchoked-anti_starvation mixed (slots - best - lucky) (optimistic chosen first),
    )

-- The newest message to a session tells its state.
unfoldable pub IsTold : ManagedSession → Type 0
IsTold s =
    (rest : List (List ℕ)) × (s.outgoing
      ≡ build_message (if s.is_choked then choke else unchoke) [] ∷ rest)

tell_choked-IsTold : (sessions : List ManagedSession) → All IsTold (tell_choked sessions)
unfolding tell_choked IsTold
tell_choked-IsTold [] = tt
tell_choked-IsTold (s ∷ sessions) = ((s.outgoing, refl), tell_choked-IsTold sessions)

-- A choke round unchokes at most as many peers as it has slots, which are never more than 20, in
-- whatever order the sessions are sorted and shuffled, and it tells every peer its state.
pub choke_round-unchoked :
    (lottery : Lottery) (local_speed_mbps now : ℕ) (sessions : List ManagedSession)
    → (unchoked (choke_round lottery local_speed_mbps now sessions)
        ≤ slot_count local_speed_mbps (begin_round lottery now sessions))
      × (slot_count local_speed_mbps (begin_round lottery now sessions) ≤ 20)
      × All IsTold (choke_round lottery local_speed_mbps now sessions)
unfolding choke_round slot_count
choke_round-unchoked lottery local_speed_mbps now sessions =
    let rated : List ManagedSession = begin_round lottery now sessions in
    let order : List ℕ = slot_ids (lottery.sort rated) in
    let slots : ℕ = slot_count local_speed_mbps rated in
    let shared : List ManagedSession = share_slots lottery.shuffle slots order rated in
    (
      omega (
        arith,
        unchoked-tell_choked shared,
        unchoked-share_slots lottery.shuffle slots order rated
            (unchoked-begin_round lottery now sessions),
      ),
      omega arith,
      tell_choked-IsTold shared,
    )
