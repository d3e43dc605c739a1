-- ===== src/PeerManager/Choke.antt =====
-- src/daemon/peer_manager.cpp: `tick_choke`, with the rates of src/daemon/peer_session.cpp.
use new_thinbt.Common.{
  ℕ, suc, zero, ◌+◌, ◌-◌, ◌*◌, ◌/◌, ◌%◌, min, Bool, true, false, ◌&&◌, List, [], ◌∷◌, length, take,
  ltb, if◌then◌else◌, ◌==◌, u32_mod,
}
use new_thinbt.Protocol.{choke, unchoke, build_message}
use new_thinbt.PeerManager.Sessions.{ManagedSession, PeerManager}

-- What the code takes from the libraries: a rate in kilobits from bytes and a time in nanoseconds,
-- and std::sort by descending download rate and std::shuffle with a random generator.
pub record Lottery : Type 0 where
  pub kbps : ℕ → ℕ → ℕ
  pub sort : List ManagedSession → List ManagedSession
  pub shuffle : List ℕ → List ℕ

-- A time that did not pass leaves the rate.
unfoldable pub update_download_rate : Lottery → ℕ → ManagedSession → ManagedSession
update_download_rate lottery now s =
    let elapsed = now - s.last_download_eval_time in
    record s {
      download_rate_kbps =
          if elapsed == 0
          then s.download_rate_kbps
          else lottery.kbps s.recv_bytes elapsed % u32_mod;
      recv_bytes = 0;
      last_download_eval_time = now;
    }

unfoldable pub update_upload_rate : Lottery → ℕ → ManagedSession → ManagedSession
update_upload_rate lottery now s =
    let elapsed = now - s.last_upload_eval_time in
    record s {
      upload_rate_kbps =
          if elapsed == 0 then s.upload_rate_kbps else lottery.kbps s.sent_bytes elapsed % u32_mod;
      sent_bytes = 0;
      last_upload_eval_time = now;
    }

-- Every session is choked, and its rates are brought up to date.
unfoldable pub begin_round : Lottery → ℕ → List ManagedSession → List ManagedSession
unfolding update_download_rate update_upload_rate
begin_round lottery now [] = []
begin_round lottery now (s ∷ sessions) =
    update_upload_rate lottery now
      (update_download_rate lottery now (record s { is_choked = true }))
    ∷ begin_round lottery now sessions

-- The sum of the upload rates, in 32 bits.
unfoldable pub upload_kbps : ℕ → List ManagedSession → ℕ
upload_kbps sum [] = sum
upload_kbps sum (s ∷ sessions) = upload_kbps ((sum + s.upload_rate_kbps) % u32_mod) sessions

-- How many peers may be unchoked: 4, and 2 more for each 10 Mbit/s that are idle, at most 20.
unfoldable pub slot_count : ℕ → List ManagedSession → ℕ
unfolding upload_kbps
slot_count local_speed_mbps sessions =
    min (4 + (local_speed_mbps - upload_kbps 0 sessions / 1000) / 10 * 2) 20

-- set_choked(false) on the session of a slot. `sorted` shares its sessions with `sessions_`.
unfoldable pub unchoke_session : ℕ → List ManagedSession → List ManagedSession
unchoke_session id [] = []
unchoke_session id (s ∷ sessions) =
    if s.slot_id == id
    then record s { is_choked = false } ∷ sessions
    else s ∷ unchoke_session id sessions

unfoldable pub is_interested : ℕ → List ManagedSession → Bool
is_interested id [] = false
is_interested id (s ∷ sessions) =
    if s.slot_id == id then s.is_peer_interested else is_interested id sessions

-- A session with a slow link that is still choked.
unfoldable pub is_starving : ℕ → List ManagedSession → Bool
is_starving id [] = false
is_starving id (s ∷ sessions) =
    if s.slot_id == id
    then ltb s.link_speed_reported 1000 && s.is_choked
    else is_starving id sessions

-- The loops of the three shares, over the slots in their order.
unfoldable pub tit_for_tat : List ℕ → ℕ → List ManagedSession → List ManagedSession
unfolding is_interested unchoke_session
tit_for_tat [] n sessions = sessions
tit_for_tat (id ∷ ids) zero sessions = sessions
tit_for_tat (id ∷ ids) (suc n) sessions = elim (is_interested id sessions) [
  | true ↦ tit_for_tat ids n (unchoke_session id sessions)
  | false ↦ tit_for_tat ids (suc n) sessions
]

unfoldable pub optimistic : List ℕ → List ManagedSession → List ManagedSession
unfolding unchoke_session
optimistic [] sessions = sessions
optimistic (id ∷ ids) sessions = optimistic ids (unchoke_session id sessions)

unfoldable pub anti_starvation : List ℕ → ℕ → List ManagedSession → List ManagedSession
unfolding is_starving unchoke_session
anti_starvation [] n sessions = sessions
anti_starvation (id ∷ ids) zero sessions = sessions
anti_starvation (id ∷ ids) (suc n) sessions = elim (is_starving id sessions) [
  | true ↦ anti_starvation ids n (unchoke_session id sessions)
  | false ↦ anti_starvation ids (suc n) sessions
]

-- The shares of `slots` over the sessions in `order`, and in the order after it was shuffled.
unfoldable pub share_slots :
    (List ℕ → List ℕ) → ℕ → List ℕ → List ManagedSession → List ManagedSession
unfolding tit_for_tat optimistic anti_starvation
share_slots shuffle slots order sessions =
    let lucky = slots * 25 / 100 in
    let best = slots * 50 / 100 in
    let mixed = shuffle order in
    anti_starvation mixed (slots - best - lucky)
      (optimistic (take (min lucky (length mixed)) mixed) (tit_for_tat order best sessions))

-- The messages at the end of a round.
unfoldable pub tell_choked : List ManagedSession → List ManagedSession
tell_choked [] = []
tell_choked (s ∷ sessions) =
    record s { outgoing = build_message (if s.is_choked then choke else unchoke) [] ∷ s.outgoing }
    ∷ tell_choked sessions

unfoldable pub slot_ids : List ManagedSession → List ℕ
slot_ids [] = []
slot_ids (s ∷ sessions) = s.slot_id ∷ slot_ids sessions

unfoldable pub choke_round : Lottery → ℕ → ℕ → List ManagedSession → List ManagedSession
unfolding begin_round slot_count slot_ids share_slots tell_choked
choke_round lottery local_speed_mbps now sessions =
    let rated = begin_round lottery now sessions in
    tell_choked (
      share_slots lottery.shuffle (slot_count local_speed_mbps rated)
        (slot_ids (lottery.sort rated)) rated)

unfoldable pub tick_choke : Lottery → PeerManager → ℕ → PeerManager
unfolding choke_round
tick_choke lottery m now = record m {
  sessions = choke_round lottery m.local_speed_mbps now m.sessions;
}
