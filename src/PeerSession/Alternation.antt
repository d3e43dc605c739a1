-- ===== src/PeerSession/Alternation.antt =====
-- The messages about interest that a session sends.
use new_thinbt.Common.{
  ℕ, suc, ◌≡◌, refl, inl, inr, Bool, true, false, Option, some, List, [], ◌∷◌, length, ltb,
  Bool-cases, Option-cases, arith, ◌≤◌, All,
}
use new_thinbt.Protocol.{build_interested, build_not_interested}
use new_thinbt.Common.Bytes.{get_be}
use new_thinbt.Protocol.Bitfield.{record_bitfield}
use new_thinbt.Scheduler.State.{Scheduler}
use new_thinbt.Scheduler.Choice.{wants_peer}
use new_thinbt.PeerSession.Interest.{
  Session, send_interested, send_not_interested, broadcast_done, show_interest, note_have_msg,
  note_bitfield_msg, record_have, handle_have_msg, handle_bitfield_msg, Call, got_have,
  got_bitfield, show_it, withdraw, download_done, run_calls,
}

-- The messages about interest that a session with the flag `am_interested` may have sent, the newest
-- first, among them `n` broadcasts. Those of the session itself alternate, beginning with INTERESTED,
-- and the flag tells the last of them; a broadcast is one more NOT_INTERESTED and leaves the flag.
pub data Alternates : Bool → ℕ → List (List ℕ) → Type 0 where
  silent : Alternates false 0 []
  interested :
      {n : ℕ} {out : List (List ℕ)}
      → Alternates false n out
      → Alternates true n (build_interested ∷ out)
  not_interested :
      {n : ℕ} {out : List (List ℕ)}
      → Alternates true n out
      → Alternates false n (build_not_interested ∷ out)
  broadcast :
      {am_interested : Bool} {n : ℕ} {out : List (List ℕ)}
      → Alternates am_interested n out
      → Alternates am_interested (suc n) (build_not_interested ∷ out)

-- The broadcasts that come after the first `n`.
unfoldable pub broadcasts : ℕ → List Call → ℕ
broadcasts n [] = n
broadcasts n (got_have body now ∷ calls) = broadcasts n calls
broadcasts n (got_bitfield body now ∷ calls) = broadcasts n calls
broadcasts n (show_it ∷ calls) = broadcasts n calls
broadcasts n (withdraw ∷ calls) = broadcasts n calls
broadcasts n (download_done ∷ calls) = broadcasts (suc n) calls

-- A session from its fields, for a split on them.
abbrev session : ℕ → List Bool → Bool → List (List ℕ) → Option Scheduler → Session
session slot bits am out sch = record {
  slot_id = slot;
  remote_bitfield = bits;
  am_interested = am;
  outgoing = out;
  scheduler = sch;
}

abbrev IsFair : ℕ → Session → Type 0
IsFair n s = Alternates s.am_interested n s.outgoing

interested-IsFair :
    (n slot : ℕ) (bits : List Bool) (am : Bool) (out : List (List ℕ)) (sch : Option Scheduler)
    → Alternates am n out
    → IsFair n (send_interested (session slot bits am out sch))
unfolding send_interested
interested-IsFair n slot bits true out sch is = is
interested-IsFair n slot bits false out sch is = interested is

not_interested-IsFair :
    (n slot : ℕ) (bits : List Bool) (am : Bool) (out : List (List ℕ)) (sch : Option Scheduler)
    → Alternates am n out
    → IsFair n (send_not_interested (session slot bits am out sch))
unfolding send_not_interested
not_interested-IsFair n slot bits false out sch is = is
not_interested-IsFair n slot bits true out sch is = not_interested is

show_it-IsFair : (n : ℕ) (s : Session) → IsFair n s → IsFair n (send_interested s)
show_it-IsFair n s is =
    interested-IsFair n s.slot_id s.remote_bitfield s.am_interested s.outgoing s.scheduler is

show_interest-IsFair : (n : ℕ) (s : Session) → IsFair n s → IsFair n (show_interest s)
unfolding show_interest
show_interest-IsFair n s is = elim (Option-cases s.scheduler) [
  | inl missing ↦ rw (show_interest, missing) is
  | inr (scheduler, there) ↦ elim (Bool-cases (wants_peer scheduler s.slot_id)) [
    | inl wants ↦ rw (show_interest, there, wants) (show_it-IsFair n s is)
    | inr wants_not ↦ rw (show_interest, there, wants_not) is
  ]
]

bitfield-IsFair :
    (n : ℕ) (s : Session) (body : List ℕ) (now : ℕ)
    → IsFair n s
    → IsFair n (handle_bitfield_msg s body now)
unfolding handle_bitfield_msg note_bitfield_msg
bitfield-IsFair n s body now is =
    show_interest-IsFair n (note_bitfield_msg s (record_bitfield body) now) is

-- A HAVE whose body has its four bytes is handled.
have-IsFair :
    (n : ℕ) (s : Session) (body : List ℕ) (now : ℕ)
    → IsFair n s
    → 4 ≤ length body
    → (s' : Session) × (handle_have_msg s body now ≡ some s') × IsFair n s'
unfolding handle_have_msg note_have_msg record_have
have-IsFair n s body now is long =
    let enough : ltb (length body) 4 ≡ false = ground arith in
    let noted = note_have_msg s (get_be 4 body) now in
    (show_interest noted, rw (handle_have_msg, enough) refl, show_interest-IsFair n noted is)

-- The HAVE messages among the calls have a body of four bytes at least.
abbrev pub IsLong : Call → Type 0
IsLong (got_have body now) = 4 ≤ length body
IsLong (got_bitfield body now) = Unit
IsLong show_it = Unit
IsLong withdraw = Unit
IsLong download_done = Unit

-- Whatever bitfields and haves arrive, however often interest is shown or withdrawn, and whenever the
-- end of the download is broadcast, all calls are handled if each HAVE has a body of four bytes at
-- least, and the messages about interest stay of this form: those of the session itself alternate,
-- beginning with INTERESTED, with the flag for the last of them, and between them there is one
-- NOT_INTERESTED for each broadcast, which leaves the flag.
pub run_calls-Alternates :
    (calls : List Call) (s : Session) (n : ℕ)
    → Alternates s.am_interested n s.outgoing
    → All IsLong calls
    → (s' : Session) × (run_calls s calls ≡ some s')
      × Alternates s'.am_interested (broadcasts n calls) s'.outgoing
unfolding run_calls broadcasts broadcast_done
run_calls-Alternates [] s n is long = (s, refl, is)
run_calls-Alternates (got_have body now ∷ calls) s n is long =
    let (s', handled, is') = have-IsFair n s body now is long.0 in
    rw (run_calls, handled) (run_calls-Alternates calls s' n is' long.1)
run_calls-Alternates (got_bitfield body now ∷ calls) s n is long =
    run_calls-Alternates calls (handle_bitfield_msg s body now) n (bitfield-IsFair n s body now is)
      long.1
run_calls-Alternates (show_it ∷ calls) s n is long =
    run_calls-Alternates calls (send_interested s) n (show_it-IsFair n s is) long.1
run_calls-Alternates (withdraw ∷ calls) s n is long =
    run_calls-Alternates calls (send_not_interested s) n
      (not_interested-IsFair n s.slot_id s.remote_bitfield s.am_interested s.outgoing s.scheduler
        is)
      long.1
run_calls-Alternates (download_done ∷ calls) s n is long =
    run_calls-Alternates calls (broadcast_done s) (suc n) (broadcast is) long.1
