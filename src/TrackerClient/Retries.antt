-- ===== src/TrackerClient/Retries.antt =====
-- How often an unreachable tracker is tried.
use new_thinbt.Common.{
  ℕ, zero, suc, ◌+◌, ◌<◌, ◌≡◌, ap, ◌∙◌, inl, inr, Bool, true, false, ltb, leb, if◌then◌else◌,
  Bool-cases, arith, min,
}
use new_thinbt.TrackerClient.{TrackerClient, announce, schedule_retry, fail_attempts}

-- The client after `n` failed attempts: 240 retries at most, and the death signalled once, by the
-- attempt after them. `timers` and `deaths` are what they were before.
abbrev pub tried : ℕ → ℕ → ℕ → TrackerClient
tried timers deaths n = record {
  retry_count = min n 240;
  retry_enabled = true;
  dead_signalled = ltb 240 n;
  has_on_dead = true;
  timers = timers + min n 240;
  deaths = deaths + (if ltb 240 n then 1 else 0);
}

abbrev fields : ℕ → Bool → ℕ → ℕ → TrackerClient
fields retry_count dead timers deaths = record {
  retry_count = retry_count;
  retry_enabled = true;
  dead_signalled = dead;
  has_on_dead = true;
  timers = timers;
  deaths = deaths;
}

fields_ext :
    {r r' : ℕ} {b b' : Bool} {t t' : ℕ} {d d' : ℕ}
    → r ≡ r'
    → b ≡ b'
    → t ≡ t'
    → d ≡ d'
    → fields r b t d ≡ fields r' b' t' d'
fields_ext er eb et ed = λ i. fields (er i) (eb i) (et i) (ed i)

schedule_retry-tried :
    (timers deaths n : ℕ) → schedule_retry (tried timers deaths n) ≡ tried timers deaths (suc n)
unfolding schedule_retry
schedule_retry-tried timers deaths n = elim (Bool-cases (leb 240 (min n 240))) [
  | inr room ↦
      let below : n < 240 = ground arith in
      rw (schedule_retry, room)
        (fields_ext (omega arith) (ground arith) (omega arith) (ground arith))
  | inl spent ↦ elim (Bool-cases (ltb 240 n)) [
    | inl dead ↦
        rw (schedule_retry, spent, dead)
          (fields_ext (ground arith) (ground arith) (ground arith) (ground arith))
    | inr alive ↦
        rw (schedule_retry, spent, alive)
          (fields_ext (ground arith) (ground arith) (ground arith) (ground arith))
  ]
]

fail_attempts-tried :
    (m timers deaths n : ℕ) → fail_attempts m (tried timers deaths n) ≡ tried timers deaths (n + m)
unfolding fail_attempts
fail_attempts-tried zero timers deaths n = ap (tried timers deaths) (omega arith)
fail_attempts-tried (suc m) timers deaths n =
    ap (fail_attempts m) (schedule_retry-tried timers deaths n)
    ∙ fail_attempts-tried m timers deaths (suc n)
    ∙ ap (tried timers deaths) (omega arith)

-- A client with retries enabled and a callback announces to a tracker that no attempt reaches: after
-- `n` failed attempts it has set a timer for the first 240 of them and has signalled the death once
-- if there were more than 240 and not at all otherwise.
pub fail_attempts-announce :
    (client : TrackerClient) (n : ℕ)
    → client.retry_enabled ≡ true
    → client.has_on_dead ≡ true
    → fail_attempts n (announce client) ≡ tried client.timers client.deaths n
unfolding announce
fail_attempts-announce client n enabled has =
    let timers_zero : client.timers ≡ client.timers + min 0 240 = omega arith in
    let deaths_zero : client.deaths ≡ client.deaths + 0 = omega arith in
    ap (fail_attempts n) (λ i. record {
      retry_count = 0;
      retry_enabled = enabled i;
      dead_signalled = false;
      has_on_dead = has i;
      timers = timers_zero i;
      deaths = deaths_zero i;
    })
    ∙ fail_attempts-tried n client.timers client.deaths 0
    ∙ ap (tried client.timers client.deaths) (omega arith)
