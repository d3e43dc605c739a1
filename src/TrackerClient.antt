-- ===== src/TrackerClient.antt =====
-- src/daemon/tracker_client.cpp: the line of an announcement and the retries.
pub mod Retries
mod Examples
use new_thinbt.Common.{
  ℕ, zero, suc, ◌+◌, ◌-◌, ◌≤◌, ◌<◌, ◌≡◌, refl, sym, ap, ◌∙◌, inl, inr, Bool, true, false, not, ◌&&◌,
  ◌||◌, List, [], ◌∷◌, ◌++◌, ltb, leb, if◌then◌else◌, Bool-cases, arith,
}
use new_thinbt.Common.Text.{codes, decimal}

-- MAX_RETRIES
abbrev pub max_retries : ℕ
max_retries = 240

-- `timers` counts the timers that were set, each of which runs `do_announce` again, `deaths` the
-- calls of on_dead_.
pub record TrackerClient : Type 0 where
  pub retry_count : ℕ
  pub retry_enabled : Bool
  pub dead_signalled : Bool
  pub has_on_dead : Bool
  pub timers : ℕ
  pub deaths : ℕ

-- The first two lines of `announce`.
unfoldable pub announce : TrackerClient → TrackerClient
announce client = record client { retry_count = 0; dead_signalled = false }

unfoldable pub schedule_retry : TrackerClient → TrackerClient
schedule_retry client =
    if not client.retry_enabled || leb max_retries client.retry_count
    then if not client.dead_signalled && client.has_on_dead
      then record client { dead_signalled = true; deaths = suc client.deaths }
      else client
    else record client { retry_count = suc client.retry_count; timers = suc client.timers }

-- A tracker that cannot be reached: each attempt that has been started fails, and a timer starts the
-- next. `n` attempts.
unfoldable pub fail_attempts : ℕ → TrackerClient → TrackerClient
unfolding schedule_retry
fail_attempts zero client = client
fail_attempts (suc n) client = fail_attempts n (schedule_retry client)

-- The line that `do_announce` writes.
unfoldable pub request_text : List ℕ → ℕ → ℕ → List ℕ
unfolding decimal
request_text info_hash_hex p2p_port speed_mbps =
    codes "{\"op\":\"announce\",\"info_hash\":\""
    ++ (info_hash_hex
        ++ (codes "\",\"port\":"
            ++ (decimal p2p_port
                ++ (codes ",\"speed_mbps\":" ++ (decimal speed_mbps ++ codes "}\n")))))
