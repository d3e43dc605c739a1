-- ===== src/TrackerClient/Examples.antt =====
-- The retries of a new client.
use new_thinbt.Common.{◌≡◌, refl, true, false}
use new_thinbt.TrackerClient.{TrackerClient, announce, fail_attempts}
use new_thinbt.TrackerClient.Retries.{tried, fail_attempts-announce}

abbrev new_client : TrackerClient
new_client = record {
  retry_count = 0;
  retry_enabled = true;
  dead_signalled = false;
  has_on_dead = true;
  timers = 0;
  deaths = 0;
}

fail_attempts-announce_example : fail_attempts 300 (announce new_client) ≡ tried 0 0 300
fail_attempts-announce_example = fail_attempts-announce new_client 300 refl refl
