-- ===== src/TaskManager/Waiting.antt =====
-- The states of a task over its rounds.
use new_thinbt.Common.{
  ℕ, ◌≡◌, refl, ap, ap₂, ◌∙◌, inl, inr, Bool, true, false, not, ◌&&◌, List, [], ◌∷◌, ltb, leb,
  if◌then◌else◌, Bool-cases,
}
use new_thinbt.ChunkAssembler.{ChunkCompleteMsg}
use new_thinbt.PeerManager.Choke.{Lottery}
use new_thinbt.Scheduler.Endgame.{tick}
use new_thinbt.TaskManager.Tick.{
  TaskState, seeding, downloading, waiting, complete, failed, is_downloading, VerifyResult,
  ActiveTask, feed_result, feed_results, passed_of, complete_passed, complete_if_done, wait_if_dead,
  announce_task_now, startup_announce, TaskEvent, ticked, tracker_given_up, heartbeat,
  tracker_answered, managed, on_scheduler, tick_task, on_task_event, run_task,
}

-- The state after a round, from the state before, whether all bytes are done, and whether the tracker
-- was given up.
unfoldable pub next_state : TaskState → Bool → Bool → TaskState
next_state downloading true dead = complete
next_state downloading false true = waiting
next_state downloading false false = downloading
next_state seeding done dead = seeding
next_state waiting done dead = waiting
next_state complete done dead = complete
next_state failed done dead = failed

feed_result-state : (r : VerifyResult) (t : ActiveTask) → (feed_result r t).state ≡ t.state
unfolding feed_result on_scheduler
feed_result-state r t = elim (Bool-cases r.passed) [
  | inl good ↦ rw (feed_result, good) refl
  | inr bad ↦ rw (feed_result, bad) refl
]

feed_result-dead :
    (r : VerifyResult) (t : ActiveTask) → (feed_result r t).tracker_dead ≡ t.tracker_dead
unfolding feed_result on_scheduler
feed_result-dead r t = elim (Bool-cases r.passed) [
  | inl good ↦ rw (feed_result, good) refl
  | inr bad ↦ rw (feed_result, bad) refl
]

feed_results-state :
    (results : List VerifyResult) (t : ActiveTask)
    → ((feed_results results t).state ≡ t.state)
      × ((feed_results results t).tracker_dead ≡ t.tracker_dead)
unfolding feed_results
feed_results-state [] t = (refl, refl)
feed_results-state (r ∷ results) t =
    let rest = feed_results-state results (feed_result r t) in
    (rest.0 ∙ feed_result-state r t, rest.1 ∙ feed_result-dead r t)

-- The fields that the states depend on.
abbrev view : ActiveTask → TaskState × Bool × Bool
view t = (t.state, leb t.file_size t.bytes_done, t.tracker_dead)

complete_passed-view :
    (msgs : List ChunkCompleteMsg) (t : ActiveTask) → view (complete_passed msgs t) ≡ view t
unfolding complete_passed on_scheduler
complete_passed-view [] t = refl
complete_passed-view (msg ∷ msgs) t = refl

startup_announce-state :
    (host : List ℕ) (port now : ℕ) (t : ActiveTask)
    → (startup_announce host port now t).state ≡ t.state
unfolding startup_announce announce_task_now
startup_announce-state host port now t =
    elim (Bool-cases (
      not t.is_seed
      && (is_downloading t.state
          && (ltb now t.startup_announce_deadline && leb t.next_startup_announce now)))) [
            | inl due ↦ rw (startup_announce, due) refl
            | inr later ↦ rw (startup_announce, later) refl
          ]

settled : TaskState × Bool × Bool → TaskState
settled (state, done, dead) =
    let after = if done && is_downloading state then complete else state in
    if dead && is_downloading after then waiting else after

settled-next :
    (state : TaskState) (done dead : Bool)
    → settled (state, done, dead) ≡ next_state state done dead
unfolding settled next_state is_downloading
settled-next downloading true true = refl
settled-next downloading true false = refl
settled-next downloading false true = refl
settled-next downloading false false = refl
settled-next seeding true true = refl
settled-next seeding true false = refl
settled-next seeding false true = refl
settled-next seeding false false = refl
settled-next waiting true true = refl
settled-next waiting true false = refl
settled-next waiting false true = refl
settled-next waiting false false = refl
settled-next complete true true = refl
settled-next complete true false = refl
settled-next complete false true = refl
settled-next complete false false = refl
settled-next failed true true = refl
settled-next failed true false = refl
settled-next failed false true = refl
settled-next failed false false = refl

module _ (sort : (ℕ → ℕ) → List ℕ → List ℕ) (inet_ntoa : ℕ → List ℕ) (inet_addr : List ℕ → ℕ)
    (lottery : Lottery) (host : List ℕ) (port : ℕ) where
  -- What a round has after its results were fed.
  abbrev fed : ℕ → List VerifyResult → ActiveTask → ActiveTask
  fed now_ms results t =
      feed_results results (on_scheduler (λ scheduler. tick sort scheduler now_ms) t)

  -- The state after a round follows the table: a download is complete when the bytes that were fed
  -- reach the size of the file, else it waits when its tracker was given up, and no other state
  -- changes.
  pub tick_task-next_state :
      (now_ms : ℕ) (results : List VerifyResult) (now : ℕ) (t : ActiveTask)
      → (tick_task sort inet_ntoa inet_addr lottery host port now_ms results now t).state
        ≡ next_state t.state
            (leb (fed now_ms results t).file_size (fed now_ms results t).bytes_done)
            t.tracker_dead
  unfolding tick_task complete_if_done wait_if_dead settled on_scheduler
  tick_task-next_state now_ms results now t =
      let begun : ActiveTask = on_scheduler (λ scheduler. tick sort scheduler now_ms) t in
      let now_fed : ActiveTask = feed_results results begun in
      let passed : ActiveTask = complete_passed (passed_of results) now_fed in
      let same = feed_results-state results begun in
      startup_announce-state host port now (wait_if_dead (complete_if_done passed))
      ∙ ap settled (complete_passed-view (passed_of results) now_fed)
      ∙ settled-next now_fed.state (leb now_fed.file_size now_fed.bytes_done) now_fed.tracker_dead
      ∙ ap₂ (λ state dead. next_state state (leb now_fed.file_size now_fed.bytes_done) dead) same.0
          same.1

  on_task_event-waiting :
      (t : ActiveTask) (e : TaskEvent)
      → t.state ≡ waiting
      → (on_task_event sort inet_ntoa inet_addr lottery host port t e).state ≡ waiting
  unfolding on_task_event announce_task_now next_state
  on_task_event-waiting t (ticked now_ms results now) h =
      tick_task-next_state now_ms results now t
      ∙ ap
          (λ state.
            next_state state
              (leb (fed now_ms results t).file_size (fed now_ms results t).bytes_done)
              t.tracker_dead)
          h
  on_task_event-waiting t tracker_given_up h = h
  on_task_event-waiting t heartbeat h = h
  on_task_event-waiting t (tracker_answered peers at) h = h
  on_task_event-waiting t (managed e) h = h

  -- A task that waits stays so over every sequence of rounds with verified chunks, trackers given up,
  -- heartbeats, answers of the tracker with peers, and events of the peer manager: it is never
  -- complete, also when all its bytes have arrived, and never downloads again.
  pub run_task-waiting :
      (t : ActiveTask) (events : List TaskEvent)
      → t.state ≡ waiting
      → (run_task sort inet_ntoa inet_addr lottery host port t events).state ≡ waiting
  unfolding run_task
  run_task-waiting t [] h = h
  run_task-waiting t (e ∷ events) h =
      run_task-waiting (on_task_event sort inet_ntoa inet_addr lottery host port t e) events
        (on_task_event-waiting t e h)
