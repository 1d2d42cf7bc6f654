-- ===== src/Worker/Episodes.antt =====
-- Failure episodes and recoveries (internal/core/runevents.go).
use duskrun.Base.{ℕ, ◌≡◌, Bool, true, false, ◌||◌, contains, ltb, arith}
use duskrun.AlertStore.{upsert_alert, alert_level, open_alert, failure_of, same_key}
use duskrun.AlertStore.Levels.{
  IsOpen, alert_level-upsert, alert_level-close, close_alert-eq, IsOpen-upsert,
}
use duskrun.Watchdog.{mark_ids}
use duskrun.Watchdog.Episodes.{contains-clear_mark}
use duskrun.Worker.{World, Answers, failed_terminally, recovery}

-- Every call of the store works.
pub record Works (ans : Answers) : Type 0 where
  pub opens : ans.opens ≡ true
  pub closes : ans.closes ≡ true
  pub lists : ans.lists ≡ true
  pub clears : ans.clears ≡ true

-- A failure or watchdog episode of the task is open.
abbrev pub has_episode : ℕ → World → Bool
has_episode task w =
    ltb 0 (alert_level (failure_of task) w.alerts) || contains (mark_ids w.marks) task

-- When the store answers, a success is followed by a recovery exactly if the task had a failure or
-- watchdog episode open; then both are closed, and the next success of the task is not.
pub recovery_once :
    (ans : Answers) (task : ℕ) (w : World)
    → Works ans
    → IsOpen w.alerts
    → let (reports, w') = recovery ans task w in
      (reports ≡ has_episode task w) × (has_episode task w' ≡ false)
unfolding recovery same_key
recovery_once ans task w k h =
    let key = failure_of task in
    (
      ground (arith, k.closes, k.lists, close_alert-eq key w.alerts h),
      ground (
        arith,
        k.closes,
        k.lists,
        k.clears,
        alert_level-close key key w.alerts,
        contains-clear_mark task task w.marks,
      ),
    )

-- A run that failed for good is answered by a recovery at the task's next success.
pub recovery-failed_terminally :
    (ans : Answers) (task run : ℕ) (w : World)
    → Works ans
    → IsOpen w.alerts
    → (recovery ans task (failed_terminally ans task run w)).0 ≡ true
unfolding recovery failed_terminally open_alert same_key
recovery-failed_terminally ans task run w k h =
    let fact =
      close_alert-eq (failure_of task) (upsert_alert (failure_of task) 1 ans.now w.alerts)
        (IsOpen-upsert (failure_of task) 1 ans.now w.alerts (omega arith) h) in
    ground (
      arith,
      k.opens,
      k.closes,
      fact,
      alert_level-upsert (failure_of task) (failure_of task) 1 ans.now w.alerts,
    )
