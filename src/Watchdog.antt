-- ===== src/Watchdog.antt =====
-- The watchdog (internal/core/watchdog.go) over its store (internal/store/sqlite/watchdog.go).
-- Times and durations count nanoseconds. The delivery of an alert is its place in the list that
-- `Check` returns: the code notifies exactly for the alerts that it appends there.
pub mod Gaps
pub mod Episodes
pub mod Alerts
pub mod Thresholds
use duskrun.Base.{
  ℕ, ℤ, pos, negsuc, ltb_ℤ, ◌-ℤ◌, String, Bool, true, false, not, ◌&&◌, ◌||◌, Option, none, some,
  List, [], ◌∷◌, ◌++◌, ◌*◌, ltb, leb, ◌==◌, max, if◌then◌else◌, contains, select, map,
}
use duskrun.Model.{Task, hour}
use duskrun.Dispatcher.{Cron, Schedule}
use duskrun.Watchdog.Gaps.{cron_max_interval}

pub record WatchdogRecord : Type 0 where
  pub task_id : ℕ
  pub alerted_at : ℕ
  pub last_success : Option ℕ

pub record WatchdogAlert : Type 0 where
  pub task_id : ℕ
  pub task : String
  pub threshold : ℤ
  pub last_success : Option ℕ
  pub since : ℤ

-- minWatchdogThreshold
abbrev pub min_threshold : ℕ
min_threshold = hour

abbrev pub derived : Option ℕ → Option ℤ
derived none = none
derived (some interval) = some (pos (max (2 * interval) min_threshold))

-- `none` where the second result is false. A negative setting is WatchdogOff, 0 is WatchdogAuto.
unfoldable pub watchdog_threshold : Cron → Task → Option ℤ
watchdog_threshold cron t =
    if ltb_ℤ t.watchdog (pos 0)
    then none
    else if ltb_ℤ (pos 0) t.watchdog
    then some t.watchdog
    else derived (cron_max_interval cron t.cron t.created_at)

-- From the last success, or else from the task's creation.
abbrev pub success_or : Option ℕ → ℕ → ℕ
success_or none created = created
success_or (some at) created = at

-- And from the moment the task was enabled, if that is later.
abbrev pub idle_from : Task → Option ℕ → ℕ
idle_from t last = max (success_or last t.created_at) t.enabled_at

abbrev pub make_alert : Task → Option ℕ → ℕ → ℤ → WatchdogAlert
make_alert t last now threshold = record {
  task_id = t.id;
  task = t.name;
  threshold = threshold;
  last_success = last;
  since = pos now -ℤ pos (idle_from t last);
}

-- The alert where the task is stale, `none` where it is not.
abbrev pub judge : Task → Option ℕ → ℕ → Option ℤ → Option WatchdogAlert
judge t last now none = none
judge t last now (some threshold) =
    let a = make_alert t last now threshold in if ltb_ℤ a.threshold a.since then some a else none

unfoldable pub evaluate_watchdog : Cron → (ℕ → Option ℕ) → ℕ → Task → Option WatchdogAlert
unfolding watchdog_threshold ◌-ℤ◌
evaluate_watchdog cron last_success now t =
    judge t (last_success t.id) now (watchdog_threshold cron t)

-- Table watchdog_alert.
abbrev pub mark_ids : List WatchdogRecord → List ℕ
mark_ids = map (λ r. r.task_id)

-- `ClearWatchdogAlert`: DELETE FROM watchdog_alert WHERE task_id = ?
unfoldable pub clear_mark : ℕ → List WatchdogRecord → List WatchdogRecord
clear_mark i marks = select (λ r. not (r.task_id == i)) marks

-- `MarkWatchdogAlerted`: an upsert.
unfoldable pub put_mark : WatchdogRecord → List WatchdogRecord → List WatchdogRecord
unfolding clear_mark
put_mark r marks = r ∷ clear_mark r.task_id marks

-- Which of the store's writes succeed, by the task.
pub record Writes : Type 0 where
  pub marks : ℕ → Bool
  pub clears : ℕ → Bool

pub record Watching : Type 0 where
  pub marks : List WatchdogRecord
  pub fired : List WatchdogAlert

abbrev pub new_mark : ℕ → WatchdogAlert → WatchdogRecord
new_mark now a = record { task_id = a.task_id; alerted_at = now; last_success = a.last_success }

-- The two branches of the switch in `Check`; in any other case nothing is done.
unfoldable pub check_task : Writes → ℕ → Option WatchdogAlert → Bool → ℕ → Watching → Watching
unfolding put_mark
check_task writes now (some a) false i w =
    if writes.marks i
    then record { marks = put_mark (new_mark now a) w.marks; fired = w.fired ++ a ∷ [] }
    else w
check_task writes now (some a) true i w = w
check_task writes now none true i w =
    if writes.clears i then record w { marks = clear_mark i w.marks } else w
check_task writes now none false i w = w

-- The loop over the enabled tasks; `alerted` is the listing made before it.
unfoldable pub check_tasks :
    Cron → (ℕ → Option ℕ) → Writes → ℕ → List ℕ → List Task → Watching → Watching
check_tasks cron last_success writes now alerted [] w = w
check_tasks cron last_success writes now alerted (t ∷ ts) w =
    check_tasks cron last_success writes now alerted ts (
      check_task writes now (evaluate_watchdog cron last_success now t) (contains alerted t.id) t.id
        w)

abbrev pub task_ids : List Task → List ℕ
task_ids = map (λ t. t.id)

-- The loop over `alerted` that drops the marks of tasks no longer watched.
unfoldable pub drop_unwatched : Writes → List ℕ → List ℕ → List WatchdogRecord → List WatchdogRecord
drop_unwatched writes live [] marks = marks
drop_unwatched writes live (i ∷ is) marks =
    drop_unwatched writes live is
      (if contains live i then marks else if writes.clears i then clear_mark i marks else marks)

-- `Check`, after its three listings succeeded.
unfoldable pub check :
    Cron → (ℕ → Option ℕ) → Writes → ℕ → List Task → List WatchdogRecord → Watching
check cron last_success writes now tasks marks =
    let w =
      check_tasks cron last_success writes now (mark_ids marks) tasks
        (record { marks = marks; fired = [] }) in
    record w { marks = drop_unwatched writes (task_ids tasks) (mark_ids marks) w.marks }
