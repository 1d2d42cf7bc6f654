-- ===== src/Watchdog/Alerts.antt =====
-- Which alerts `Check` sends (internal/core/watchdog.go).
use duskrun.Base.{
  ℕ, ◌≡◌, Bool, true, false, not, ◌&&◌, ◌||◌, Option, none, some, List, [], ◌∷◌, ◌++◌, map, ◌==◌,
  contains, arith, Option-cases, inl, inr, Distinct,
}
use duskrun.Model.{Task}
use duskrun.Dispatcher.{Cron}
use duskrun.Watchdog.{
  WatchdogRecord, WatchdogAlert, Writes, Watching, evaluate_watchdog, mark_ids, check_task,
  check_tasks, task_ids, check,
}
use duskrun.Watchdog.Episodes.{evaluate-task_id, is_stale, stale_id, check_marks}

abbrev pub fired_ids : List WatchdogAlert → List ℕ
fired_ids = map (λ a. a.task_id)

fired_ids-append_one :
    (l : List WatchdogAlert) (a : WatchdogAlert) (i : ℕ)
    → contains (fired_ids (l ++ a ∷ [])) i ≡ (contains (fired_ids l) i || a.task_id == i)
fired_ids-append_one [] a i = ground arith
fired_ids-append_one (b ∷ l) a i = ground (arith, fired_ids-append_one l a i)

module _ (cron : Cron) (last_success : ℕ → Option ℕ) (now : ℕ) (writes : Writes) where
  check_task-fired :
      (t : Task) (was : Bool) (i : ℕ) (w : Watching)
      → contains
          (fired_ids
            (check_task writes now (evaluate_watchdog cron last_success now t) was t.id w).fired)
          i
        ≡ (contains (fired_ids w.fired) i
            || (t.id == i && is_stale cron last_success now t && not was && writes.marks i))
  unfolding check_task
  check_task-fired t was i w = elim (Option-cases (evaluate_watchdog cron last_success now t)) [
    | inl e ↦ rw e (fresh was)
    | inr (a, e) ↦ rw e (stale was a (evaluate-task_id cron last_success now t a e))
  ]
    where
      fresh :
          (was : Bool)
          → contains (fired_ids (check_task writes now none was t.id w).fired) i
            ≡ (contains (fired_ids w.fired) i || (t.id == i && false && not was && writes.marks i))
      fresh true = ground arith
      fresh false = ground arith

      stale :
          (was : Bool) (a : WatchdogAlert)
          → a.task_id ≡ t.id
          → contains (fired_ids (check_task writes now (some a) was t.id w).fired) i
            ≡ (contains (fired_ids w.fired) i || (t.id == i && true && not was && writes.marks i))
      stale true a h = ground arith
      stale false a h = ground (arith, fired_ids-append_one w.fired a i)

  check_tasks-fired :
      (alerted : List ℕ) (ts : List Task) (i : ℕ) (w : Watching)
      → contains (fired_ids (check_tasks cron last_success writes now alerted ts w).fired) i ≡ (
          contains (fired_ids w.fired) i
          || (stale_id cron last_success now ts i && not (contains alerted i) && writes.marks i))
  unfolding check_tasks
  check_tasks-fired alerted [] i w = ground arith
  check_tasks-fired alerted (t ∷ ts) i w =
      let was = contains alerted t.id in
      let w' = check_task writes now (evaluate_watchdog cron last_success now t) was t.id w in
      ground (arith, check_task-fired t was i w, check_tasks-fired alerted ts i w')

-- `Check` alerts for a task exactly if an enabled task of that id is stale now, no mark says that
-- the episode was reported, and the mark could be written: an episode that cannot be recorded is
-- not reported either.
pub check_fires :
    (cron : Cron) (last_success : ℕ → Option ℕ) (writes : Writes) (now : ℕ) (tasks : List Task)
    (marks : List WatchdogRecord) (i : ℕ)
    → contains (fired_ids (check cron last_success writes now tasks marks).fired) i ≡ (
        stale_id cron last_success now tasks i
        && not (contains (mark_ids marks) i)
        && writes.marks i)
unfolding check
check_fires cron last_success writes now tasks marks i =
    check_tasks-fired cron last_success now writes (mark_ids marks) tasks i
      (record { marks = marks; fired = [] })

-- One alert for each episode: a task that one check alerts for is not alerted for by the next
-- check, whatever the time, the tasks, the successes and the store's answers are then. The tasks of
-- the first check have distinct ids.
pub check-check_once :
    (cron : Cron) (last_success last_success' : ℕ → Option ℕ) (writes writes' : Writes)
    (now now' : ℕ) (tasks tasks' : List Task) (marks : List WatchdogRecord) (i : ℕ)
    → Distinct (task_ids tasks)
    → let first = check cron last_success writes now tasks marks in
      contains (fired_ids first.fired) i ≡ true
      → contains (fired_ids (check cron last_success' writes' now' tasks' first.marks).fired) i
        ≡ false
check-check_once cron last_success last_success' writes writes' now now' tasks tasks' marks i d h =
    let first = check cron last_success writes now tasks marks in
    ground (
      arith,
      h,
      check_fires cron last_success writes now tasks marks i,
      check_marks cron last_success writes now tasks marks i d,
      check_fires cron last_success' writes' now' tasks' first.marks i,
    )
