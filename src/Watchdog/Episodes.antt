-- ===== src/Watchdog/Episodes.antt =====
-- One alert for each stale episode (`Check` of internal/core/watchdog.go).
use duskrun.Base.{
  ℕ, ◌≡◌, refl, Bool, true, false, not, ◌&&◌, ◌||◌, Option, none, some, List, [], ◌∷◌, ◌==◌,
  if◌then◌else◌, contains, arith, Option-cases, inl, inr, Distinct,
}
use duskrun.Model.{Task}
use duskrun.Dispatcher.{Cron}
use duskrun.Watchdog.{
  WatchdogRecord, WatchdogAlert, Writes, Watching, evaluate_watchdog, mark_ids, clear_mark,
  put_mark, check_task, check_tasks, new_mark, task_ids, drop_unwatched, check,
}

abbrev pub is_some : Option WatchdogAlert → Bool
is_some none = false
is_some (some a) = true

pub contains-clear_mark :
    (i j : ℕ) (marks : List WatchdogRecord)
    → contains (mark_ids (clear_mark i marks)) j
      ≡ (if i == j then false else contains (mark_ids marks) j)
unfolding clear_mark
contains-clear_mark i j [] = ground arith
contains-clear_mark i j (r ∷ marks) = ground (arith, contains-clear_mark i j marks)

contains-put_mark :
    (r : WatchdogRecord) (j : ℕ) (marks : List WatchdogRecord)
    → contains (mark_ids (put_mark r marks)) j ≡ (r.task_id == j || contains (mark_ids marks) j)
unfolding put_mark
contains-put_mark r j marks = ground (arith, contains-clear_mark r.task_id j marks)

-- Whether `i` is marked after the check of the task `id`, which was found stale or not, and had been
-- reported or not.
mark_after : Writes → Bool → Bool → ℕ → ℕ → Bool → Bool
mark_after writes stale was id i marked =
    if id == i
    then (if stale
        then (if was then marked else writes.marks i || marked)
        else if was
        then marked && not (writes.clears i)
        else marked)
    else marked

module _ (cron : Cron) (last_success : ℕ → Option ℕ) (now : ℕ) where
  -- A task's alert carries its id.
  pub evaluate-task_id :
      (t : Task) (a : WatchdogAlert)
      → evaluate_watchdog cron last_success now t ≡ some a
      → a.task_id ≡ t.id
  unfolding evaluate_watchdog
  evaluate-task_id t a e = ground arith

  abbrev pub is_stale : Task → Bool
  is_stale t = is_some (evaluate_watchdog cron last_success now t)

  -- Some task of the id is stale.
  abbrev pub stale_id : List Task → ℕ → Bool
  stale_id [] i = false
  stale_id (t ∷ ts) i = (t.id == i && is_stale t) || stale_id ts i

  stale_id-absent :
      (ts : List Task) (i : ℕ) → contains (task_ids ts) i ≡ false → stale_id ts i ≡ false
  stale_id-absent [] i h = refl
  stale_id-absent (t ∷ ts) i h = ground (arith, stale_id-absent ts i)

  check_task-marks :
      (writes : Writes) (t : Task) (was : Bool) (i : ℕ) (w : Watching)
      → contains
          (mark_ids
            (check_task writes now (evaluate_watchdog cron last_success now t) was t.id w).marks)
          i
        ≡ mark_after writes (is_stale t) was t.id i (contains (mark_ids w.marks) i)
  unfolding check_task mark_after
  check_task-marks writes t was i w =
      elim (Option-cases (evaluate_watchdog cron last_success now t)) [
        | inl e ↦ rw e (fresh was)
        | inr (a, e) ↦ rw e (stale was a (evaluate-task_id t a e))
      ]
    where
      fresh :
          (was : Bool)
          → contains (mark_ids (check_task writes now none was t.id w).marks) i
            ≡ mark_after writes false was t.id i (contains (mark_ids w.marks) i)
      fresh true = ground (arith, contains-clear_mark t.id i w.marks)
      fresh false = ground arith

      stale :
          (was : Bool) (a : WatchdogAlert)
          → a.task_id ≡ t.id
          → contains (mark_ids (check_task writes now (some a) was t.id w).marks) i
            ≡ mark_after writes true was t.id i (contains (mark_ids w.marks) i)
      stale true a h = ground arith
      stale false a h = ground (arith, contains-put_mark (new_mark now a) i w.marks)

  check_tasks-marks :
      (writes : Writes) (alerted : List ℕ) (ts : List Task) (i : ℕ) (w : Watching)
      → Distinct (task_ids ts)
      → contains (mark_ids (check_tasks cron last_success writes now alerted ts w).marks) i ≡ (
          if contains (task_ids ts) i
          then mark_after writes
              (stale_id ts i)
              (contains alerted i)
              i
              i
              (contains (mark_ids w.marks) i)
          else contains (mark_ids w.marks) i)
  unfolding check_tasks mark_after
  check_tasks-marks writes alerted [] i w d = ground arith
  check_tasks-marks writes alerted (t ∷ ts) i w d =
      let was = contains alerted t.id in
      let w' = check_task writes now (evaluate_watchdog cron last_success now t) was t.id w in
      ground (
        arith,
        d.0,
        stale_id-absent ts i,
        check_task-marks writes t was i w,
        check_tasks-marks writes alerted ts i w' d.1,
      )

drop_unwatched-marks :
    (writes : Writes) (live is : List ℕ) (i : ℕ) (marks : List WatchdogRecord)
    → contains (mark_ids (drop_unwatched writes live is marks)) i ≡ (
        if contains is i && not (contains live i)
        then contains (mark_ids marks) i && not (writes.clears i)
        else contains (mark_ids marks) i)
unfolding drop_unwatched
drop_unwatched-marks writes live [] i marks = ground arith
drop_unwatched-marks writes live (j ∷ is) i marks = ground (
  arith,
  contains-clear_mark j i marks,
  drop_unwatched-marks writes live is i marks,
  drop_unwatched-marks writes live is i (clear_mark j marks),
)

-- The marks after a check: for listed tasks with distinct ids, a task is marked exactly if it is
-- stale now and was marked before or its mark could be written, or is not stale (or no longer
-- enabled) and was marked before and its mark could not be cleared.
pub check_marks :
    (cron : Cron) (last_success : ℕ → Option ℕ) (writes : Writes) (now : ℕ) (tasks : List Task)
    (marks : List WatchdogRecord) (i : ℕ)
    → Distinct (task_ids tasks)
    → contains (mark_ids (check cron last_success writes now tasks marks).marks) i ≡ (
        if stale_id cron last_success now tasks i
        then contains (mark_ids marks) i || writes.marks i
        else contains (mark_ids marks) i && not (writes.clears i))
unfolding check mark_after
check_marks cron last_success writes now tasks marks i d =
    let w =
      check_tasks cron last_success writes now (mark_ids marks) tasks
        (record { marks = marks; fired = [] }) in
    ground (
      arith,
      stale_id-absent cron last_success now tasks i,
      check_tasks-marks cron last_success now writes (mark_ids marks) tasks i
          (record { marks = marks; fired = [] }) d,
      drop_unwatched-marks writes (task_ids tasks) (mark_ids marks) i w.marks,
    )
