-- ===== src/Worker.antt =====
-- One step of a worker (internal/core/worker.go) with the events of a run
-- (internal/core/runevents.go): ProcessNext claims a run, executes it, reports the result or queues
-- the next attempt. `sent` lists the calls of `Notifications.Send`; waiting changes no state.
pub mod Backoff
pub mod History
pub mod Attempts
pub mod Episodes
pub mod Steps
pub mod Settled
use duskrun.Base.{
  ℕ, ℤ, pos, ltb_ℤ, ◌+ℤ◌, suc, ◌+◌, String, Bool, true, false, ◌&&◌, ◌||◌, not, Option, none, some,
  List, [], ◌∷◌, ◌++◌, if◌then◌else◌, contains, ltb,
}
use duskrun.Model.{Task}
use duskrun.Queue.{
  Run, Table, QueueError, Result, ok, err, active_run, foreign_key, no_run, failed, claim_next,
  requeue, get_run,
}
use duskrun.Retention.Forget.{Artifact}
use duskrun.Executor.{Calls, Outcome, Records, execute_run, try_finish}
use duskrun.AlertStore.{Alert, open_alert, close_alert, failure_of}
use duskrun.Watchdog.{WatchdogRecord, clear_mark, mark_ids}
use duskrun.Worker.History.{is_size_anomaly}

pub data EventKind : Type 0 where
  success failure size_anomaly recovered interrupted : EventKind

-- A call of `Send`, without its text.
pub record Message : Type 0 where
  pub task_id : ℕ
  pub event : EventKind
  pub run_id : ℕ

-- The store, and the messages sent.
pub record World : Type 0 where
  pub queue : Table
  pub artifacts : List Artifact
  pub alerts : List Alert
  pub marks : List WatchdogRecord
  pub sent : List Message

-- What the other calls answer: the clock, whether `OpenAlert` and `CloseAlert` work, the listing of
-- the watchdog's marks and the removal of one, and the recent sizes (`none` for an error).
pub record Answers : Type 0 where
  pub now : ℕ
  pub opens : Bool
  pub closes : Bool
  pub lists : Bool
  pub clears : Bool
  pub sizes : Option (List ℕ)

abbrev pub send : ℕ → EventKind → ℕ → World → World
send task kind run w = record w {
  sent = w.sent ++ record { task_id = task; event = kind; run_id = run } ∷ [];
}

-- `failedTerminally`
unfoldable pub failed_terminally : Answers → ℕ → ℕ → World → World
unfolding open_alert
failed_terminally ans task run w =
    let w' = send task failure run w in
    if ans.opens
    then record w' { alerts = (open_alert (failure_of task) 1 ans.now w'.alerts).1 }
    else w'

-- `CloseAlert` of the failure episode: whether one was open, `false` on an error.
abbrev pub close_failure : Answers → ℕ → World → Bool × World
close_failure ans task w =
    let (was, rows) = close_alert (failure_of task) w.alerts in
    if ans.closes then (was, record w { alerts = rows }) else (false, w)

-- The watchdog's episode: whether one is listed, and the world with it cleared.
abbrev pub close_stale : Answers → ℕ → World → Bool × World
close_stale ans task w =
    let stale = ans.lists && contains (mark_ids w.marks) task in
    (stale, if stale && ans.clears then record w { marks = clear_mark task w.marks } else w)

-- `recovery`
unfoldable pub recovery : Answers → ℕ → World → Bool × World
unfolding close_alert clear_mark
recovery ans task w =
    let (was_failed, w1) = close_failure ans task w in
    let (stale, w2) = close_stale ans task w1 in (was_failed || stale, w2)

-- `succeeded`
unfoldable pub succeeded : Answers → ℕ → ℕ → ℕ → World → World
unfolding recovery is_size_anomaly
succeeded ans task run size w =
    let w1 = send task success run w in
    let w2 = if is_size_anomaly ans.sizes size then send task size_anomaly run w1 else w1 in
    let (well, w3) = recovery ans task w2 in if well then send task recovered run w3 else w3

abbrev pub records : World → Records
records w = record { queue = w.queue; artifacts = w.artifacts }

abbrev pub store : Records → World → World
store r w = record w { queue = r.queue; artifacts = r.artifacts }

-- A failed attempt: the next one is queued, or the failure is reported when none is left.
unfoldable pub retry : Answers → Task → Run → World → World
unfolding failed_terminally requeue ◌+ℤ◌
retry ans t run w =
    let max_attempts = t.retries +ℤ pos 1 in
    let next_attempt = suc run.attempt in
    if ltb_ℤ max_attempts (pos next_attempt)
    then failed_terminally ans t.id run.id w
    else record w { queue = (requeue ans.now t.id next_attempt max_attempts w.queue).1 }

abbrev pub conclude : Answers → Task → Run → Option Outcome → World → World
conclude ans t run (some out) w = succeeded ans t.id run.id out.size w
conclude ans t run none w = retry ans t run w

-- `execute` from the answer of `GetTask` on (`none` is its error).
-- The prefix of the error's text and its scrubbing are left out.
unfoldable pub task_loaded : Answers → Calls → Run → World → Option Task → World
unfolding execute_run try_finish succeeded retry
task_loaded ans calls run w none =
    store (try_finish calls.fails run.id failed "" calls.failure ans.now (records w)).1 w
task_loaded ans calls run w (some t) =
    let (outcome, r) = execute_run calls ans.now run.id t.storage_id (records w) in
    conclude ans t run outcome (store r w)

unfoldable pub execute : Answers → Calls → (ℕ → Option Task) → Run → World → World
unfolding task_loaded
execute ans calls get_task run w = task_loaded ans calls run w (get_task run.task_id)

-- `ProcessNext`: whether a run was claimed, or an error of the claim.
abbrev pub process_claim :
    Answers → Calls → (ℕ → Option Task) → World → Result Run × Table → Result Bool × World
process_claim ans calls get_task w (ok run, t) =
    (ok true, execute ans calls get_task run (record w { queue = t }))
process_claim ans calls get_task w (err no_run, t) = (ok false, w)
process_claim ans calls get_task w (err e, t) = (err e, w)

unfoldable pub process_next :
    Answers → Calls → (ℕ → Option Task) → String → World → Result Bool × World
unfolding execute claim_next
process_next ans calls get_task worker w =
    process_claim ans calls get_task w (claim_next worker ans.now w.queue)

-- The body of the loop of `ReportInterrupted`, from the answer of `GetTask` and of `GetRun` on.
unfoldable pub report_task : Answers → ℕ → World → Option Task → World
unfolding open_alert
report_task ans run w none = w
report_task ans run w (some t) =
    let opened =
      if ans.opens
      then record w { alerts = (open_alert (failure_of t.id) 1 ans.now w.alerts).1 }
      else w in
    send t.id interrupted run opened

unfoldable pub report_run : Answers → (ℕ → Option Task) → World → Option Run → World
unfolding report_task
report_run ans get_task w none = w
report_run ans get_task w (some run) = report_task ans run.id w (get_task run.task_id)

unfoldable pub report_one : Answers → (ℕ → Option Task) → ℕ → World → World
unfolding report_run
report_one ans get_task i w = report_run ans get_task w (get_run i w.queue.runs)

unfoldable pub report_interrupted : Answers → (ℕ → Option Task) → List ℕ → World → World
unfolding report_one
report_interrupted ans get_task [] w = w
report_interrupted ans get_task (i ∷ is) w =
    report_interrupted ans get_task is (report_one ans get_task i w)
