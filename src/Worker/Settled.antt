-- ===== src/Worker/Settled.antt =====
-- What a worker (internal/core/worker.go) and a restart (internal/core/runevents.go) leave of a run.
use duskrun.Base.{
  ℕ, pos, ltb_ℤ, ◌+ℤ◌, suc, ◌≡◌, refl, ◌∙◌, sym, subst, ap, true, false, Option, none, some, List,
  [], ◌∷◌, ◌++◌, ◌==◌, arith, Bool-cases, inl, inr, if-keeps, contains,
}
use mathlib.Core.List.{append-nil, append_assoc}
use duskrun.Model.{Task}
use duskrun.Queue.{
  Run, Table, failed, is_active, has_active, get_run, update_run, finished, insert_run, requeue,
}
use duskrun.Queue.Invariant.{IsValid}
use duskrun.Queue.Finish.{get_run-update, update_found}
use duskrun.Executor.{Calls, Outcome, execute_run}
use duskrun.Executor.Outcomes.{recorded, try_finish-terminal, execute_run_records}
use duskrun.Worker.{
  World, Answers, Message, failed_terminally, retry, conclude, task_loaded, execute, records,
  report_task, report_run, report_one, report_interrupted, interrupted,
}
use duskrun.Worker.Steps.{succeeded-queue}

-- The run has a row, which is neither queued nor running.
abbrev pub Settled : ℕ → List Run → Type 0
Settled i rs = (row : Run) × (get_run i rs ≡ some row) × (is_active row.status ≡ false)

get_run-append :
    (i : ℕ) (rs ss : List Run) (row : Run)
    → get_run i rs ≡ some row
    → get_run i (rs ++ ss) ≡ some row
get_run-append i [] ss row h = ground arith
get_run-append i (r ∷ rs) ss row h = elim (Bool-cases (r.id == i)) [
  | inl e ↦ ground (arith, e, h)
  | inr e ↦ ground (arith, e, h, get_run-append i rs ss row)
]

Settled-append : (i : ℕ) (rs ss : List Run) → Settled i rs → Settled i (rs ++ ss)
Settled-append i rs ss h = (h.0, get_run-append i rs ss h.0 h.1, h.2)

insert_run-Settled :
    (i now task attempt : ℕ) (t : Table)
    → Settled i t.runs
    → Settled i (insert_run now task attempt t).1.runs
unfolding insert_run
insert_run-Settled i now task attempt t h = elim (Bool-cases (has_active task t.runs)) [
  | inl e ↦ rw e h
  | inr e ↦ elim (Bool-cases (contains t.tasks task)) [
    | inl f ↦ rw (e, f) (Settled-append i t.runs _ h)
    | inr f ↦ rw (e, f) h
  ]
]

retry-Settled :
    (i : ℕ) (ans : Answers) (t : Task) (run : Run) (w : World)
    → Settled i w.queue.runs
    → Settled i (retry ans t run w).queue.runs
unfolding retry failed_terminally requeue
retry-Settled i ans t run w h =
    let exhausted = ltb_ℤ (t.retries +ℤ pos 1) (pos (suc run.attempt)) in
    if-keeps (λ (v : World). Settled i v.queue.runs) exhausted
      (if-keeps (λ (v : World). Settled i v.queue.runs) ans.opens h h)
      (if-keeps (λ (v : _ × Table). Settled i v.1.runs) exhausted h
        (insert_run-Settled i ans.now t.id (suc run.attempt) w.queue h))

conclude-Settled :
    (i : ℕ) (ans : Answers) (t : Task) (run : Run) (x : Option Outcome) (w : World)
    → Settled i w.queue.runs
    → Settled i (conclude ans t run x w).queue.runs
conclude-Settled i ans t run (some out) w h =
    subst (λ q. Settled i q.runs) (sym (succeeded-queue ans t.id run.id out.size w)) h
conclude-Settled i ans t run none w h = retry-Settled i ans t run w h

update_run-Settled :
    (i : ℕ) (f : Run → Run) (rs : List Run) (row : Run)
    → ((r : Run) → (f r).id ≡ r.id)
    → ((r : Run) → is_active (f r).status ≡ false)
    → get_run i rs ≡ some row
    → Settled i (update_run i f rs)
update_run-Settled i f rs row k h e =
    (f row, get_run-update i f rs k ∙ ap (update_found f) e, h row)

recorded-is_inactive :
    (x : Option Outcome) (calls : Calls) (now : ℕ) (r : Run)
    → is_active (recorded x calls now r).status ≡ false
recorded-is_inactive (some out) calls now r = refl
recorded-is_inactive none calls now r = refl

recorded-id :
    (x : Option Outcome) (calls : Calls) (now : ℕ) (r : Run) → (recorded x calls now r).id ≡ r.id
recorded-id (some out) calls now r = refl
recorded-id none calls now r = refl

task_loaded-Settled :
    (ans : Answers) (calls : Calls) (run row : Run) (w : World) (loaded : Option Task)
    → IsValid w.queue
    → calls.fails ≡ true
    → get_run run.id w.queue.runs ≡ some row
    → Settled run.id (task_loaded ans calls run w loaded).queue.runs
unfolding task_loaded
task_loaded-Settled ans calls run row w none v h e =
    rw (h, try_finish-terminal run.id failed "" calls.failure ans.now (records w) v refl)
      (update_run-Settled run.id (finished failed "" calls.failure ans.now) w.queue.runs row
        (λ r. refl) (λ r. refl) e)
task_loaded-Settled ans calls run row w (some t) v h e =
    let outcome = (execute_run calls ans.now run.id t.storage_id (records w)).0 in
    conclude-Settled run.id ans t run outcome _ (
      subst (Settled run.id)
        (sym (execute_run_records calls ans.now run.id t.storage_id (records w) v h))
        (update_run-Settled run.id (recorded outcome calls ans.now) w.queue.runs row
          (recorded-id outcome calls ans.now) (recorded-is_inactive outcome calls ans.now) e))

-- A worker does not leave the run that it executes active, whatever fails on the way: when the table
-- is valid, the run's row is there and the store performs the update that records a failure, the row
-- is there afterwards and is neither queued nor running.
pub execute-Settled :
    (ans : Answers) (calls : Calls) (get_task : ℕ → Option Task) (run row : Run) (w : World)
    → IsValid w.queue
    → calls.fails ≡ true
    → get_run run.id w.queue.runs ≡ some row
    → Settled run.id (execute ans calls get_task run w).queue.runs
unfolding execute
execute-Settled ans calls get_task run row w v h e =
    task_loaded-Settled ans calls run row w (get_task run.task_id) v h e

-- The message for one interrupted run, none where the run or its task cannot be loaded.
abbrev task_message : ℕ → Option Task → List Message
task_message run none = []
task_message run (some t) = record { task_id = t.id; event = interrupted; run_id = run } ∷ []

abbrev run_message : (ℕ → Option Task) → Option Run → List Message
run_message get_task none = []
run_message get_task (some run) = task_message run.id (get_task run.task_id)

abbrev pub interruptions : (ℕ → Option Task) → List Run → List ℕ → List Message
interruptions get_task rs [] = []
interruptions get_task rs (i ∷ is) =
    run_message get_task (get_run i rs) ++ interruptions get_task rs is

report_task-sent :
    (ans : Answers) (run : ℕ) (w : World) (t : Option Task)
    → ((report_task ans run w t).sent ≡ w.sent ++ task_message run t)
      × ((report_task ans run w t).queue ≡ w.queue)
unfolding report_task
report_task-sent ans run w none = (sym (append-nil w.sent), refl)
report_task-sent ans run w (some t) = ground arith

report_run-sent :
    (ans : Answers) (get_task : ℕ → Option Task) (w : World) (r : Option Run)
    → ((report_run ans get_task w r).sent ≡ w.sent ++ run_message get_task r)
      × ((report_run ans get_task w r).queue ≡ w.queue)
unfolding report_run
report_run-sent ans get_task w none = (sym (append-nil w.sent), refl)
report_run-sent ans get_task w (some run) = report_task-sent ans run.id w (get_task run.task_id)

-- After a restart each listed run whose row and task can be loaded is reported once, in order, and
-- nothing else is sent.
pub report_interrupted_sent :
    (ans : Answers) (get_task : ℕ → Option Task) (is : List ℕ) (w : World)
    → (report_interrupted ans get_task is w).sent ≡ w.sent ++ interruptions get_task w.queue.runs is
unfolding report_interrupted report_one
report_interrupted_sent ans get_task [] w = sym (append-nil w.sent)
report_interrupted_sent ans get_task (i ∷ is) w =
    let one = report_run-sent ans get_task w (get_run i w.queue.runs) in
    report_interrupted_sent ans get_task is (report_one ans get_task i w)
    ∙ rw (one.0, one.1) (append_assoc w.sent _ _)
