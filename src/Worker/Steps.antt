-- ===== src/Worker/Steps.antt =====
-- What every step of a worker keeps (internal/core/worker.go).
use duskrun.Base.{
  if-keeps, ℕ, pos, ltb_ℤ, ◌+ℤ◌, suc, ◌≡◌, refl, subst, sym, String, Bool, true, false, Option,
  none, some, arith, Bool-cases, inl, inr,
}
use duskrun.Model.{Task}
use duskrun.Queue.{
  Run, RunStatus, Table, Result, ok, err, active_run, foreign_key, no_run, failed, finish, requeue,
  claim_next,
}
use duskrun.Queue.Invariant.{IsValid, finish-IsValid, requeue-IsValid, claim_next-IsValid}
use duskrun.Executor.{
  Calls, Outcome, Records, PipelineResult, insert_artifact, outcome_of, new_artifact, answered,
  finished_with, try_finish, record_success, pipeline_ended, run_steps, record_failure, execute_run,
}
use duskrun.Worker.{
  World, Answers, failed_terminally, recovery, succeeded, retry, task_loaded, execute, process_next,
  conclude, process_claim, records, send, success, size_anomaly,
}
use duskrun.Worker.History.{is_size_anomaly}
use duskrun.Worker.Attempts.{
  AttemptsWithin, requeue-AttemptsWithin, claim_next-AttemptsWithin, finish-AttemptsWithin,
}

-- Tasks are read by their ids.
abbrev pub ReadsIds : (ℕ → Option Task) → Type 0
ReadsIds get_task = (i : ℕ) (t : Task) → get_task i ≡ some t → get_task t.id ≡ some t

-- What the statements of a worker keep of the table.
record Kept (get_task : ℕ → Option Task) (P : Table → Type 0) : Type 1 where
  claims : (worker : String) (now : ℕ) (q : Table) → P q → P (claim_next worker now q).1
  finishes :
      (id : ℕ) (status : RunStatus) (log error : String) (now : ℕ) (q : Table)
      → P q
      → P (finish id status log error now q).1
  requeues :
      (now next_attempt : ℕ) (t : Task) (q : Table)
      → get_task t.id ≡ some t
      → P q
      → P (requeue now t.id next_attempt (t.retries +ℤ pos 1) q).1

recovery-queue : (ans : Answers) (task : ℕ) (w : World) → (recovery ans task w).1.queue ≡ w.queue
unfolding recovery
recovery-queue ans task w = ground arith

pub succeeded-queue :
    (ans : Answers) (task run size : ℕ) (w : World)
    → (succeeded ans task run size w).queue ≡ w.queue
unfolding succeeded
succeeded-queue ans task run size w =
    let w1 = send task success run w in
    elim (Bool-cases (is_size_anomaly ans.sizes size)) [
      | inl e ↦ ground (arith, recovery-queue ans task (send task size_anomaly run w1))
      | inr e ↦ ground (arith, recovery-queue ans task w1)
    ]

module _ (get_task : ℕ → Option Task) (P : Table → Type 0) (kept : Kept get_task P) where
  answered-keeps : (x : Result (Unit {0}) × Table) (r : Records) → P x.1 → P (answered x r).1.queue
  answered-keeps (ok u, t) r h = h
  answered-keeps (err e, t) r h = h

  try_finish-keeps :
      (b : Bool) (run : ℕ) (status : RunStatus) (log error : String) (now : ℕ) (r : Records)
      → P r.queue
      → P (try_finish b run status log error now r).1.queue
  unfolding try_finish
  try_finish-keeps false run status log error now r h = h
  try_finish-keeps true run status log error now r h =
      answered-keeps (finish run status log error now r.queue) r
        (kept.finishes run status log error now r.queue h)

  finished_with-keeps :
      (out : Outcome) (x : Bool × Records) → P x.1.queue → P (finished_with out x).1.queue
  finished_with-keeps out (true, r) h = h
  finished_with-keeps out (false, r) h = h

  pipeline_ended-keeps :
      (calls : Calls) (now run storage : ℕ) (r : Records) (p : Option PipelineResult)
      → P r.queue
      → P (pipeline_ended calls now run storage r p).1.queue
  unfolding record_success
  pipeline_ended-keeps calls now run storage r none h = h
  pipeline_ended-keeps calls now run storage r (some res) h =
      if-keeps (λ (x : Option Outcome × Records). P x.1.queue) calls.inserts
        (finished_with-keeps (outcome_of (new_artifact now run storage res r.artifacts)) _ (
          try_finish-keeps calls.finishes run RunStatus.success calls.log "" now
            (insert_artifact now run storage res r) h))
        h

  record_failure-keeps :
      (calls : Calls) (now run : ℕ) (x : Option Outcome × Records)
      → P x.1.queue
      → P (record_failure calls now run x).1.queue
  unfolding record_failure
  record_failure-keeps calls now run (some out, r) h = h
  record_failure-keeps calls now run (none, r) h =
      try_finish-keeps calls.fails run failed calls.log calls.failure now r h

  retry-keeps :
      (ans : Answers) (t : Task) (run : Run) (w : World)
      → get_task t.id ≡ some t
      → P w.queue
      → P (retry ans t run w).queue
  unfolding retry failed_terminally
  retry-keeps ans t run w g h =
      if-keeps (λ (v : World). P v.queue) (ltb_ℤ (t.retries +ℤ pos 1) (pos (suc run.attempt)))
        (if-keeps (λ (v : World). P v.queue) ans.opens h h)
        (kept.requeues ans.now (suc run.attempt) t w.queue g h)

  conclude-keeps :
      (ans : Answers) (t : Task) (run : Run) (x : Option Outcome) (w : World)
      → get_task t.id ≡ some t
      → P w.queue
      → P (conclude ans t run x w).queue
  conclude-keeps ans t run (some out) w g h =
      subst P (sym (succeeded-queue ans t.id run.id out.size w)) h
  conclude-keeps ans t run none w g h = retry-keeps ans t run w g h

  task_loaded-keeps :
      (ans : Answers) (calls : Calls) (run : Run) (w : World) (loaded : Option Task)
      → ((t : Task) → loaded ≡ some t → get_task t.id ≡ some t)
      → P w.queue
      → P (task_loaded ans calls run w loaded).queue
  unfolding task_loaded execute_run run_steps
  task_loaded-keeps ans calls run w none reads h =
      try_finish-keeps calls.fails run.id failed "" calls.failure ans.now (records w) h
  task_loaded-keeps ans calls run w (some t) reads h = conclude-keeps ans t run _ _ (reads t refl) (
      record_failure-keeps calls ans.now run.id _
        (pipeline_ended-keeps calls ans.now run.id t.storage_id (records w) calls.pipeline h))

  process_claim-keeps :
      (ans : Answers) (calls : Calls) (w : World) (x : Result Run × Table)
      → ReadsIds get_task
      → P w.queue
      → P x.1
      → P (process_claim ans calls get_task w x).1.queue
  process_claim-keeps ans calls w (ok run, t) reads h k =
      unfold execute in
      task_loaded-keeps ans calls run (record w { queue = t }) (get_task run.task_id)
        (reads run.task_id) k
  process_claim-keeps ans calls w (err no_run, t) reads h k = h
  process_claim-keeps ans calls w (err active_run, t) reads h k = h
  process_claim-keeps ans calls w (err foreign_key, t) reads h k = h

-- A worker's step, with every failure of its calls, leaves a valid run queue valid, where the tasks are
-- read by their ids.
pub process_next-IsValid :
    (ans : Answers) (calls : Calls) (get_task : ℕ → Option Task) (worker : String) (w : World)
    → ReadsIds get_task
    → IsValid w.queue
    → IsValid (process_next ans calls get_task worker w).1.queue
unfolding process_next
process_next-IsValid ans calls get_task worker w reads h =
    process_claim-keeps get_task IsValid
      (record {
        claims = claim_next-IsValid;
        finishes = finish-IsValid;
        requeues = λ now n t q g v. requeue-IsValid now t.id n (t.retries +ℤ pos 1) q v;
      })
      ans calls w (claim_next worker ans.now w.queue) reads h
      (claim_next-IsValid worker ans.now w.queue h)

-- A run is retried no more often than its task allows: where the tasks are read by their ids, a step
-- keeps the attempt of every run within one more than the retries, and within 1 where these are
-- negative.
pub process_next-AttemptsWithin :
    (ans : Answers) (calls : Calls) (get_task : ℕ → Option Task) (worker : String) (w : World)
    → ReadsIds get_task
    → AttemptsWithin get_task w.queue.runs
    → AttemptsWithin get_task (process_next ans calls get_task worker w).1.queue.runs
unfolding process_next
process_next-AttemptsWithin ans calls get_task worker w reads h =
    process_claim-keeps get_task (λ q. AttemptsWithin get_task q.runs)
      (record {
        claims = claim_next-AttemptsWithin get_task;
        finishes = finish-AttemptsWithin get_task;
        requeues = requeue-AttemptsWithin get_task;
      })
      ans calls w (claim_next worker ans.now w.queue) reads h
      (claim_next-AttemptsWithin get_task worker ans.now w.queue h)
