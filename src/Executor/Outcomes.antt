-- ===== src/Executor/Outcomes.antt =====
-- What `Executor.Run` (internal/core/executor.go) leaves in the table run and in the catalog.
use duskrun.Base.{
  ℕ, String, ◌≡◌, refl, sym, Bool, true, false, Option, none, some, [], ◌∷◌, ◌++◌, arith,
}
use duskrun.Queue.{
  Run, RunStatus, success, failed, Result, Table, ok, err, is_active, update_run, finish, finished,
}
use duskrun.Queue.Invariant.{IsValid}
use duskrun.Queue.Finish.{finish_terminal}
use duskrun.Retention.Forget.{Artifact}
use duskrun.Executor.{
  Calls, Outcome, Records, PipelineResult, new_artifact, insert_artifact, outcome_of, answered,
  finished_with, try_finish, record_success, record_failure, run_steps, execute_run,
}

-- The row of the run under the status that the answer stands for.
abbrev pub recorded : Option Outcome → Calls → ℕ → Run → Run
recorded (some out) calls now = finished success calls.log "" now
recorded none calls now = finished failed calls.log calls.failure now

abbrev update_queue : ℕ → (Run → Run) → Records → Records
update_queue run f r = record r { queue = record r.queue { runs = update_run run f r.queue.runs } }

pub try_finish-terminal :
    (run : ℕ) (status : RunStatus) (log error : _) (now : ℕ) (r : Records)
    → IsValid r.queue
    → is_active status ≡ false
    → try_finish true run status log error now r
      ≡ (true, update_queue run (finished status log error now) r)
unfolding try_finish
try_finish-terminal run status log error now r v s =
    rw (try_finish, finish_terminal run status log error now r.queue v s) refl

-- Whatever step fails, a run that was executed is finished: on a valid table and when the store
-- performs the update that records a failure, the run's row carries `success` exactly with an answered outcome and `failed`
-- with the error otherwise, and no other row changes.
pub execute_run_records :
    (calls : Calls) (now run storage : ℕ) (r : Records)
    → IsValid r.queue
    → calls.fails ≡ true
    → let (outcome, r') = execute_run calls now run storage r in
      r'.queue.runs ≡ update_run run (recorded outcome calls now) r.queue.runs
unfolding execute_run run_steps record_success record_failure
execute_run_records calls now run storage r v h =
    by_calls calls.pipeline calls.inserts calls.finishes
  where
    made : Option PipelineResult → Bool → Bool → Calls
    made p i f = record calls { pipeline = p; inserts = i; finishes = f }

    by_calls :
        (p : Option PipelineResult) (i f : Bool)
        → let (outcome, r') = execute_run (made p i f) now run storage r in
          r'.queue.runs ≡ update_run run (recorded outcome calls now) r.queue.runs
    by_calls none i f =
        rw (h, try_finish-terminal run failed calls.log calls.failure now r v refl) refl
    by_calls (some res) false f =
        rw (h, try_finish-terminal run failed calls.log calls.failure now r v refl) refl
    by_calls (some res) true true =
        rw
          (try_finish-terminal run success calls.log "" now (insert_artifact now run storage res r)
            v refl)
          refl
    by_calls (some res) true false =
        rw
          (
            try_finish,
            h,
            try_finish-terminal run failed calls.log calls.failure now
                (insert_artifact now run storage res r) v refl,
          )
          refl

try_finish-artifacts :
    (succeeds : Bool) (run : ℕ) (status : RunStatus) (log error : String) (now : ℕ) (r : Records)
    → (try_finish succeeds run status log error now r).1.artifacts ≡ r.artifacts
unfolding try_finish
try_finish-artifacts false run status log error now r = refl
try_finish-artifacts true run status log error now r = ground arith

finished_with-some :
    (calls : Calls) (now run : ℕ) (made out : Outcome) (r : Records) (x : Result (Unit {0}) × Table)
    → (record_failure calls now run (finished_with made (answered x r))).0 ≡ some out
    → (made ≡ out)
      × ((record_failure calls now run (finished_with made (answered x r))).1.artifacts
          ≡ r.artifacts)
unfolding record_failure
finished_with-some calls now run made out r (ok u, t) h = (cc, refl)
finished_with-some calls now run made out r (err e, t) h = ground arith

-- A run that is answered with an outcome has put one artifact into the catalog, for this run and
-- with the key, size, checksum and id that it answers, and nothing was removed.
pub execute_run_artifact :
    (calls : Calls) (now run storage : ℕ) (r : Records) (out : Outcome)
    → (execute_run calls now run storage r).0 ≡ some out
    → (a : Artifact) × ((execute_run calls now run storage r).1.artifacts ≡ r.artifacts ++ a ∷ [])
      × (a.run_id ≡ run)
      × (out ≡ outcome_of a)
unfolding execute_run run_steps record_success record_failure try_finish
execute_run_artifact calls now run storage r out h =
    by_calls calls.pipeline calls.inserts calls.finishes h
  where
    made : Option PipelineResult → Bool → Bool → Calls
    made p i f = record calls { pipeline = p; inserts = i; finishes = f }

    by_calls :
        (p : Option PipelineResult) (i f : Bool)
        → (execute_run (made p i f) now run storage r).0 ≡ some out
        → (a : Artifact) × ((execute_run (made p i f) now run storage r).1.artifacts
            ≡ r.artifacts ++ a ∷ [])
          × (a.run_id ≡ run)
          × (out ≡ outcome_of a)
    by_calls none i f k = ground arith
    by_calls (some res) false f k = ground arith
    by_calls (some res) true false k = ground arith
    by_calls (some res) true true k =
        let a = new_artifact now run storage res r.artifacts in
        let stored = insert_artifact now run storage res r in
        let settled =
          finished_with-some (made (some res) true true) now run (outcome_of a) out stored
            (finish run success calls.log "" now stored.queue) k in
        (a, settled.1, refl, sym settled.0)
