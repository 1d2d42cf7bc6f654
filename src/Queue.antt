-- ===== src/Queue.antt =====
-- The run queue: Run and RunStatus of internal/core/model.go, and Enqueue, ClaimNext, Finish,
-- Requeue and ReapStale of internal/store/sqlite/queue.go over the table `run` with its partial
-- unique index ux_run_active. Each statement is one transaction of a single writer, so an operation
-- is a function of the table; `now` is what unixepoch() answers.
pub mod Rows
pub mod Oldest
pub mod Invariant
pub mod Insert
pub mod Claim
pub mod Reap
pub mod Finish
use duskrun.Base.{
  ℤ, pos, ltb_ℤ, ℕ, suc, max, String, Bool, true, false, ◌&&◌, ◌||◌, not, Option, none, some, List,
  [], ◌∷◌, ◌++◌, map, ◌==◌, ltb, if◌then◌else◌, contains, select,
}

pub data RunStatus : Type 0 where
  queued running success failed skipped : RunStatus

pub record Run : Type 0 where
  pub id : ℕ
  pub task_id : ℕ
  pub status : RunStatus
  pub worker : String
  pub attempt : ℕ
  pub started_at : Option ℕ
  pub finished_at : Option ℕ
  pub error : String
  pub log : String
  pub created_at : ℕ

-- The ids of table `task`, which run.task_id references, and the rows of table `run`.
pub record Table : Type 0 where
  pub tasks : List ℕ
  pub runs : List Run

pub data QueueError : Type 0 where
  active_run foreign_key no_run : QueueError

pub data Result {ℓ} (A : Type ℓ) : Type ℓ where
  ok : A → Result A
  err : QueueError → Result A

abbrev pub is_queued : RunStatus → Bool
is_queued queued = true
is_queued _ = false

abbrev pub is_running : RunStatus → Bool
is_running running = true
is_running _ = false

-- The rows that ux_run_active covers.
abbrev pub is_active : RunStatus → Bool
is_active queued = true
is_active running = true
is_active _ = false

abbrev pub run_ids : List Run → List ℕ
run_ids = map (λ r. r.id)

-- An entry of ux_run_active for the task.
abbrev pub has_active : ℕ → List Run → Bool
has_active task [] = false
has_active task (r ∷ rs) = (is_active r.status && r.task_id == task) || has_active task rs

-- INTEGER PRIMARY KEY without AUTOINCREMENT: one more than the largest id.
abbrev pub max_id : List Run → ℕ
max_id [] = 0
max_id (r ∷ rs) = max r.id (max_id rs)

abbrev pub new_run : ℕ → ℕ → ℕ → List Run → Run
new_run now task attempt rs = record {
  id = suc (max_id rs);
  task_id = task;
  status = queued;
  worker = "";
  attempt = attempt;
  started_at = none;
  finished_at = none;
  error = "";
  log = "";
  created_at = now;
}

-- INSERT INTO run: refused by ux_run_active, or by the reference to a missing task.
unfoldable pub insert_run : ℕ → ℕ → ℕ → Table → Result ℕ × Table
insert_run now task attempt t =
    if has_active task t.runs
    then (err active_run, t)
    else if contains t.tasks task
    then (
      ok (suc (max_id t.runs)),
      record t { runs = t.runs ++ new_run now task attempt t.runs ∷ [] },
    )
    else (err foreign_key, t)

unfoldable pub enqueue : ℕ → ℕ → Table → Result ℕ × Table
unfolding insert_run
enqueue now task t = insert_run now task 1 t

-- The new run's id, or 0 when the attempts are used up.
unfoldable pub requeue : ℕ → ℕ → ℕ → ℤ → Table → Result ℕ × Table
unfolding insert_run
requeue now task next_attempt max_attempts t =
    if ltb_ℤ max_attempts (pos next_attempt) then (ok 0, t) else insert_run now task next_attempt t

-- UPDATE run SET … WHERE id = i
unfoldable pub update_run : ℕ → (Run → Run) → List Run → List Run
update_run i f [] = []
update_run i f (r ∷ rs) = (if r.id == i then f r else r) ∷ update_run i f rs

-- `GetRun`: the row with the id.
abbrev pub get_run : ℕ → List Run → Option Run
get_run i [] = none
get_run i (r ∷ rs) = if r.id == i then some r else get_run i rs

abbrev pub older : Run → Option Run → Run
older r none = r
older r (some s) = if ltb s.id r.id then s else r

-- SELECT id FROM run WHERE status = 'queued' ORDER BY id LIMIT 1
unfoldable pub oldest_queued : List Run → Option Run
oldest_queued [] = none
oldest_queued (r ∷ rs) =
    let rest = oldest_queued rs in if is_queued r.status then some (older r rest) else rest

abbrev pub claimed : String → ℕ → Run → Run
claimed worker now r = record r { status = running; worker = worker; started_at = some now }

-- The claimed run as RETURNING gives it; the other columns are not read back.
abbrev pub returned : String → ℕ → Run → Run
returned worker now r = record (claimed worker now r) { finished_at = none; error = ""; log = "" }

unfoldable pub claim_next : String → ℕ → Table → Result Run × Table
unfolding oldest_queued update_run
claim_next worker now t = elim (oldest_queued t.runs) [
  | none ↦ (err no_run, t)
  | some r ↦
      (ok (returned worker now r), record t { runs = update_run r.id (claimed worker now) t.runs })
]

abbrev pub finished : RunStatus → String → String → ℕ → Run → Run
finished status log error now r = record r {
  status = status;
  finished_at = some now;
  log = log;
  error = error;
}

-- Two entries of ux_run_active for one task.
abbrev pub violates : List Run → Bool
violates [] = false
violates (r ∷ rs) = (is_active r.status && has_active r.task_id rs) || violates rs

-- `Finish`; the index refuses a status that would make a second active run.
unfoldable pub finish : ℕ → RunStatus → String → String → ℕ → Table → Result (Unit {0}) × Table
unfolding update_run
finish id status log error now t =
    let runs = update_run id (finished status log error now) t.runs in
    if violates runs then (err active_run, t) else (ok tt, record t { runs = runs })

abbrev pub reap : ℕ → Run → Run
reap now r =
    if is_running r.status
    then record r {
      status = failed;
      finished_at = some now;
      error = "reaped: worker gone (process restart)";
    }
    else r

unfoldable pub reap_stale : ℕ → Table → List ℕ × Table
reap_stale now t =
    (run_ids (select (λ r. is_running r.status) t.runs), record t { runs = map (reap now) t.runs })
