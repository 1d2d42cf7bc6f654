-- ===== src/Examples/Working.antt =====
-- Runs of internal/core/worker.go, executor.go, runevents.go and backoff.go, and of
-- internal/store/sqlite/alert.go.
use duskrun.Base.{ℕ, ◌≡◌, refl, true, Option, none, some, [], ◌∷◌, pos, arith, if◌then◌else◌, ◌==◌}
use duskrun.Model.{Task, skip}
use duskrun.Queue.{Run, Table, running, update_run, is_active}
use duskrun.Queue.Invariant.{IsValid}
use duskrun.Executor.{Calls, Records, execute_run}
use duskrun.Executor.Outcomes.{recorded, execute_run_records}
use duskrun.Worker.{World, Answers, process_next, execute}
use duskrun.Worker.Attempts.{AttemptsWithin}
use duskrun.Worker.Steps.{ReadsIds, process_next-AttemptsWithin}
use duskrun.Worker.Settled.{Settled, execute-Settled}

-- A task with two retries.
abbrev task : Task
task = record {
  id = 7;
  name = "nightly";
  connection_id = 1;
  dumper_opts = "{}";
  codec_chain = [];
  storage_id = 3;
  cron = "0 2 * * *";
  retention = record { keep_last = pos 0; gfs = none };
  notifiers = [];
  enabled = true;
  misfire = skip;
  retries = pos 2;
  timeout = pos 0;
  watchdog = pos 0;
  enabled_at = 0;
  created_at = 0;
}

abbrev get_task : ℕ → Option Task
get_task i = if i == 7 then some task else none

get_task-ReadsIds : ReadsIds get_task
get_task-ReadsIds i t h = ground arith

abbrev first_run : Run
first_run = record {
  id = 1;
  task_id = 7;
  status = running;
  worker = "w0";
  attempt = 1;
  started_at = some 100;
  finished_at = none;
  error = "";
  log = "";
  created_at = 90;
}

abbrev started : Table
started = record { tasks = 7 ∷ []; runs = first_run ∷ [] }

started-IsValid : IsValid started
started-IsValid = record { distinct = (refl, tt); referenced = (refl, tt); single = refl }

-- The pipeline works, and it fails.
abbrev working : Calls
working = record {
  pipeline = some (record { key = "nightly/a"; size = 900; checksum = "c0" });
  failure = "";
  inserts = true;
  finishes = true;
  fails = true;
  log = "done";
}

abbrev failing : Calls
failing = record working { pipeline = none; failure = "no route" }

abbrev empty_records : Records
empty_records = record { queue = started; artifacts = [] }

execute_run_records_example :
    let (outcome, r') = execute_run failing 200 1 3 empty_records in
    r'.queue.runs ≡ update_run 1 (recorded outcome failing 200) (first_run ∷ [])
execute_run_records_example = execute_run_records failing 200 1 3 empty_records started-IsValid refl

abbrev answers : Answers
answers = record {
  now = 200;
  opens = true;
  closes = true;
  lists = true;
  clears = true;
  sizes = some (1000 ∷ 1000 ∷ 1000 ∷ []);
}

abbrev world : World
world = record { queue = started; artifacts = []; alerts = []; marks = []; sent = [] }

-- The same run before it was claimed.
abbrev queued_world : World
queued_world = record world {
  queue = record {
    tasks = 7 ∷ [];
    runs = record first_run { status = duskrun.Queue.RunStatus.queued } ∷ [];
  };
}

process_next-AttemptsWithin_example :
    AttemptsWithin get_task (process_next answers failing get_task "w0" queued_world).1.queue.runs
process_next-AttemptsWithin_example =
    process_next-AttemptsWithin answers failing get_task "w0" queued_world get_task-ReadsIds
      (omega arith, tt)

execute-Settled_example : Settled 1 (execute answers failing get_task first_run world).queue.runs
execute-Settled_example =
    execute-Settled answers failing get_task first_run first_run world started-IsValid refl refl
