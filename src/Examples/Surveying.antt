-- ===== src/Examples/Surveying.antt =====
-- Runs of internal/core/monitor.go.
use duskrun.Base.{
  ℕ, ◌≡◌, ◌*◌, refl, true, false, none, some, [], ◌∷◌, ◌++◌, pos, if◌then◌else◌, leb,
}
use duskrun.Model.{Task, skip, hour, minute}
use duskrun.Queue.{Run, running}
use duskrun.Monitor.{
  Monitoring, RunAnswers, AlertAnswers, unreachable_notice, recovered_notice, check_runs, reachable,
}
use duskrun.AlertStore.{alert_level}
use duskrun.Monitor.Slow.{reports, check_runs-check_runs}
use duskrun.Monitor.Reachability.{failures, level_of, outage_notices}

abbrev quiet : Monitoring
quiet = record { slow = []; misses = λ i. 0; alerts = []; sent = [] }

abbrev task : Task
task = record {
  id = 7;
  name = "nightly";
  connection_id = 1;
  dumper_opts = "{}";
  codec_chain = [];
  storage_id = 3;
  cron = "0 2 * * *";
  retention = record { keep_last = pos 0; gfs = none };
  notifiers = [];
  enabled = true;
  misfire = skip;
  retries = pos 2;
  timeout = pos 0;
  watchdog = pos 0;
  enabled_at = 0;
  created_at = 0;
}

-- Started at second 100; ten minutes were usual so far.
abbrev long_run : Run
long_run = record {
  id = 5;
  task_id = 7;
  status = running;
  worker = "w0";
  attempt = 1;
  started_at = some 100;
  finished_at = none;
  error = "";
  log = "";
  created_at = 90;
}

abbrev at : ℕ → RunAnswers
at now = record {
  now = now;
  durations = λ i. some (10 * minute ∷ 11 * minute ∷ 10 * minute ∷ []);
  get_task = λ i. some task;
}

check_runs-check_runs_example :
    let s1 = (check_runs (at (2 * hour)) (long_run ∷ []) (record quiet { sent = [] })).1 in
    let s2 = (check_runs (at (3 * hour)) (long_run ∷ []) (record s1 { sent = [] })).1 in
    reports s2.sent 5 ≡ false
unfolding check_runs
check_runs-check_runs_example =
    check_runs-check_runs (at (2 * hour)) (at (3 * hour)) (long_run ∷ []) (long_run ∷ []) 5 quiet
      refl

abbrev answers : AlertAnswers
answers = record { now = 200; opens = true; closes = true; reads = true }

outage_notices_example :
    let s' = reachable answers 3 (failures answers 3 4 quiet) in
    (s'.sent
      ≡ []
        ++ (if leb 2 4
            then record { event = unreachable_notice; subject = 3 }
              ∷ record { event = recovered_notice; subject = 3 }
              ∷ []
            else []))
    × (s'.misses 3 ≡ 0)
    × (level_of 3 s' ≡ 0)
unfolding alert_level
outage_notices_example = outage_notices answers 3 4 quiet refl refl refl refl tt
