-- ===== src/Examples/Watching.antt =====
-- Runs of internal/core/watchdog.go.
use duskrun.Base.{ℕ, ◌≡◌, ◌+◌, refl, true, false, Option, none, some, [], ◌∷◌, pos, contains}
use duskrun.Model.{Task, skip, hour}
use duskrun.Dispatcher.{Cron, Schedule}
use duskrun.Watchdog.{Writes, check, check_tasks, check_task, evaluate_watchdog}
use duskrun.Watchdog.Alerts.{fired_ids, check-check_once}

-- A task that is to succeed every two hours.
abbrev task : Task
task = record {
  id = 7;
  name = "nightly";
  connection_id = 1;
  dumper_opts = "{}";
  codec_chain = [];
  storage_id = 1;
  cron = "0 * * * *";
  retention = record { keep_last = pos 0; gfs = none };
  notifiers = [];
  enabled = true;
  misfire = skip;
  retries = pos 0;
  timeout = pos 0;
  watchdog = pos 7200000000000;
  enabled_at = 0;
  created_at = 0;
}

abbrev hourly : Schedule
hourly t = some (t + 3600000000000)

abbrev cron : Cron
cron expr = some hourly

abbrev never : ℕ → Option ℕ
never i = none

abbrev writes : Writes
writes = record { marks = λ i. true; clears = λ i. true }

abbrev late : ℕ
late = 9000000000000

check-check_once_example :
    let first = check cron never writes late (task ∷ []) [] in
    contains (fired_ids (check cron never writes (late + hour) (task ∷ []) first.marks).fired) 7
    ≡ false
unfolding check check_tasks check_task evaluate_watchdog
check-check_once_example =
    check-check_once cron never never writes writes late (late + hour) (task ∷ []) (task ∷ []) [] 7
      (refl, tt) refl
